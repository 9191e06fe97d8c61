-- ===== src/Client/Parting.antt =====
-- A connection changes by itself, and may find that its client is gone.
use connectdisks.Prelude.{
  ℕ, zero, suc, ◌≡◌, ◌∙◌, refl, sym, subst, inl, inr, true, none, some, Option, List, [], ◌∷◌,
  get_elem?, modify,
}
use connectdisks.Game.{FourAcross}
use connectdisks.Connection.{Connection}
use connectdisks.Connection.Alone.{IsPinged, IsMute, IsAlone}
use connectdisks.Lobby.Messages.{get_elem?-modify_self}
use connectdisks.Server.{Server}
use connectdisks.Client.{Client}
use connectdisks.Client.Fairness.{AreFair}
use connectdisks.Client.Signals.{pinged-Stage}
use connectdisks.Client.Heard.{Heard, Knows, Heard-Stage}
use connectdisks.Client.Life.{
  Life, comes, waits, sits, leaves, muted-Life, moved-Life, moved-Outside,
}

none-modify :
    (conns : List Connection) (d : ℕ) (f : Connection → Connection)
    → get_elem? conns d ≡ none
    → get_elem? (modify conns d f) d ≡ get_elem? conns d
none-modify [] d f e = refl
none-modify (x ∷ xs) zero f e = absurd (cc)
none-modify (x ∷ xs) (suc d) f e = none-modify xs d f e

module _ (big_to_native : List ℕ → ℕ) (start : Client) (d : ℕ) (s : Server) where
  abbrev changed_by : (Connection → Connection) → Server
  changed_by f = record s { conns = modify s.conns d f }

  pinged-Heard :
      (x : Connection) (f : Connection → Connection) (o : Option FourAcross)
      → x.client_is_connected ≡ true
      → IsPinged x (f x)
      → Heard big_to_native start x o
      → Heard big_to_native start (f x) o
  pinged-Heard x f o here p heard =
      Heard-Stage big_to_native start f heard (pinged-Stage big_to_native x here f o p)

  -- Its client is gone from now on.
  parted :
      (x : Connection) (f : Connection → Connection) (o : Option FourAcross)
      → get_elem? (changed_by f).conns d ≡ some (f x)
      → IsMute x (f x)
      → Heard big_to_native start x o
      → Life big_to_native start (changed_by f) d
  parted x f o at m heard = leaves (f x) (record {
    at = at;
    gone = m.gone;
    id = x.id;
    game = o;
    knows = subst (λ ms. Knows big_to_native start ms x.id o) (sym m.unsent) heard.knows;
    fair = subst AreFair (sym m.unsent) heard.fair;
  })

  -- The connection changes by itself, if it is there.
  pub alone-Life :
      (f : Connection → Connection)
      → ((x : Connection) → get_elem? s.conns d ≡ some x → IsAlone x (f x))
      → Life big_to_native start s d
      → Life big_to_native start (record s { conns = modify s.conns d f }) d
  alone-Life f own (comes w) =
      moved-Life big_to_native start s (changed_by f) d (comes w) (none-modify s.conns d f w.at)
        refl
  alone-Life f own (waits x w) =
      let at = get_elem?-modify_self f s.conns d w.outside.at in
      elim (own x w.outside.at) [
        | inl (_, p) ↦ waits (f x) (record {
          outside = moved-Outside s (changed_by f) d (some x) (some (f x)) w.outside at refl;
          no_id = p.same_id ∙ w.no_id;
          here = p.here;
          heard = pinged-Heard x f none w.here p w.heard;
        })
        | inr m ↦ parted x f none at m w.heard
      ]
  alone-Life f own (sits l x o w heard) =
      let at = get_elem?-modify_self f s.conns d w.watches.at in
      elim (own x w.watches.at) [
        | inl (_, p) ↦
            sits l (f x) o
              (record {
                lobby = w.lobby;
                at = w.at;
                watches = record {
                  at = at;
                  here = p.here;
                  once = w.watches.once;
                  same = w.watches.same;
                };
                alone = w.alone;
                has_id = λ z. w.has_id (sym p.same_id ∙ z);
              })
              (pinged-Heard x f o w.watches.here p heard)
        | inr m ↦ parted x f o at m heard
      ]
  alone-Life f own (leaves x w) =
      let at = get_elem?-modify_self f s.conns d w.at in
      elim (own x w.at) [
        | inl (here, _) ↦ absurd (cc)
        | inr m ↦ muted-Life big_to_native start s (changed_by f) d x (f x) w at m
      ]
