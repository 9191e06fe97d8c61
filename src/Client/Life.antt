-- ===== src/Client/Life.antt =====
-- The life of a connection of the server, from before it is accepted on, with its client.
use connectdisks.Prelude.{
  refl, ℕ, ◌≡◌, ◌∙◌, sym, ap, subst, false, inl, inr, true, Option, none, some, List, [], ◌∷◌,
  get_elem?, zero, suc, length, ◌≤◌, arith,
}
use connectdisks.Game.{FourAcross}
use connectdisks.Connection.{Connection}
use connectdisks.Lobby.{Room, GameLobby}
use connectdisks.Lobby.Seats.{get_elem?-set_self_or_ne}
use connectdisks.Lobby.Messages.{occurs}
use connectdisks.Server.{Server}
use connectdisks.Server.Serving.{room}
use connectdisks.Client.{Client}
use connectdisks.Client.Mirror.{Watches, Told}
use connectdisks.Client.Beside.{Apart}
use connectdisks.Connection.Alone.{IsMute}
use connectdisks.Lobby.Silence.{Silent}
use connectdisks.Client.Fairness.{AreFair}
use connectdisks.Client.Heard.{Knows, Heard, Heard-then}
use connectdisks.Client.Seen.{Seen, called-Follows, moved-Seen, after}

-- The connection `d` is `p`, if there is one, and hears no signal of any lobby.
pub record Outside (s : Server) (d : ℕ) (p : Option Connection) : Type 0 where
  pub at : get_elem? s.conns d ≡ p
  pub absent : (k : ℕ) (y : GameLobby) → get_elem? s.lobbies k ≡ some y → occurs d y.subscribers ≡ 0

pub get_elem?-none {ℓ} : {A : Type ℓ} (xs : List A) (i : ℕ) → get_elem? xs i ≡ none → length xs ≤ i
get_elem?-none [] i e = omega arith
get_elem?-none (x ∷ xs) zero e = absurd (cc)
get_elem?-none (x ∷ xs) (suc i) e = omega (arith, get_elem?-none xs i e)

pub moved-Outside :
    (s s' : Server) (d : ℕ) (p p' : Option Connection)
    → Outside s d p
    → get_elem? s'.conns d ≡ p'
    → s'.lobbies ≡ s.lobbies
    → Outside s' d p'
moved-Outside s s' d p p' w at e = record {
  at = at;
  absent = λ k y v. w.absent k y (ap (λ ls. get_elem? ls k) (sym e) ∙ v);
}

called-Outside :
    (s : Server) (d : ℕ) (p : Option Connection) (k : ℕ) (y : GameLobby) (r : Room)
    → Outside s d p
    → Apart d (room s y) r
    → Outside (after s k r) d p
called-Outside s d p k y r w (at, absent) = record {
  at = at ∙ w.at;
  absent = λ j z v. elim (get_elem?-set_self_or_ne s.lobbies k j r.lobby v) [
    | inl (same, z_is) ↦ ap (λ (y : GameLobby). occurs d y.subscribers) (sym z_is) ∙ absent
    | inr (other, old) ↦ w.absent j z old
  ];
}

module _ (big_to_native : List ℕ → ℕ) (start : Client) where
  -- The connection has been accepted, and is in no lobby.
  pub record Waits (s : Server) (d : ℕ) (x : Connection) : Type 0 where
    pub outside : Outside s d (some x)
    pub no_id : x.id ≡ 0
    pub here : x.client_is_connected ≡ true
    pub heard : Heard big_to_native start x none

  -- Its client is gone, and had read all that has been sent.
  pub record Gone (s : Server) (d : ℕ) (x : Connection) : Type 0 where
    pub at : get_elem? s.conns d ≡ some x
    pub gone : x.client_is_connected ≡ false
    pub id : ℕ
    pub game : Option FourAcross
    pub knows : Knows big_to_native start x.sent id game
    pub fair : AreFair x.sent

  -- It is accepted later, waits, sits in a lobby, or its client is gone.
  pub data Life (s : Server) (d : ℕ) : Type 0 where
    comes : Outside s d none → Life s d
    waits : (x : Connection) → Waits s d x → Life s d
    sits :
        (l : ℕ) (x : Connection) (o : Option FourAcross)
        → Seen s l d x o
        → Heard big_to_native start x o
        → Life s d
    leaves : (x : Connection) → Gone s d x → Life s d

  -- Once the client is gone, nothing is sent to it.
  pub muted-Life :
      (s s' : Server) (d : ℕ) (x x' : Connection)
      → Gone s d x
      → get_elem? s'.conns d ≡ some x'
      → IsMute x x'
      → Life s' d
  muted-Life s s' d x x' w at m = leaves x' (record {
    at = at;
    gone = m.gone;
    id = w.id;
    game = w.game;
    knows = subst (λ ms. Knows big_to_native start ms w.id w.game) (sym m.unsent) w.knows;
    fair = subst AreFair (sym m.unsent) w.fair;
  })

  pub silent-Life :
      (s s' : Server) (d : ℕ) (x : Connection) → Gone s d x → Silent s.conns s'.conns → Life s' d
  silent-Life s s' d x w silent =
      let (x', at, m) = silent d x w.at w.gone in muted-Life s s' d x x' w at m

  -- The same connection and lobbies.
  pub moved-Life :
      (s s' : Server) (d : ℕ)
      → Life s d
      → get_elem? s'.conns d ≡ get_elem? s.conns d
      → s'.lobbies ≡ s.lobbies
      → Life s' d
  moved-Life s s' d (comes w) at e = comes (moved-Outside s s' d none none w (at ∙ w.at) e)
  moved-Life s s' d (waits x w) at e = waits x (record {
    outside = moved-Outside s s' d (some x) (some x) w.outside (at ∙ w.outside.at) e;
    no_id = w.no_id;
    here = w.here;
    heard = w.heard;
  })
  moved-Life s s' d (sits l x o w heard) at e =
      sits l x o (moved-Seen s l d x o w s' (at ∙ w.watches.at) e) heard
  moved-Life s s' d (leaves x w) at e =
      muted-Life s s' d x x w (at ∙ w.at) (record { gone = w.gone; unsent = refl })

  -- After a call of a lobby.
  pub called-Life :
      (s : Server) (d k : ℕ) (y : GameLobby) (r : Room)
      → get_elem? s.lobbies k ≡ some y
      → ((x : Connection) (o : Option FourAcross)
          → Watches (room s y) d x o
          → Told big_to_native d x o r)
      → (occurs d y.subscribers ≡ 0 → Apart d (room s y) r)
      → Silent s.conns r.conns
      → Life s d
      → Life (after s k r) d
  called-Life s d k y r at told spared silent (comes w) =
      comes (called-Outside s d none k y r w (spared (w.absent k y at)))
  called-Life s d k y r at told spared silent (waits x w) = waits x (record {
    outside = called-Outside s d (some x) k y r w.outside (spared (w.outside.absent k y at));
    no_id = w.no_id;
    here = w.here;
    heard = w.heard;
  })
  called-Life s d k y r at told spared silent (sits l x o w heard) =
      let t = called-Follows s l d x o w big_to_native k y r at (told x o) spared in
      sits l t.x' t.o' t.after (Heard-then big_to_native start heard t)
  called-Life s d k y r at told spared silent (leaves x w) =
      silent-Life s (after s k r) d x w silent
