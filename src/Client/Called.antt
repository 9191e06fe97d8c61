-- ===== src/Client/Called.antt =====
-- A connection sits down in a lobby of server/src/server.cpp, or another one does.
use connectdisks.Prelude.{
  ℕ, ◌+◌, ◌<◌, ◌≡◌, ◌≢◌, ◌∙◌, refl, sym, ap, subst, inl, inr, Bool-cases, true, false, some, none,
  Option, List, [], ◌∷◌, ◌++◌, ok, ok_inj, ◌>>=◌, arith, get_elem?, length, ◌==◌, ==→eq, ==→ne,
  eq→==,
}
use connectdisks.Messaging.{message, connected}
use connectdisks.Game.{FourAcross}
use connectdisks.Connection.{Connection, set_id, send_message}
use connectdisks.Lobby.{Room, GameLobby, id_of, add_player, enter}
use connectdisks.Lobby.Seats.{get_elem?-lt}
use connectdisks.Lobby.Invariant.{Inv}
use connectdisks.Lobby.Joining.{IsSeated, add_player_lem}
use connectdisks.Lobby.Messages.{occurs, get_elem?-modify_self}
use connectdisks.Lobby.Silence.{Silent, Silent-refl, Silent-modify, enter-Mutes}
use connectdisks.Lobby.Runs.{add_player_cases}
use connectdisks.Server.{Server, add_to_lobby}
use connectdisks.Server.Queue.{get_elem?-set_self, get_elem?-set_ne}
use connectdisks.Server.Serving.{room, with_lobby_lem}
use connectdisks.Client.{Client}
use connectdisks.Client.Mirror.{Watches, Told}
use connectdisks.Client.Fairness.{AreFair-append, no_start, one_fair, all_read}
use connectdisks.Client.Sharing.{add_player-Follows}
use connectdisks.Client.Seen.{Seen, another, id_of-get_elem?, after}
use connectdisks.Client.Beside.{Apart, add_player-Apart}
use connectdisks.Client.Heard.{Heard, Knows-connected}
use connectdisks.Client.Life.{
  Waits, Life, get_elem?-none, silent-Life, leaves, comes, waits, sits, called-Life,
}

occurs-append_self : (d : ℕ) (cs : List ℕ) → occurs d (cs ++ d ∷ []) ≡ occurs d cs + 1
occurs-append_self d [] = rw (eq→== d d refl) (omega arith)
occurs-append_self d (c ∷ cs) = elim (Bool-cases (c == d)) [
  | inl here ↦ rw here (ap (λ n. n + 1) (occurs-append_self d cs))
  | inr there ↦ rw there (occurs-append_self d cs)
]

module _ (x : Connection) (n : ℕ) (here : x.client_is_connected ≡ true) (fresh : x.id ≡ 0) where
  set_id-new : set_id x n ≡ record x { id = n; sent = x.sent ++ message connected (n ∷ []) ∷ [] }
  unfolding set_id send_message
  set_id-new = rw (fresh, here) refl

-- The connection `d` sits down.
module _ (big_to_native : List ℕ → ℕ) (start : Client) (s : Server) (d : ℕ) (x : Connection)
    (w : Waits big_to_native start s d x) (k : ℕ) (y : GameLobby)
    (at : get_elem? s.lobbies k ≡ some y) where
  given : (n : ℕ) → Connection
  given n = enter k (record x { id = n; sent = x.sent ++ message connected (n ∷ []) ∷ [] })

  given-Heard : (n : ℕ) → Heard big_to_native start (given n) none
  unfolding given
  given-Heard n = record {
    knows = Knows-connected big_to_native start x.sent x.id n none w.heard.knows;
    fair = AreFair-append w.heard.fair (one_fair (no_start (λ e. absurd (cc))) all_read);
  }

  known : d < length s.conns
  known = get_elem?-lt s.conns d w.outside.at

  new_here : id_of s.conns d ≡ 0
  new_here = id_of-get_elem? s.conns d w.outside.at ∙ w.no_id

  seated-Seen :
      (r : Room)
      → y.game ≡ none
      → (t : IsSeated k d (room s y) r) → Seen (after s k r) k d (given (t.seat + 1)) none
  unfolding given
  seated-Seen r no_game t = record {
    lobby = r.lobby;
    at = get_elem?-set_self s.lobbies k r.lobby (get_elem?-lt s.lobbies k at);
    watches = record {
      at =
          ap (λ cs. get_elem? cs d) t.conns
          ∙ get_elem?-modify_self (λ z. enter k (set_id z (t.seat + 1))) s.conns d w.outside.at
          ∙ ap (λ z. some (enter k z)) (set_id-new x (t.seat + 1) w.here w.no_id);
      here = w.here;
      once =
          ap (occurs d) t.subscribed
          ∙ occurs-append_self d y.subscribers
          ∙ ap (λ n. n + 1) (w.outside.absent k y at);
      same = λ g e. absurd (none-some (sym no_game ∙ sym t.game ∙ e));
    };
    alone = λ j z n v.
        w.outside.absent j z (sym (get_elem?-set_ne s.lobbies k j r.lobby (λ h. n (sym h))) ∙ v);
    has_id = λ h. absurd (omega arith);
  }
    where
      none-some : {g : FourAcross} → ◌≡◌ {A = Option FourAcross} none (some g) → ⊥
      none-some e = cc

  seated-Life :
      Inv (room s y)
      → y.num_players < y.max_players
      → (s' : Server) × (add_to_lobby k d s ≡ ok s') × Life big_to_native start s' d
  unfolding add_to_lobby
  seated-Life i free =
      let (idle, no_game) = still in
      let (r, e, t) = (add_player_lem k d (room s y) i known new_here).1 idle free in
      (
        after s k r,
        rw
            (with_lobby_lem s k y (λ r. add_player k d r >>= λ r'. ok (r', false)) r false at
              (rw e refl))
            refl,
        sits k (given (t.seat + 1)) none (seated-Seen r no_game t) (given-Heard (t.seat + 1)),
      )
    where
      still : (y.is_playing_game ≡ false) × (y.game ≡ none)
      still = elim i.phase [ inl p ↦ (p.idle, p.no_game) | inr p ↦ absurd (omega (arith, p.full)) ]

-- A connection that has no id yet sits down.
module _ (big_to_native : List ℕ → ℕ) (start : Client) (s : Server) (d k c : ℕ) (y : GameLobby)
    (at : get_elem? s.lobbies k ≡ some y) (i : Inv (room s y)) (known : c < length s.conns)
    (new : id_of s.conns c ≡ 0) where
  abbrev Sat : Type 0
  Sat = (s' : Server) × (add_to_lobby k c s ≡ ok s') × Life big_to_native start s' d

  seated : (r : Room) × (add_player k c (room s y) ≡ ok r) × Silent s.conns r.conns
  seated = elim (add_player_cases k c (room s y) i known new) [
    | inl e ↦ (room s y, e, Silent-refl s.conns)
    | inr (r, e, t) ↦ (
      r,
      e,
      subst (Silent s.conns) (sym t.conns) (
          Silent-modify (λ x. enter k (set_id x (t.seat + 1))) s.conns c
            (enter-Mutes k (t.seat + 1))),
    )
  ]

  runs : (r : Room) → add_player k c (room s y) ≡ ok r → add_to_lobby k c s ≡ ok (after s k r)
  unfolding add_to_lobby
  runs r e =
      rw
        (with_lobby_lem s k y (λ r. add_player k c r >>= λ r'. ok (r', false)) r false at
          (rw e refl))
        refl

  other-Life : c ≢ d → Life big_to_native start s d → Sat
  unfolding connectdisks.Lobby.Runs.call
  other-Life other life =
      let (r, e, silent) = seated in
      (
        after s k r,
        runs r e,
        called-Life big_to_native start s d k y r at (told r e) (spared r e) silent life,
      )
    where
      told :
          (r : Room)
          → add_player k c (room s y) ≡ ok r
          → (x : Connection) (o : Option FourAcross) → Watches (room s y) d x o
          → Told big_to_native d x o r
      told r e x o watches =
          let (r', e', i', t) =
            add_player-Follows big_to_native d (room s y) x o watches k c i known new other in
          subst (Told big_to_native d x o) (ok_inj (sym e' ∙ e)) t

      spared :
          (r : Room)
          → add_player k c (room s y) ≡ ok r
          → occurs d y.subscribers ≡ 0
          → Apart d (room s y) r
      spared r e absent =
          let (r', e', a) = add_player-Apart d (room s y) absent k c i known new other in
          subst (Apart d (room s y)) (ok_inj (sym e' ∙ e)) a

  pub add_to_lobby-Life : y.num_players < y.max_players → Life big_to_native start s d → Sat
  add_to_lobby-Life free (comes w) =
      other-Life (λ e. absurd (omega (arith, known, e, get_elem?-none s.conns d w.at))) (comes w)
  add_to_lobby-Life free (waits x w) = elim (Bool-cases (c == d)) [
    | inl here ↦ rw (==→eq c d here) (seated-Life big_to_native start s d x w k y at i free)
    | inr there ↦ other-Life (==→ne c d there) (waits x w)
  ]
  add_to_lobby-Life free (sits l x o w heard) =
      other-Life (another s l d x o w c new) (sits l x o w heard)
  add_to_lobby-Life free (leaves x w) =
      let (r, e, silent) = seated in
      (after s k r, runs r e, silent-Life big_to_native start s (after s k r) d x w silent)
