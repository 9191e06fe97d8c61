-- ===== src/Server/Calls.antt =====
-- The signals of seated connections in server/src/server.cpp, with what the server does after them.
use connectdisks.Prelude.{
  ℕ, ◌+◌, ◌<◌, ◌≡◌, ◌∙◌, refl, inl, inr, Bool, true, false, some, List, arith, length, get_elem?,
  set, length-set, Result, ok, ◌>>=◌, if◌then◌else◌,
}
use connectdisks.Connection.{Connection}
use connectdisks.Lobby.{Room, GameLobby, id_of, emit, on_ready, on_take_turn}
use connectdisks.Lobby.Silence.{Mutes, Silent, Silent-refl, Silent-then, Silent-emit}
use connectdisks.Lobby.Seats.{
  get_elem?-set_self_or_ne, get_elem?-lt, length-emit, id_of-emit, occupied-le-length,
}
use connectdisks.Lobby.Invariant.{Inv}
use connectdisks.Server.{Server, on_lobby_available, lobby_call}
use connectdisks.Server.Queue.{IsQueue, IsQueue-change, Kept-all, get_elem?-set_self}
use connectdisks.Server.Serving.{
  IsServing, IsOpen, room, with_lobby_lem, set-lobbies, on_lobby_available_lem,
}

-- No connection comes or changes its id, and nothing is sent to a client that is gone.
pub record SameIds (conns conns' : List Connection) : Type 0 where
  pub same_count : length conns' ≡ length conns
  pub same_ids : (d : ℕ) → id_of conns' d ≡ id_of conns d
  pub silent : Silent conns conns'

-- What a handler of a lobby does to the room `r`: either the players stay, or one of them leaves, and
-- `lobbyAvailable` is called.
pub record IsHandled (r r' : Room) (available : Bool) : Type 0 where
  pub inv : Inv r'
  pub limit : r'.lobby.max_players ≡ r.lobby.max_players
  pub ids : SameIds r.conns r'.conns
  pub stay : available ≡ false → r'.lobby.num_players ≡ r.lobby.num_players
  pub one_less : available ≡ true → r'.lobby.num_players + 1 ≡ r.lobby.num_players

module _ (s : Server) (i : IsServing s) (l : ℕ) (x : GameLobby)
    (at : get_elem? s.lobbies l ≡ some x) (call : Room → Result (Room × Bool)) (r : Room) (b : Bool)
    (runs : call (room s x) ≡ ok (r, b)) (h : IsHandled (room s x) r b) where
  abbrev pub called : Server
  called = record s { conns = r.conns; lobbies = set s.lobbies l r.lobby }

  in_range : l < length s.lobbies
  in_range = get_elem?-lt s.lobbies l at

  lobbies_after :
      (k : ℕ) (y : GameLobby)
      → get_elem? called.lobbies k ≡ some y
      → Inv (room called y) × (y.max_players ≡ 2)
  lobbies_after =
      set-lobbies s called l r.lobby (Kept-all s.conns r.conns h.ids.same_count h.ids.same_ids) refl
        h.inv (h.limit ∙ (i.lobbies l x at).1) i.lobbies

  in_order_after : IsQueue r.conns 0 s.player_queue
  in_order_after =
      IsQueue-change s.conns r.conns 0 s.player_queue (omega (arith, h.ids.same_count))
        (λ d _ _ n. h.ids.same_ids d ∙ n) i.in_order

  size : length called.lobbies ≡ length s.lobbies
  size = length-set s.lobbies l r.lobby

  stays-IsServing : b ≡ false → IsServing called
  stays-IsServing e = record {
    few = omega (arith, i.few, size);
    lobbies = lobbies_after;
    in_order = in_order_after;
    needed = λ w.
        let (most, full) = i.needed w in
        (
          size ∙ most,
          λ k y at'. elim (get_elem?-set_self_or_ne s.lobbies l k r.lobby at') [
            | inl (same, v) ↦ rw (← v) (omega (arith, h.stay e, h.limit, full l x at))
            | inr (other, v) ↦ full k y v
          ],
        );
  }

  pub leaves-IsOpen : b ≡ true → IsOpen l r.lobby called
  leaves-IsOpen e = record {
    few = omega (arith, i.few, size);
    lobbies = lobbies_after;
    in_order = in_order_after;
    at = get_elem?-set_self s.lobbies l r.lobby in_range;
    free =
        (let seats = (i.lobbies l x at).0.seating in
          omega (
            arith,
            h.one_less e,
            h.limit,
            occupied-le-length x.players,
            seats.size,
            seats.counted,
          ));
    needed = λ w.
        let (most, full) = i.needed w in
        (
          size ∙ most,
          omega (arith, h.one_less e, h.limit, full l x at),
          λ k y other at'. elim (get_elem?-set_self_or_ne s.lobbies l k r.lobby at') [
            | inl (same, v) ↦ absurd (other same)
            | inr (_, v) ↦ full k y v
          ],
        );
  }

  goes_on :
      (available : Bool)
      → b ≡ available
      → (s' : Server) × ((if available then on_lobby_available l called else ok called) ≡ ok s')
        × IsServing s'
  goes_on true e = on_lobby_available_lem l r.lobby called (leaves-IsOpen e)
  goes_on false e = (called, refl, stays-IsServing e)

  -- The server goes on with its lobbies in order.
  pub lobby_call_lem : (s' : Server) × (lobby_call l call s ≡ ok s') × IsServing s'
  unfolding lobby_call
  lobby_call_lem =
      let (s', e, serving) = goes_on b refl in
      (s', rw (with_lobby_lem s l x call r b at runs) e, serving)

pub SameIds-refl : (conns : List Connection) → SameIds conns conns
SameIds-refl conns = record { same_count = refl; same_ids = λ d. refl; silent = Silent-refl conns }

pub SameIds-emit :
    (handler : Connection → Connection) (subscribers : List ℕ) (conns : List Connection)
    → ((x : Connection) → (handler x).id ≡ x.id)
    → Mutes handler
    → {conns' : List Connection} → SameIds conns conns'
    → SameIds conns (emit handler subscribers conns')
SameIds-emit handler subscribers conns keeps mutes {conns'} s = record {
  same_count = length-emit handler subscribers conns' ∙ s.same_count;
  same_ids = λ d. id_of-emit handler keeps subscribers conns' d ∙ s.same_ids d;
  silent =
      Silent-then conns conns' (emit handler subscribers conns') s.silent
        (Silent-emit handler subscribers conns' mutes);
}

pub SameIds-eq :
    {conns conns' conns'' : List Connection}
    → conns'' ≡ conns'
    → SameIds conns conns'
    → SameIds conns conns''
SameIds-eq e s = rw e s

-- The three handlers.
abbrev pub turn_call : ℕ → ℕ → Room → Result (Room × Bool)
turn_call c column r = on_take_turn c column r >>= λ r'. ok (r', false)

abbrev pub ready_call : ℕ → ℕ → Room → Result (Room × Bool)
ready_call first c r = on_ready first c r >>= λ r'. ok (r', false)
