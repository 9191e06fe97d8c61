-- ===== src/Lobby/Joining.antt =====
-- `addPlayer`: who is refused, and where the others sit.
use connectdisks.Prelude.{
  ℕ, suc, ◌+◌, ◌≤◌, ◌<◌, ◌≡◌, ◌≢◌, ◌⊎◌, ◌∙◌, refl, sym, ap, false≢true, inl, inr, true, false, none,
  some, List, [], ◌∷◌, ◌++◌, zero, modify, length-replicate, ok, arith, length, get_elem?,
  length-modify, length-set, set, write_lem, u8, some_inj, replicate,
}
use connectdisks.Connection.{Connection, set_id}
use connectdisks.Lobby.{
  Room, new, start, add_player, first_available, id_of, enter, can_add_players,
}
use connectdisks.Lobby.Seats.{
  occupied-replicate, occupied-le-length, occupied-seat, first_available_lem, get_elem?-lt,
  get_elem?-set_self_or_ne, id_of-modify_ne, id_of-modify_self,
}
use connectdisks.Lobby.Invariant.{Inv}

-- A lobby for 2 to 255 players that has just been made and started is well formed, whatever the
-- connections are.
pub start-new-Inv :
    (max_players : ℕ) (conns : List Connection)
    → 2 ≤ max_players
    → max_players < 256
    → Inv (record { conns = conns; lobby = start (new max_players) })
unfolding start new
start-new-Inv n conns h k = record {
  seating = record {
    limits = (h, k);
    size = length-replicate n none;
    counted = sym (occupied-replicate n);
    seated = λ s c e. absurd (no_seat n s c e);
    opened = refl;
  };
  phase = inl (record { idle = refl; no_game = refl });
}
  where
    no_seat : (n s c : ℕ) → get_elem? (replicate n none) s ≡ some (some c) → ⊥
    no_seat zero s c e = cc
    no_seat (suc n) zero c e = let f = some_inj e in cc
    no_seat (suc n) (suc s) c e = no_seat n s c e

pub start-new-free : (n : ℕ) → ((start (new n)).max_players ≡ n) × ((start (new n)).num_players ≡ 0)
unfolding start new
start-new-free n = (refl, refl)

pub start-new-subscribers : (n : ℕ) → (start (new n)).subscribers ≡ []
unfolding start new
start-new-subscribers n = refl

-- `r'` is `r` with the connection `c` in the first free seat.
pub record IsSeated (l c : ℕ) (r r' : Room) : Type 0 where
  pub seat : ℕ
  pub was_free : get_elem? r.lobby.players seat ≡ some none
  pub first_free : seat ≡ first_available r.lobby.players
  pub players : r'.lobby.players ≡ set r.lobby.players seat (some c)
  pub id : id_of r'.conns c ≡ suc seat
  pub conns : r'.conns ≡ modify r.conns c (λ x. enter l (set_id x (seat + 1)))
  pub others : (d : ℕ) → c ≢ d → id_of r'.conns d ≡ id_of r.conns d
  pub one_more : r'.lobby.num_players ≡ r.lobby.num_players + 1
  pub game : r'.lobby.game ≡ r.lobby.game
  pub same_limit : r'.lobby.max_players ≡ r.lobby.max_players
  pub same_count : length r'.conns ≡ length r.conns
  pub subscribed : r'.lobby.subscribers ≡ r.lobby.subscribers ++ c ∷ []
  pub inv : Inv r'

set_id_fresh : (x : Connection) (n : ℕ) → x.id ≡ 0 → (set_id x n).id ≡ n
unfolding set_id
set_id_fresh x n e = ground arith

module _ (l c : ℕ) (r : Room) where
  abbrev seat : ℕ
  seat = first_available r.lobby.players

  abbrev seated_room : Room
  seated_room = record r {
    conns = modify r.conns c (λ x. enter l (set_id x (seat + 1)));
    lobby = record (r.lobby) {
      players = set r.lobby.players seat (some c);
      subscribers = r.lobby.subscribers ++ c ∷ [];
      num_players = r.lobby.num_players + 1;
    };
  }

module _ (l c : ℕ) (r : Room) (i : Inv r) (known : c < length r.conns)
    (new_here : id_of r.conns c ≡ 0) (idle : r.lobby.is_playing_game ≡ false)
    (room : r.lobby.num_players < r.lobby.max_players) where
  open i use {seating}

  abbrev first : ℕ
  first = first_available r.lobby.players

  free : get_elem? r.lobby.players first ≡ some none
  free = first_available_lem r.lobby.players (omega (arith, seating.size, seating.counted))

  in_range : first < r.lobby.max_players
  in_range = omega (arith, get_elem?-lt r.lobby.players first free, seating.size)

  id_here : id_of (seated_room l c r).conns c ≡ suc first
  id_here =
      id_of-modify_self (λ x. enter l (set_id x (first + 1))) r.conns c (suc first) known
        (λ x e. set_id_fresh x (first + 1) (e ∙ new_here) ∙ omega arith)

  id_there : (d : ℕ) → c ≢ d → id_of (seated_room l c r).conns d ≡ id_of r.conns d
  id_there d h = id_of-modify_ne (λ x. enter l (set_id x (first + 1))) r.conns c d h

  seats_lem :
      (s d : ℕ)
      → get_elem? (set r.lobby.players first (some c)) s ≡ some (some d)
      → (d < length (seated_room l c r).conns) × (id_of (seated_room l c r).conns d ≡ suc s)
  seats_lem s d e =
      let same_size = length-modify r.conns c (λ x. enter l (set_id x (first + 1))) in
      elim (get_elem?-set_self_or_ne r.lobby.players first s (some c) e) [
        | inl (same, v) ↦
            let here : c ≡ d = some_inj v in (omega arith, rw (← here, ← same) id_here)
        | inr (other, v) ↦
            let (k, at) = seating.seated s d v in
            let moved : c ≢ d = λ h. absurd (omega (arith, new_here, ap (id_of r.conns) h, at)) in
            (omega arith, id_there d moved ∙ at)
      ]

  no_game_here : r.lobby.game ≡ none
  no_game_here = elim i.phase [
    | inl p ↦ p.no_game
    | inr p ↦ absurd (false≢true (sym idle ∙ p.playing))
  ]

  seated_room-Inv : Inv (seated_room l c r)
  seated_room-Inv = record {
    seating = record {
      limits = seating.limits;
      size = length-set r.lobby.players first (some c) ∙ seating.size;
      counted = omega (arith, occupied-seat r.lobby.players first c free, seating.counted);
      seated = seats_lem;
      opened = seating.opened;
    };
    phase = inl (record { idle = idle; no_game = no_game_here });
  }

  add_player_seats : add_player l c r ≡ ok (seated_room l c r)
  unfolding add_player
  add_player_seats =
      let guard : can_add_players r.lobby ≡ true = ground (arith, seating.opened, idle) in
      let narrow : u8 first ≡ first = omega (arith, in_range, seating.limits) in
      let id : u8 (first + 1) ≡ first + 1 = omega (arith, in_range, seating.limits) in
      let count : u8 (r.lobby.num_players + 1) ≡ r.lobby.num_players + 1 =
        omega (arith, seating.limits) in
      rw (
        guard,
        narrow,
        id,
        count,
        write_lem r.lobby.players first (some c) (omega (arith, in_range, seating.size)),
      )

  seated_room-IsSeated : IsSeated l c r (seated_room l c r)
  seated_room-IsSeated = record {
    seat = first;
    was_free = free;
    first_free = refl;
    players = refl;
    id = id_here;
    conns = refl;
    others = id_there;
    one_more = refl;
    game = refl;
    same_limit = refl;
    same_count = length-modify r.conns c (λ x. enter l (set_id x (first + 1)));
    subscribed = refl;
    inv = seated_room-Inv;
  }

refuses :
    (l c : ℕ) (r : Room)
    → Inv r
    → (r.lobby.is_playing_game ≡ true) ⊎ (r.lobby.max_players ≤ r.lobby.num_players)
    → can_add_players r.lobby ≡ false
refuses l c r i (inl playing) = ground (arith, playing)
refuses l c r i (inr full) =
    let s = i.seating in
    let same : r.lobby.num_players ≡ r.lobby.max_players =
      omega (arith, full, occupied-le-length r.lobby.players, s.size, s.counted) in
    ground (arith, same)

-- What `addPlayer` does in a well-formed lobby with a connection that has no id yet. While a game is
-- played or no seat is free, nothing changes. Otherwise the connection takes the first free seat
-- and the id of that seat, is counted and hears the lobby's signals from then on; no other
-- connection changes its id, the game does not change, and the lobby stays well formed.
pub add_player_lem :
    (l c : ℕ) (r : Room)
    → Inv r
    → c < length r.conns
    → id_of r.conns c ≡ 0
    → ((r.lobby.is_playing_game ≡ true) ⊎ (r.lobby.max_players ≤ r.lobby.num_players)
        → add_player l c r ≡ ok r)
      × (r.lobby.is_playing_game ≡ false
          → r.lobby.num_players < r.lobby.max_players
          → (r' : Room) × (add_player l c r ≡ ok r') × IsSeated l c r r')
unfolding add_player
add_player_lem l c r i known new_here = (
  λ refused. rw (refuses l c r i refused),
  λ idle room. (
    seated_room l c r,
    add_player_seats l c r i known new_here idle room,
    seated_room-IsSeated l c r i known new_here idle room,
  ),
)
