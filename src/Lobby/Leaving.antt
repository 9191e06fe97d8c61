-- ===== src/Lobby/Leaving.antt =====
-- `onDisconnect`: the seat of a connection that goes is free again, and a game ends.
use connectdisks.Prelude.{
  ℕ, ◌+◌, ◌-◌, ◌<◌, ◌≡◌, ◌≢◌, ◌∙◌, refl, sym, ap, false≢true, inl, inr, Bool, true, false, ◌&&◌,
  none, some, ok, arith, get_elem?, length-set, set, write_lem, if◌then◌else◌, ltb, some_inj,
  Option-cases, Result,
}
use connectdisks.Connection.{on_game_end}
use connectdisks.Game.{FourAcross}
use connectdisks.Lobby.{
  Room, leave, on_disconnect, on_game_over, find_player, id_of, ready_of, emit, can_add_players,
}
use connectdisks.Lobby.Seats.{
  occupied-le-length, occupied-vacate, get_elem?-lt, get_elem?-set_self_or_ne, find_player_lem,
  find_player-seat,
}
use connectdisks.Lobby.Invariant.{IsSeating, IsIdle, IsPlaying, Inv, on_game_over_lem}

-- `r'` is `r` without the connection in `seat`.
pub record IsLeft (seat : ℕ) (r r' : Room) : Type 0 where
  pub players : r'.lobby.players ≡ set r.lobby.players seat none
  pub same_limit : r'.lobby.max_players ≡ r.lobby.max_players
  pub one_less : r'.lobby.num_players + 1 ≡ r.lobby.num_players
  pub no_game : IsIdle r'.lobby
  pub subscribers : r'.lobby.subscribers ≡ r.lobby.subscribers
  pub inv : Inv r'

-- Who hears of it: if a game was played, each subscriber hears that it is over.
pub record IsTold (r r' : Room) : Type 0 where
  pub quiet : r.lobby.is_playing_game ≡ false → r'.conns ≡ r.conns
  pub over :
      (g : FourAcross)
      → r.lobby.is_playing_game ≡ true
      → r.lobby.game ≡ some g
      → r'.conns ≡ emit (on_game_end g.winner) r.lobby.subscribers r.conns

-- The room with the seat free, before a game in it ends.
abbrev vacated : Room → ℕ → ℕ → Room
vacated r s d = record r {
  lobby = record (r.lobby) {
    players = set r.lobby.players s none;
    num_ready =
        if ready_of r.conns d && ltb 0 r.lobby.num_ready
        then r.lobby.num_ready - 1
        else r.lobby.num_ready;
    num_players =
        if ltb 0 r.lobby.num_players then r.lobby.num_players - 1 else r.lobby.num_players;
  };
}

module _ (r : Room) (i : Inv r) (s d : ℕ) (seat : get_elem? r.lobby.players s ≡ some (some d)) where
  open i use {seating}

  fewer : (vacated r s d).lobby.num_players + 1 ≡ r.lobby.num_players
  fewer = let one = occupied-vacate r.lobby.players s d seat in ground (arith, one, seating.counted)

  vacated-IsSeating : IsSeating (vacated r s d)
  vacated-IsSeating = record {
    limits = seating.limits;
    size = length-set r.lobby.players s none ∙ seating.size;
    counted = omega (arith, fewer, occupied-vacate r.lobby.players s d seat, seating.counted);
    seated = λ t e h. elim (get_elem?-set_self_or_ne r.lobby.players s t none h) [
      | inl (same, v) ↦ absurd (cc)
      | inr (other, v) ↦ seating.seated t e v
    ];
    opened = seating.opened;
  }

  below : (vacated r s d).lobby.num_players < r.lobby.max_players
  below = omega (arith, fewer, occupied-le-length r.lobby.players, seating.size, seating.counted)

  abbrev closing : Bool → Result Room
  closing playing = if playing then on_game_over (vacated r s d) else ok (vacated r s d)

  leave_run :
      (r' : Room)
      → closing r.lobby.is_playing_game ≡ ok r'
      → can_add_players r'.lobby ≡ true
      → leave r s d ≡ ok (r', true)
  unfolding leave
  leave_run r' e again =
      rw (write_lem r.lobby.players s none (get_elem?-lt r.lobby.players s seat), e, again)

  leave_idle :
      IsIdle r.lobby → (r' : Room) × (leave r s d ≡ ok (r', true)) × IsLeft s r r' × IsTold r r'
  leave_idle p = (
    vacated r s d,
    leave_run (vacated r s d) (ap closing p.idle) (ground (arith, seating.opened, p.idle, below)),
    record {
      players = refl;
      same_limit = refl;
      one_less = fewer;
      no_game = record { idle = p.idle; no_game = p.no_game };
      subscribers = refl;
      inv = record {
        seating = vacated-IsSeating;
        phase = inl (record { idle = p.idle; no_game = p.no_game });
      };
    },
    record { quiet = λ _. refl; over = λ g playing _. absurd (false≢true (sym p.idle ∙ playing)) },
  )

  leave_playing :
      IsPlaying r.lobby → (r' : Room) × (leave r s d ≡ ok (r', true)) × IsLeft s r r' × IsTold r r'
  leave_playing p =
      let (r', over, inv, conns, lobby) =
        on_game_over_lem (vacated r s d) p.game vacated-IsSeating p.has_game in
      let idle : r'.lobby.is_playing_game ≡ false = ap (λ l. l.is_playing_game) lobby in
      let gone : r'.lobby.num_players ≡ (vacated r s d).lobby.num_players =
        ap (λ l. l.num_players) lobby in
      let limit : r'.lobby.max_players ≡ r.lobby.max_players = ap (λ l. l.max_players) lobby in
      let again : can_add_players r'.lobby ≡ true =
        ground (arith, inv.seating.opened, idle, below, gone, limit) in
      (
        r',
        leave_run r' (ap closing p.playing ∙ over) again,
        record {
          players = ap (λ l. l.players) lobby;
          same_limit = limit;
          one_less = omega (arith, fewer, gone);
          no_game = record { idle = idle; no_game = ap (λ l. l.game) lobby };
          subscribers = ap (λ l. l.subscribers) lobby;
          inv = inv;
        },
        record {
          quiet = λ h. absurd (false≢true (sym h ∙ p.playing));
          over =
              λ g _ e. let same : p.game ≡ g = some_inj (sym p.has_game ∙ e) in rw (← same) conns;
        },
      )

  pub leave_lem : (r' : Room) × (leave r s d ≡ ok (r', true)) × IsLeft s r r' × IsTold r r'
  leave_lem = elim i.phase [ inl p ↦ leave_idle p | inr p ↦ leave_playing p ]

-- What `onDisconnect` does in a well-formed lobby. A connection whose id nobody in the lobby has
-- changes nothing. One that sits in a seat leaves it free and is no longer counted, no game is
-- played any more, the lobby stays well formed, and `lobbyAvailable` is called. If a game was played,
-- each subscriber is told that it is over; if not, no connection hears of it.
pub on_disconnect_lem :
    (c : ℕ) (r : Room)
    → Inv r
    → (((t e : ℕ) → get_elem? r.lobby.players t ≡ some (some e) → id_of r.conns e ≢ id_of r.conns c)
        → on_disconnect c r ≡ ok (r, false))
      × ((s : ℕ)
          → get_elem? r.lobby.players s ≡ some (some c)
          → (r' : Room) × (on_disconnect c r ≡ ok (r', true)) × IsLeft s r r' × IsTold r r')
unfolding on_disconnect
on_disconnect_lem c r i = (
  λ stranger. elim (Option-cases (find_player r.conns r.lobby.players c)) [
    | inl unseen ↦ rw (on_disconnect, unseen)
    | inr ((s, d), found) ↦
        let (seat, same) = find_player_lem r.conns r.lobby.players c found in
        absurd (stranger s d seat same)
  ],
  λ s seat.
      let mine = i.seating.seated s c seat in
      let found : find_player r.conns r.lobby.players c ≡ some (s, c) =
        find_player-seat r.conns r.lobby.players c s c seat refl
          (λ t e at same. omega (arith, i.seating.seated t e at, mine, same)) in
      let (r', e, left, told) = leave_lem r i s c seat in
      (r', rw (on_disconnect, found) e, left, told),
)
