-- ===== src/Lobby/Starting.antt =====
-- `onReady`: who is counted, and when a game starts.
use connectdisks.Prelude.{
  ℕ, ◌+◌, ◌≤◌, ◌≡◌, ◌≢◌, ◌∙◌, refl, sym, ap, false≢true, ◌==◌, ◌*◌, inl, inr, true, false, some, ok,
  arith, get_elem?, u8, Option-cases, Bool-cases, ==→eq, eq→==, ne→==, ◌&&◌,
}
use connectdisks.Board.{min_columns, min_rows}
use connectdisks.Connection.{on_game_start, on_turn}
use connectdisks.Game
use connectdisks.Game.{FourAcross, board_full}
use connectdisks.Game.Players.{IsStart, new-IsStart}
use connectdisks.Game.Ending.{IsStart-Inv, board_full_lem}
use connectdisks.Lobby.{
  Room, GameLobby, begin, start_game, on_ready, find_player, id_of, emit, signal,
  all_players_are_ready, is_full,
}
use connectdisks.Lobby.Seats.{find_player_lem, find_player-seat}
use connectdisks.Lobby.Invariant.{
  IsPlaying, Inv, on_game_start-id, on_turn-id, signal-IsSeating, regame-IsSeating,
}

-- `r'` is `r` with the fresh game `g`. If no game was played, each subscriber is told that the game
-- starts, and then whose turn it is.
pub record IsStarted (first : ℕ) (r : Room) (g : FourAcross) (r' : Room) : Type 0 where
  pub full : r.lobby.num_players ≡ r.lobby.max_players
  pub made : Game.new r.lobby.max_players first min_columns min_rows ≡ ok g
  pub fresh : IsStart r.lobby.max_players first min_columns min_rows g
  pub lobby : r'.lobby ≡ record (r.lobby) {
    is_playing_game = true;
    game = some g;
    num_ready = u8 (r.lobby.num_ready + 1);
  }
  pub turn : g.current_player ≡ first
  pub told :
      r.lobby.is_playing_game ≡ false
      → r'.conns
        ≡ emit (on_turn first) r.lobby.subscribers (
            emit
              (on_game_start r.lobby.num_players min_columns min_rows first)
              r.lobby.subscribers
              r.conns)
  pub untold : r.lobby.is_playing_game ≡ true → r'.conns ≡ r.conns
  pub inv : Inv r'

-- The room with one more ready client counted.
abbrev pub counted : Room → Room
counted r = record r { lobby = record (r.lobby) { num_ready = u8 (r.lobby.num_ready + 1) } }

abbrev fresh_room : Room → FourAcross → Room
fresh_room r g = record (counted r) { lobby = record ((counted r).lobby) { game = some g } }

pub counted-Inv : (r : Room) → Inv r → Inv (counted r)
counted-Inv r i = record {
  seating = regame-IsSeating r r.lobby.is_playing_game r.lobby.game _ i.seating;
  phase = elim i.phase [
    | inl p ↦ inl (record { idle = p.idle; no_game = p.no_game })
    | inr p ↦ inr (record {
      game = p.game;
      playing = p.playing;
      has_game = p.has_game;
      inv = p.inv;
      unwon = p.unwon;
      room_left = p.room_left;
      all_play = p.all_play;
      full = p.full;
    })
  ];
}

module _ (first : ℕ) (r : Room) (i : Inv r) (low : 1 ≤ first) (high : first ≤ r.lobby.max_players)
    (full : r.lobby.num_players ≡ r.lobby.max_players) where
  open i use {seating}

  module _ (g : FourAcross) (fresh : IsStart r.lobby.max_players first min_columns min_rows g)
      (made : Game.new r.lobby.max_players first min_columns min_rows ≡ ok g) where
    fresh-Inv : Game.Turn.Inv g
    fresh-Inv = IsStart-Inv _ _ _ _ g (seating.limits.1) fresh

    turn : g.current_player ≡ first
    turn = ground (arith, fresh.first, low, high)

    room_left : board_full g ≡ ok false
    room_left =
        let empty : (g.num_turns == g.board.num_columns * g.board.num_rows) ≡ false =
          ground (arith, fresh.no_turns, fresh.columns, fresh.rows) in
        board_full_lem g fresh-Inv ∙ ap ok empty

    fresh-IsPlaying :
        (l : GameLobby)
        → l.is_playing_game ≡ true
        → l.game ≡ some g
        → l.max_players ≡ r.lobby.max_players
        → l.num_players ≡ r.lobby.num_players
        → IsPlaying l
    fresh-IsPlaying l p h m n = record {
      game = g;
      playing = p;
      has_game = h;
      inv = fresh-Inv;
      unwon = fresh.unwon;
      room_left = room_left;
      all_play = ground (arith, fresh.players, seating.limits, m);
      full = omega (arith, m, n, full);
    }

    told_room : Room
    told_room =
        signal
          (on_game_start r.lobby.num_players g.board.num_columns g.board.num_rows g.current_player)
          (record (fresh_room r g) {
            lobby = record ((fresh_room r g).lobby) { is_playing_game = true };
          })

    abbrev started_room : Room
    started_room = signal (on_turn g.current_player) told_room

    -- Between games, both signals are called.
    starts :
        r.lobby.is_playing_game ≡ false
        → (r' : Room) × (start_game (fresh_room r g) ≡ ok r') × IsStarted first r g r'
    unfolding start_game told_room
    starts idle = (
      started_room,
      rw (seating.opened, idle),
      record {
        full = full;
        made = made;
        fresh = fresh;
        lobby = refl;
        turn = turn;
        untold = λ playing. absurd (false≢true (sym idle ∙ playing));
        told = λ _. rw (fresh.columns, fresh.rows, turn);
        inv = record {
          seating = signal-IsSeating (on_turn g.current_player) (on_turn-id g.current_player) _ (
              signal-IsSeating
                (on_game_start r.lobby.num_players g.board.num_columns g.board.num_rows
                  g.current_player)
                (on_game_start-id r.lobby.num_players g.board.num_columns g.board.num_rows
                  g.current_player)
                _ (regame-IsSeating r true (some g) _ seating));
          phase = inr (fresh-IsPlaying started_room.lobby refl refl refl refl);
        };
      },
    )

    -- During a game, none is.
    replaces :
        r.lobby.is_playing_game ≡ true
        → (r' : Room) × (start_game (fresh_room r g) ≡ ok r') × IsStarted first r g r'
    unfolding start_game
    replaces playing = (
      fresh_room r g,
      rw (seating.opened, playing),
      record {
        full = full;
        made = made;
        fresh = fresh;
        lobby = ap (λ b. record ((fresh_room r g).lobby) { is_playing_game = b }) playing;
        turn = turn;
        untold = λ _. refl;
        told = λ idle. absurd (false≢true (sym idle ∙ playing));
        inv = record {
          seating = regame-IsSeating r r.lobby.is_playing_game (some g) _ seating;
          phase = inr (fresh-IsPlaying (fresh_room r g).lobby playing refl refl refl);
        };
      },
    )

    begins : (r' : Room) × (start_game (fresh_room r g) ≡ ok r') × IsStarted first r g r'
    begins = elim i.phase [ inl p ↦ starts p.idle | inr p ↦ replaces p.playing ]

  pub begin_lem :
      (g : FourAcross) × (r' : Room) × (begin first (counted r) ≡ ok r') × IsStarted first r g r'
  unfolding begin
  begin_lem =
      let (g, e, fresh) =
        (new-IsStart r.lobby.max_players first min_columns min_rows (omega arith)).0 (omega arith)
          (omega arith) (omega arith) in
      let begun = begins g fresh e in (g, begun.0, rw e begun.1, begun.2)

-- The lobby starts a game at this `ready`: the clients counted are as many as the seats, all taken.
abbrev pub IsComplete : Room → Type 0
IsComplete r =
    (u8 (r.lobby.num_ready + 1) ≡ r.lobby.num_players) × (r.lobby.num_players ≡ r.lobby.max_players)

incomplete :
    (r : Room)
    → ¬ IsComplete r
    → (all_players_are_ready (counted r).lobby && is_full (counted r).lobby) ≡ false
incomplete r waiting = elim (Bool-cases (u8 (r.lobby.num_ready + 1) == r.lobby.num_players)) [
  | inl ready ↦
      let short =
        ne→== r.lobby.num_players r.lobby.max_players (λ h. waiting (==→eq _ _ ready, h)) in
      rw (ready, short)
  | inr short ↦ rw short
]

-- What `onReady` does in a well-formed lobby, with a first player that the random distribution may
-- give. A connection whose id nobody in the lobby has changes nothing. One that sits in a seat is
-- counted as ready, even if it is so already, and the lobby stays well formed. If the clients
-- counted are then as many as the players, and the lobby is full, a new game of the lobby's players
-- is there, whose first player is the one given; if none was played before, each subscriber is told
-- that it starts, and then whose turn it is. If not, nothing else changes.
pub on_ready_lem :
    (first c : ℕ) (r : Room)
    → Inv r
    → 1 ≤ first
    → first ≤ r.lobby.max_players
    → (((t e : ℕ) → get_elem? r.lobby.players t ≡ some (some e) → id_of r.conns e ≢ id_of r.conns c)
        → on_ready first c r ≡ ok r)
      × ((s : ℕ)
          → get_elem? r.lobby.players s ≡ some (some c)
          → (¬ IsComplete r → (on_ready first c r ≡ ok (counted r)) × Inv (counted r))
            × (IsComplete r
                → (g : FourAcross) × (r' : Room) × (on_ready first c r ≡ ok r')
                  × IsStarted first r g r'))
unfolding on_ready
on_ready_lem first c r i low high = (
  λ stranger. elim (Option-cases (find_player r.conns r.lobby.players c)) [
    | inl unseen ↦ rw (on_ready, unseen)
    | inr ((s, d), found) ↦
        let (seat, same) = find_player_lem r.conns r.lobby.players c found in
        absurd (stranger s d seat same)
  ],
  λ s seat.
      let mine = i.seating.seated s c seat in
      let found : find_player r.conns r.lobby.players c ≡ some (s, c) =
        find_player-seat r.conns r.lobby.players c s c seat refl
          (λ t e at same. omega (arith, i.seating.seated t e at, mine, same)) in
      (
        λ waiting.
            let guard : (all_players_are_ready (counted r).lobby && is_full (counted r).lobby)
                ≡ false =
              incomplete r waiting in
            (rw (on_ready, found, guard), counted-Inv r i),
        λ complete.
            let (g, r', e, started) = begin_lem first r i low high complete.1 in
            (g, r', rw (on_ready, found, eq→== _ _ complete.0, eq→== _ _ complete.1) e, started),
      ),
)
