-- ===== src/Game/Turn.antt =====
-- `takeTurn`: every branch, and the invariant of a game that it keeps.
use connectdisks.Prelude.{
  ℕ, ◌+◌, ◌*◌, ◌≤◌, ◌<◌, ◌≡◌, ◌≢◌, ◌⊎◌, ◌↔◌, ◌∙◌, refl, sym, ap, inl, inr, ok, arith, ◌==◌,
  Bool-cases, u8_pred, u32,
}
use connectdisks.Board.{Board, drop_piece_in_column}
use connectdisks.Board.Cells.{IsValid, owner, height, pieces, pieces-le, get_column_height-height}
use connectdisks.Board.Drop.{IsDrop, drop_piece_in_column_lem}
use connectdisks.Game.{
  FourAcross, Outcome, returned, success, wrong_player, bad_column, column_full, game_finished,
  no_winner, get_next_player, take_turn, after_drop, finish_turn, settle_at, settle, count_turn,
}
use connectdisks.Lines.Four.{Direction, along, IsFour, HasFour, Owns, Through, Through-Owns}
use connectdisks.Game.Winner.{check_for_winner-Verdict}
use connectdisks.Game.Players.{get_next_player_lem}

-- The invariant of a game: the board is well formed, the ids are those of players, the turns are
-- the pieces, and the winner is the player, if any, who has four in a line anywhere on the board.
pub record Inv (g : FourAcross) : Type 0 where
  pub valid : IsValid g.board
  pub players : g.num_players < 256
  pub in_turn : (1 ≤ g.current_player) × (g.current_player ≤ g.num_players)
  pub owners : (c r : ℕ) → owner g.board c r ≤ g.num_players
  pub counted : g.num_turns ≡ pieces g.board
  pub decided : (p : ℕ) → p ≢ 0 → HasFour g.board p ↔ (g.winner ≡ p)

-- `g'` is `g` after a turn of the player whose turn it was.
pub record IsTurn (g : FourAcross) (column : ℕ) (g' : FourAcross) : Type 0 where
  pub dropped : IsDrop g.board column g.current_player g'.board
  pub same_players : g'.num_players ≡ g.num_players
  pub next : g'.current_player ≡ get_next_player g
  pub turns : g'.num_turns ≡ g.num_turns + 1
  pub last : g'.last_move ≡ (column, height g.board column)

module _ (b b' : Board) (column player : ℕ) (drop : IsDrop b column player b') where
  abbrev slot : ℕ × ℕ
  slot = (column, height b column)

  slot_or_old : (q : ℕ) (p : ℕ × ℕ) → Owns b' q p → (p ≡ slot) ⊎ Owns b q p
  slot_or_old q (c, r) h = elim (Bool-cases (c == column)) [
    | inl ec ↦ elim (Bool-cases (r == height b column)) [
      | inl er ↦ inl (ground arith)
      | inr nr ↦ inr (ground (arith, drop.owners c r))
    ]
    | inr nc ↦ inr (ground (arith, drop.owners c r))
  ]

  slot_owned : owner b' column (height b column) ≡ player
  slot_owned = ground (arith, drop.owners column (height b column))

  -- A line of four goes through the new piece, or was there before.
  new_or_old :
      (q : ℕ) (d : Direction) (start : ℕ × ℕ)
      → IsFour b' q d start
      → Through b' q slot d ⊎ IsFour b q d start
  new_or_old q d start f = elim (slot_or_old q (along d start 0) f.0) [
    | inl e ↦ inl (start, 0, omega arith, e, f)
    | inr f0 ↦ elim (slot_or_old q (along d start 1) f.1) [
      | inl e ↦ inl (start, 1, omega arith, e, f)
      | inr f1 ↦ elim (slot_or_old q (along d start 2) f.2) [
        | inl e ↦ inl (start, 2, omega arith, e, f)
        | inr f2 ↦ elim (slot_or_old q (along d start 3) f.3) [
          | inl e ↦ inl (start, 3, omega arith, e, f)
          | inr f3 ↦ inr (f0, f1, f2, f3)
        ]
      ]
    ]
  ]

  -- With no four before the piece, the verdict on the lines through it is that on the whole board.
  decided_after :
      ((q : ℕ) → q ≢ 0 → ¬ HasFour b q)
      → (w : ℕ)
      → (w ≡ player) × ((d : Direction) × Through b' player slot d)
        ⊎ (w ≡ no_winner) × ((d : Direction) → ¬ Through b' player slot d)
      → (q : ℕ) → q ≢ 0
      → HasFour b' q ↔ (w ≡ q)
  decided_after before w (inl (e, (d, (start, k, h, at, f)))) q owned = (
    λ (d', start', f'). elim (new_or_old q d' start' f') [
      | inl line ↦ e ∙ sym slot_owned ∙ Through-Owns b' q slot d' line
      | inr old ↦ absurd (before q owned (d', start', old))
    ],
    λ same. rw (sym same ∙ e) (d, start, f),
  )
  decided_after before w (inr (e, none_through)) q owned = (
    λ (d', start', f'). elim (new_or_old q d' start' f') [
      | inl line ↦
          absurd (none_through d' (rw (sym slot_owned ∙ Through-Owns b' q slot d' line) line))
      | inr old ↦ absurd (before q owned (d', start', old))
    ],
    λ same. absurd (owned (sym same ∙ e)),
  )

-- A turn that counts.
pub record Succeeds (g : FourAcross) (column : ℕ) (o : Outcome) : Type 0 where
  pub after : FourAcross
  pub returns : o ≡ returned success after
  pub turn : IsTurn g column after
  pub inv : Inv after

module _ (g : FourAcross) (column : ℕ) (i : Inv g) (unwon : g.winner ≡ no_winner)
    (inside : column < g.board.num_columns) (b' : Board)
    (drop : IsDrop g.board column g.current_player b') where
  counted_game : FourAcross
  counted_game = record g {
    current_player = get_next_player g;
    last_move = (column, height g.board column);
    num_turns = g.num_turns + 1;
    board = b';
  }

  small_board : g.num_turns + 1 < 65536
  small_board =
      let fits = pieces-le b' drop.valid in
      let wide = drop.valid.wide in
      let low = drop.valid.low in
      let area : b'.num_columns * b'.num_rows ≤ 255 * 255 = grind arith in
      omega (arith, i.counted, drop.one_more)

  finish_turn-Succeeds : Succeeds g column (finish_turn (record g { board = b' }) column)
  unfolding finish_turn settle_at settle count_turn counted_game get_next_player
  finish_turn-Succeeds =
      let placed = slot_owned g.board b' column g.current_player drop in
      let v =
        check_for_winner-Verdict counted_game g.current_player drop.valid
          (λ z. absurd (omega (arith, i.in_turn.0))) placed in
      let tall : height b' column ≡ height g.board column + 1 =
        ground (arith, drop.heights column) in
      let read =
        get_column_height-height b' drop.valid column (omega (arith, drop.same_columns))
        ∙ ap ok tall in
      let row : u8_pred (height g.board column + 1) ≡ height g.board column =
        omega (arith, tall, drop.valid.within column, drop.valid.wide, drop.valid.low) in
      let next = get_next_player_lem g i.players i.in_turn.0 i.in_turn.1 in
      let turns : u32 (g.num_turns + 1) ≡ g.num_turns + 1 = omega (arith, small_board) in
      record {
        after = record counted_game { winner = v.answer };
        returns = rw (read, row, turns, v.returns);
        turn = record {
          dropped = drop;
          same_players = refl;
          next = refl;
          turns = refl;
          last = refl;
        };
        inv = record {
          valid = drop.valid;
          players = i.players;
          in_turn = (next.1, next.2);
          owners = λ c r. ground (arith, drop.owners c r, i.owners c r, i.in_turn);
          counted = omega (arith, i.counted, drop.one_more);
          decided =
              decided_after g.board b' column g.current_player drop
                (λ q owned four. owned (sym ((i.decided q owned).0 four) ∙ unwon)) v.answer
                v.correct;
        };
      }

-- What `takeTurn` does in a game that keeps the invariant, for any player and any column. Once
-- there is a winner it is `gameFinished`; else a player whose turn it is not gets `wrongPlayer`, a
-- column that is not on the board is `badColumn`, and a full column is `columnFull`, and in these
-- four cases the game stays as it was. In any other case the result is `success`, the player's piece
-- stands on top of the column, it is the next player's turn, the turn is counted, the last move is
-- the new piece, and the game keeps the invariant.
pub take_turn_lem :
    (g : FourAcross) (player column : ℕ)
    → Inv g
    → (g.winner ≢ no_winner → take_turn g player column ≡ returned game_finished g)
      × (g.winner ≡ no_winner
          → player ≢ g.current_player
          → take_turn g player column ≡ returned wrong_player g)
      × (g.winner ≡ no_winner
          → player ≡ g.current_player
          → g.board.num_columns ≤ column
          → take_turn g player column ≡ returned bad_column g)
      × (g.winner ≡ no_winner
          → player ≡ g.current_player
          → column < g.board.num_columns
          → height g.board column ≡ g.board.num_rows
          → take_turn g player column ≡ returned column_full g)
      × (g.winner ≡ no_winner
          → player ≡ g.current_player
          → column < g.board.num_columns
          → height g.board column < g.board.num_rows
          → Succeeds g column (take_turn g player column))
unfolding take_turn after_drop
take_turn_lem g player column i =
    let owned : g.current_player ≢ 0 = omega (arith, i.in_turn) in
    let d = drop_piece_in_column_lem g.board column g.current_player i.valid owned in
    (
      λ won. ground arith,
      λ unwon other. ground arith,
      λ unwon same off. rw (proceeds unwon same, same, d.0 off),
      λ unwon same on full. rw (proceeds unwon same, same, d.1 on full),
      λ unwon same on room.
          let (b', e, drop) = d.2 on room in
          rw (proceeds unwon same, same, e) (finish_turn-Succeeds g column i unwon on b' drop),
    )
  where
    proceeds :
        g.winner ≡ no_winner
        → player ≡ g.current_player
        → take_turn g player column
          ≡ after_drop g column (drop_piece_in_column g.board column player)
    proceeds unwon same = ground arith
