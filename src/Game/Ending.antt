-- ===== src/Game/Ending.antt =====
-- How a game begins, goes on and ends.
use connectdisks.Prelude.{
  ℕ, ◌+◌, ◌-◌, ◌*◌, ◌%◌, ◌≤◌, ◌<◌, ◌≡◌, ◌≢◌, ◌⊎◌, ◌↔◌, ◌∙◌, refl, sym, ap, subst, inl, inr, List,
  [], ◌∷◌, false, ok, arith, ◌==◌, ◌||◌, leb, Bool-cases, eq→==, ne→==, ltb,
}
use connectdisks.Board.Cells.{pieces, pieces-le}
use connectdisks.Board.Full.{IsFull, is_full_lem, IsFull-iff-pieces}
use connectdisks.Game.{FourAcross, new, no_winner, take_turn, board_full}
use connectdisks.Lines.Four.{HasFour}
use connectdisks.Game.Players.{IsStart, new-IsStart}
use connectdisks.Game.Turn.{Inv, IsTurn, Succeeds, take_turn_lem}
use connectdisks.Game.Play.{play, Returns, take_turn-Returns, play-IsPlayed}

pub IsStart-Inv :
    (num_players first_player nc nr : ℕ) (g : FourAcross)
    → num_players < 256
    → IsStart num_players first_player nc nr g
    → Inv g
IsStart-Inv np fp nc nr g small s = record {
  valid = s.valid;
  players = ground (arith, s.players);
  in_turn = s.in_turn;
  owners = λ c r. omega (arith, s.unowned c r);
  counted = s.no_turns ∙ sym s.no_pieces;
  decided = λ p owned. (
    λ (d, (c, r), f). absurd (owned (sym f.0 ∙ s.unowned _ _)),
    λ e. absurd (owned (sym e ∙ s.unwon)),
  );
}

pub IsStart-of_new :
    (np fp nc nr : ℕ) (g : FourAcross) → nc < 256 → new np fp nc nr ≡ ok g → IsStart np fp nc nr g
IsStart-of_new np fp nc nr g small e =
    let l = new-IsStart np fp nc nr small in
    elim (Bool-cases (ltb nc 5 || ltb nr 4 || leb nc nr)) [
      | inl bad ↦ let r = l.1 (ground arith) in absurd (cc)
      | inr good ↦
          let (g0, e0, s) = l.0 (ground arith) (ground arith) (ground arith) in
          subst (IsStart np fp nc nr) (cc) s
    ]

-- Calls of `takeTurn` in any number, by any players and in any columns, on a game that the
-- constructor made: none of them throws. The size of the board and the number of players stay; the
-- turns are the pieces on the board, and never more than its slots; with `k` turns taken it is the
-- turn of the player `k` places after the first; and there is a winner exactly if some player has
-- four in a line on the board, and it is that player.
pub play_lem :
    (num_players first_player nc nr : ℕ) (g : FourAcross) (moves : List (ℕ × ℕ))
    → num_players < 256
    → nc < 256
    → new num_players first_player nc nr ≡ ok g
    → (g' : FourAcross) × (play g moves ≡ ok g')
      × (g'.board.num_columns ≡ nc)
      × (g'.board.num_rows ≡ nr)
      × (g'.num_players ≡ g.num_players)
      × (g'.num_turns ≡ pieces g'.board)
      × (g'.num_turns ≤ nc * nr)
      × (g'.current_player ≡ (g.current_player - 1 + g'.num_turns) % g.num_players + 1)
      × ((p : ℕ) → p ≢ no_winner → HasFour g'.board p ↔ (g'.winner ≡ p))
play_lem np fp nc nr g moves small wide e =
    let s = IsStart-of_new np fp nc nr g wide e in
    let (g', returns, p) = play-IsPlayed moves g (IsStart-Inv np fp nc nr g small s) in
    let columns = p.columns ∙ s.columns in
    let rows = p.rows ∙ s.rows in
    let fits : pieces g'.board ≤ nc * nr =
      subst (λ x. pieces g'.board ≤ x * nr) columns
        (subst (λ y. pieces g'.board ≤ g'.board.num_columns * y) rows
          (pieces-le g'.board p.inv.valid)) in
    let since : g'.num_turns - g.num_turns ≡ g'.num_turns = omega (arith, s.no_turns) in
    let order = p.order ∙ ap (λ (x : ℕ). (g.current_player - 1 + x) % g.num_players) since in
    (
      g',
      returns,
      columns,
      rows,
      p.players,
      p.inv.counted,
      omega (arith, p.inv.counted, fits),
      omega (arith, order, p.inv.in_turn),
      p.inv.decided,
    )

-- `boardFull` says whether there have been as many turns as the board has slots.
pub board_full_lem :
    (g : FourAcross)
    → Inv g
    → board_full g ≡ ok (g.num_turns == g.board.num_columns * g.board.num_rows)
unfolding board_full
board_full_lem g i =
    let (answer, e, full, _) = is_full_lem g.board i.valid in
    let count = IsFull-iff-pieces g.board i.valid in
    e
    ∙ ap ok (elim (Bool-cases answer) [
      | inl t ↦ t ∙ sym (eq→== _ _ (i.counted ∙ count.0 (full.0 t)))
      | inr f ↦
          f
          ∙ sym (ne→== _ _ (λ same. let t = full.1 (count.1 (sym i.counted ∙ same)) in absurd (cc)))
    ])

-- A turn needs an open game.
not-IsTurn :
    (g : FourAcross) (player column : ℕ)
    → Inv g
    → (g.winner ≢ no_winner) ⊎ IsFull g.board
    → (r : Returns g column (take_turn g player column)) → ¬ IsTurn g column r.after
not-IsTurn g player column i (inl won) r t =
    let e = sym r.returns ∙ (take_turn_lem g player column i).0 won in
    let same : r.after ≡ g = cc in
    let more = t.turns in omega (arith, ap (λ (h : FourAcross). h.num_turns) same)
not-IsTurn g player column i (inr full) r t =
    let count = (IsFull-iff-pieces g.board i.valid).0 full in
    let fits = pieces-le r.after.board r.inv.valid in
    let area : r.after.board.num_columns * r.after.board.num_rows
        ≡ g.board.num_columns * g.board.num_rows =
      ground (arith, t.dropped.same_columns, t.dropped.same_rows) in
    omega (arith, t.dropped.one_more)

-- Once there is a winner or the board is full, no further calls change the game.
pub play_over :
    (moves : List (ℕ × ℕ)) (g : FourAcross)
    → Inv g
    → (g.winner ≢ no_winner) ⊎ IsFull g.board
    → play g moves ≡ ok g
unfolding play
play_over [] g i over = refl
play_over ((player, column) ∷ rest) g i over =
    let r = take_turn-Returns g player column i in
    let e : r.after ≡ g = elim r.effect [
      | inl same ↦ same
      | inr t ↦ absurd (not-IsTurn g player column i over r t)
    ] in
    rw (r.returns, play, e) (play_over rest g i over)

-- While there is no winner and `boardFull` is false the game goes on: the player whose turn it is has a column where the turn succeeds.
pub play_goes_on :
    (g : FourAcross)
    → Inv g
    → g.winner ≡ no_winner
    → board_full g ≡ ok false
    → (column : ℕ) × (column < g.board.num_columns)
      × Succeeds g column (take_turn g g.current_player column)
unfolding board_full
play_goes_on g i unwon room =
    let (answer, e, _, some_room) = is_full_lem g.board i.valid in
    let (column, inside, low) = some_room.0 (cc) in
    (column, inside, (take_turn_lem g g.current_player column i).4 unwon refl inside low)
