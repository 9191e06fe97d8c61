-- ===== src/Lines.antt =====
-- The loops of `FourAcross::checkForWinner` in game/src/game.cpp, and the four checks that they make
-- up: along the column, the row and the two diagonals of the last move. `Game` has the function
-- itself; what a line of four is, and the proofs, are in the modules below.
pub mod Four
pub mod Scan
mod Window
pub mod Checks
use package.connectdisks.Prelude.{
  ℕ, zero, suc, ◌+◌, Bool, true, false, not, ◌&&◌, ltb, ◌==◌, if◌then◌else◌, Result, ok, err, stuck,
  ◌>>=◌, index, u8, u8_pred, u8_max,
}
use package.connectdisks.Board
use package.connectdisks.Board.{Board}

-- How a loop of `checkForWinner` changes one `uint8_t` coordinate: not at all, `++x`, `--x`.
pub data Motion : Type 0 where
  still up down : Motion

abbrev pub advance : Motion → ℕ → ℕ
advance still x = x
advance up x = u8 (x + 1)
advance down x = u8_pred x

-- The loop's condition on that coordinate: none, `x < limit`, `x != static_cast<uint8_t>(-1)`.
abbrev pub goes_on : Motion → ℕ → ℕ → Bool
goes_on still limit x = true
goes_on up limit x = ltb x limit
goes_on down limit x = not (x == u8_max)

-- A loop returns the last player from the function when its chain has four pieces, or ends with
-- the length of the chain.
pub data Chain : Type 0 where
  four : Chain
  chain : ℕ → Chain

module _ (b : Board) (read : ℕ → ℕ → Result ℕ) (player : ℕ) (mc mr : Motion) where
  -- The eight loops of `checkForWinner` are this one, at the motions of the column and the row and
  -- at the way that the loop reads a slot. `count` is at least 1, so three rounds are enough.
  pub scan : ℕ → ℕ → ℕ → ℕ → Result Chain
  scan zero col row count = err stuck
  scan (suc fuel) col row count =
      let rest = scan fuel (advance mc col) (advance mr row) (count + 1) in
      let counted = if count + 1 == 4 then ok four else rest in
      if goes_on mr b.num_rows row && goes_on mc b.num_columns col
      then (read col row >>= λ current. if current == player then counted else ok (chain count))
      else ok (chain count)

  -- The loop from the slot next to the last move.
  pub scan_from : ℕ × ℕ → ℕ → Result Chain
  unfolding scan
  scan_from (last_column, last_row) count =
      scan 3 (advance mc last_column) (advance mr last_row) count

-- Two loops on either side of the last move; the second goes on with the count of the first.
pub either_side : (ℕ → Result Chain) → (ℕ → Result Chain) → Result Bool
either_side forward backward = forward 1 >>= λ a. elim a [
  | four ↦ ok true
  | chain count ↦ backward count >>= λ c. elim c [ four ↦ ok true | chain _ ↦ ok false ]
]

-- `column` is a `ColumnView`: an unchecked read.
unfoldable pub check_column : Board → ℕ → ℕ × ℕ → Result Bool
unfolding scan_from either_side
check_column b player last = do
  column ← Board.get_column b last.0
  let read = λ (c r : ℕ). index column r
  either_side (scan_from b read player still up last) (scan_from b read player still down last)

-- `row` is a copy of the row: an unchecked read.
unfoldable pub check_row : Board → ℕ → ℕ × ℕ → Result Bool
unfolding scan_from either_side
check_row b player last = do
  row ← Board.get_row b last.1
  let read = λ (c r : ℕ). index row c
  either_side (scan_from b read player up still last) (scan_from b read player down still last)

-- Up-right, then down-left.
unfoldable pub check_rising : Board → ℕ → ℕ × ℕ → Result Bool
unfolding scan_from either_side
check_rising b player last =
    let read = Board.get_disk_owner_at b in
    either_side (scan_from b read player up up last) (scan_from b read player down down last)

-- Up-left, then down-right.
unfoldable pub check_falling : Board → ℕ → ℕ × ℕ → Result Bool
unfolding scan_from either_side
check_falling b player last =
    let read = Board.get_disk_owner_at b in
    either_side (scan_from b read player down up last) (scan_from b read player up down last)
