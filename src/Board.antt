-- ===== src/Board.antt =====
-- game/src/board.cpp and include/four-across/game/board.hpp: the board of a Four-Across game.
-- Every member function of `Board` is here, under its own name, but the conversion to a string in `Print`; the
-- laws are in the modules below.
pub mod Cells
pub mod Drop
pub mod Full
pub mod Rows
pub mod Move
pub mod Print
mod Tests
use package.connectdisks.Prelude.{
  ℕ, zero, suc, ◌+◌, Bool, true, false, ◌&&◌, ◌||◌, List, [], ◌∷◌, ltb, ◌==◌, if◌then◌else◌,
  replicate, Result, ok, err, invalid_argument, out_of_range, stuck, ◌>>=◌, index, write, u8,
}

-- `uint8_t` and `std::vector<uint8_t>` are numbers and lists of numbers.
pub record Board : Type 0 where
  pub num_columns : ℕ
  pub num_rows : ℕ
  pub columns : List (List ℕ)
  pub row_indices : List ℕ

-- Nonplayer value of grid slots.
abbrev pub empty_slot : ℕ
empty_slot = 0

abbrev pub min_columns : ℕ
min_columns = 5

abbrev pub min_rows : ℕ
min_rows = 4

-- `resize` of an empty vector fills it with zeros.
abbrev pub fresh : ℕ → ℕ → Board
fresh num_columns num_rows = record {
  num_columns = num_columns;
  num_rows = num_rows;
  columns = replicate num_columns (replicate num_rows empty_slot);
  row_indices = replicate num_columns 0;
}

-- The constructor. `numColumns - numRows < 1` is a subtraction of `int`s, so it says
-- `numColumns < numRows + 1`.
unfoldable pub new : ℕ → ℕ → Result Board
new num_columns num_rows =
    if ltb num_columns min_columns || ltb num_rows min_rows || ltb num_columns (num_rows + 1)
    then err invalid_argument
    else ok (fresh num_columns num_rows)

-- `isColumnInRange` and `isRowInRange`; `column >= 0` holds of every `uint8_t`.
abbrev pub is_column_in_range : Board → ℕ → Bool
is_column_in_range b column = ltb column b.num_columns

abbrev pub is_row_in_range : Board → ℕ → Bool
is_row_in_range b row = ltb row b.num_rows

pub is_column_full_internal : Board → ℕ → Result Bool
is_column_full_internal b column = do height ← index b.row_indices column; ok (height == b.num_rows)

-- The loop of `isFull` from column `i`, a `uint8_t`.
pub is_full_from : Board → ℕ → ℕ → Result Bool
unfolding is_column_full_internal
is_full_from b zero i = err stuck
is_full_from b (suc fuel) i =
    let rest = is_full_from b fuel (u8 (i + 1)) in
    if ltb i b.num_columns
    then (is_column_full_internal b i >>= λ full. if full then rest else ok false)
    else ok true

-- At most 255 columns, and one more round that ends the loop.
unfoldable pub is_full : Board → Result Bool
unfolding is_full_from
is_full b = is_full_from b 256 0

pub is_column_full : Board → ℕ → Result Bool
unfolding is_column_full_internal
is_column_full b column =
    if is_column_in_range b column then is_column_full_internal b column else err out_of_range

-- `columns[column][rowIndices[column]++] = playerNum`.
unfoldable pub place : Board → ℕ → ℕ → Result Board
place b column player = do
  height ← index b.row_indices column
  slots ← index b.columns column
  slots' ← write slots height player
  columns' ← write b.columns column slots'
  row_indices' ← write b.row_indices column (u8 (height + 1))
  ok (record b { columns = columns'; row_indices = row_indices' })

-- The board after the call, and the result of the call.
unfoldable pub drop_piece_in_column : Board → ℕ → ℕ → Result (Board × Bool)
unfolding is_column_full_internal
drop_piece_in_column b column player =
    if is_column_in_range b column
    then (do
      full ← is_column_full_internal b column
      if full then ok (b, false) else (place b column player >>= λ b'. ok (b', true)))
    else err out_of_range

unfoldable pub get_disk_owner_at : Board → ℕ → ℕ → Result ℕ
get_disk_owner_at b column row =
    if is_column_in_range b column && is_row_in_range b row
    then (do slots ← index b.columns column; index slots row)
    else err out_of_range

-- A `ColumnView` refers to the column; `view[i]` is `index` of it.
unfoldable pub get_column : Board → ℕ → Result (List ℕ)
get_column b column =
    if is_column_in_range b column then index b.columns column else err out_of_range

unfoldable pub get_column_height : Board → ℕ → Result ℕ
get_column_height b column =
    if is_column_in_range b column then index b.row_indices column else err out_of_range

-- The loop of `getRow` over the columns.
pub copy_row : List (List ℕ) → ℕ → Result (List ℕ)
copy_row [] row = ok []
copy_row (column ∷ columns) row = do
  slot ← index column row
  slots ← copy_row columns row
  ok (slot ∷ slots)

-- A `Column` owns a copy of the row; `copy[i]` is `index` of it.
unfoldable pub get_row : Board → ℕ → Result (List ℕ)
unfolding copy_row
get_row b row = if is_row_in_range b row then copy_row b.columns row else err out_of_range

-- The move constructor: the new board, and the argument after it. A moved-from vector is empty.
pub move_new : Board → Board × Board
move_new b = (
  record {
    num_columns = b.num_columns;
    num_rows = b.num_rows;
    columns = b.columns;
    row_indices = b.row_indices;
  },
  record b { num_columns = 0; num_rows = 0; columns = []; row_indices = [] },
)

-- Move assignment between two distinct boards: the target and the argument after it.
pub move_assign : Board → Board → Board × Board
move_assign target b = (
  record target {
    num_columns = b.num_columns;
    num_rows = b.num_rows;
    columns = b.columns;
    row_indices = b.row_indices;
  },
  record b { num_columns = 0; num_rows = 0; columns = []; row_indices = [] },
)
