-- ===== src/Board/Tests.antt =====
-- Runs on small boards, and the theorems at concrete inputs.
use connectdisks.Prelude.{
  ℕ, ◌*◌, ◌≤◌, ◌<◌, ◌≡◌, ◌≢◌, ◌↔◌, refl, ap, sym, subst, ◌∙◌, Result, Bool, true, false, [], ◌∷◌,
  List, ◌++◌, Text, codes, numbers, decimal, out_of_range, ok, err, invalid_argument, arith, index,
  write, get_or, length, ◌==◌,
}
use connectdisks.Board.{
  Board, fresh, new, place, drop_piece_in_column, is_full, is_column_full, get_row,
  get_disk_owner_at, get_column, get_column_height, move_new, move_assign,
}
use connectdisks.Board.Cells.{IsValid, owner, height, pieces, new-IsValid, fresh-IsValid}
use connectdisks.Board.Drop.{IsDrop, drop_piece_in_column_lem}
use connectdisks.Board.Full.{IsFull, is_full_lem, is_column_full_lem, IsFull-iff-pieces}
use connectdisks.Board.Rows.{get_row_lem, get_column_lem}
use connectdisks.Board.Print.{to_string, to_string_lem, owners_down}
use connectdisks.Board.Move.{IsUnusable, move_lem}

-- Column 3 has one piece of player 2.
abbrev one_piece : Board
one_piece = record {
  num_columns = 5;
  num_rows = 4;
  columns =
      (0 ∷ 0 ∷ 0 ∷ 0 ∷ [])
      ∷ (0 ∷ 0 ∷ 0 ∷ 0 ∷ [])
      ∷ (0 ∷ 0 ∷ 0 ∷ 0 ∷ [])
      ∷ (2 ∷ 0 ∷ 0 ∷ 0 ∷ [])
      ∷ (0 ∷ 0 ∷ 0 ∷ 0 ∷ [])
      ∷ [];
  row_indices = 0 ∷ 0 ∷ 0 ∷ 1 ∷ 0 ∷ [];
}

dropped_once : drop_piece_in_column (fresh 5 4) 3 2 ≡ ok (one_piece, true)
unfolding drop_piece_in_column place index write
dropped_once = refl

not_full : is_full one_piece ≡ ok false
unfolding is_full index
not_full = refl

bottom_row : get_row one_piece 0 ≡ ok (0 ∷ 0 ∷ 0 ∷ 2 ∷ 0 ∷ [])
unfolding get_row index
bottom_row = refl

too_low : new 7 3 ≡ err invalid_argument
unfolding new
too_low = refl

one_piece-IsDrop : IsDrop (fresh 5 4) 3 2 one_piece
unfolding height
one_piece-IsDrop =
    let v = fresh-IsValid 5 4 (omega arith) (omega arith) in
    let (b, e, d) =
      (drop_piece_in_column_lem (fresh 5 4) 3 2 v (omega arith)).2 (omega arith) (omega arith) in
    let same : b ≡ one_piece = ap board_of (sym e ∙ dropped_once) in
    subst (IsDrop (fresh 5 4) 3 2) same d
  where
    board_of : Result (Board × Bool) → Board
    board_of (ok (b, _)) = b
    board_of (err _) = one_piece

one_piece-IsValid : IsValid one_piece
one_piece-IsValid = one_piece-IsDrop.valid

new-IsValid_example :
    (b : Board) × (new 7 6 ≡ ok b)
    × IsValid b
    × (b.num_columns ≡ 7)
    × (b.num_rows ≡ 6)
    × (pieces b ≡ 0)
    × ((c r : ℕ) → owner b c r ≡ 0)
new-IsValid_example = (new-IsValid 7 6 (omega arith)).0 (omega arith) (omega arith) (omega arith)

drop_piece_in_column_example :
    (b : Board) × (drop_piece_in_column one_piece 3 1 ≡ ok (b, true)) × IsDrop one_piece 3 1 b
unfolding height
drop_piece_in_column_example =
    (drop_piece_in_column_lem one_piece 3 1 one_piece-IsValid (omega arith)).2 (omega arith)
      (omega arith)

is_full_example :
    (answer : Bool) × (is_full one_piece ≡ ok answer)
    × ((answer ≡ true) ↔ IsFull one_piece)
    × ((answer ≡ false) ↔ ((c : ℕ) × (c < 5) × (height one_piece c < 4)))
is_full_example = is_full_lem one_piece one_piece-IsValid

is_column_full_example : is_column_full one_piece 3 ≡ ok (height one_piece 3 == 4)
is_column_full_example = (is_column_full_lem one_piece 3 one_piece-IsValid).1 (omega arith)

IsFull-iff-pieces_example : IsFull one_piece ↔ (pieces one_piece ≡ 5 * 4)
IsFull-iff-pieces_example = IsFull-iff-pieces one_piece one_piece-IsValid

get_row_example :
    (copy : List ℕ) × (get_row one_piece 0 ≡ ok copy)
    × (length copy ≡ 5)
    × ((c : ℕ) → c < 5 → get_or copy c 0 ≡ owner one_piece c 0)
    × ((c : ℕ) → c < 5 → index copy c ≡ get_disk_owner_at one_piece c 0)
get_row_example = (get_row_lem one_piece 0 one_piece-IsValid).0 (omega arith)

get_column_example :
    (view : List ℕ) × (h : ℕ) × (get_column one_piece 3 ≡ ok view)
    × (get_column_height one_piece 3 ≡ ok h)
    × (length view ≡ 4)
    × (h ≤ 4)
    × ((r : ℕ) → r < 4 → index view r ≡ get_disk_owner_at one_piece 3 r)
    × ((r : ℕ) → r < h → get_or view r 0 ≢ 0)
    × ((r : ℕ) → h ≤ r → get_or view r 0 ≡ 0)
get_column_example = (get_column_lem one_piece 3 one_piece-IsValid).1 (omega arith)

move_example :
    ((move_new one_piece).0 ≡ one_piece)
    × ((move_assign (fresh 7 6) one_piece).0 ≡ one_piece)
    × ((move_assign (fresh 7 6) one_piece).1 ≡ (move_new one_piece).1)
    × IsUnusable (move_new one_piece).1
    × (is_full (move_new one_piece).1 ≡ ok true)
move_example = move_lem (fresh 7 6) one_piece

printed :
    to_string one_piece
    ≡ ok (
        codes
          " 0 | 0 | 0 | 0 | 0\n-------------------\n 0 | 0 | 0 | 0 | 0\n-------------------\n 0 | 0 | 0 | 0 | 0\n-------------------\n 0 | 0 | 0 | 2 | 0\n")
unfolding to_string get_row index decimal
printed = refl

to_string_example :
    (1 ≤ one_piece.num_rows
      → (t : Text) × (to_string one_piece ≡ ok t)
        × ((rest : Text) → numbers (t ++ rest) ≡ owners_down one_piece 4 ++ numbers rest))
    × (one_piece.num_rows ≡ 0 → to_string one_piece ≡ err out_of_range)
to_string_example = to_string_lem one_piece one_piece-IsValid
