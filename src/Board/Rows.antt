-- ===== src/Board/Rows.antt =====
-- `getRow`, `getColumn`, `getDiskOwnerAt` and `getColumnHeight` read the same grid.
use connectdisks.Prelude.{
  ℕ, zero, suc, ◌≤◌, ◌<◌, ◌≡◌, ◌≢◌, ◌∙◌, ap, refl, sym, List, [], ◌∷◌, ok, err, out_of_range, arith,
  lt→ltb, length, index, index_lem, get_or,
}
use connectdisks.Board.{Board, copy_row, get_row, get_column, get_column_height, get_disk_owner_at}
use connectdisks.Board.Cells.{
  IsValid, owner, height, slots, get_disk_owner_at-owner, get_column-slots,
  get_column_height-height, index-slots,
}

-- The row that `copy_row` copies, slot by slot.
record IsRow (columns : List (List ℕ)) (row : ℕ) : Type 0 where
  copy : List ℕ
  returns : copy_row columns row ≡ ok copy
  size : length copy ≡ length columns
  slot : (c : ℕ) → c < length columns → get_or copy c 0 ≡ get_or (get_or columns c []) row 0

copy_row_lem :
    (columns : List (List ℕ)) (row : ℕ)
    → ((c : ℕ) → c < length columns → row < length (get_or columns c []))
    → IsRow columns row
unfolding copy_row
copy_row_lem [] row h = record { copy = []; returns = refl; size = refl; slot = λ c l. refl }
copy_row_lem (column ∷ columns) row h =
    let rest = copy_row_lem columns row (λ c l. h (suc c) (omega arith)) in
    record {
      copy = get_or column row 0 ∷ rest.copy;
      returns = rw (index_lem column row 0 (h 0 (omega arith)), rest.returns);
      size = ap suc rest.size;
      slot = elim [ zero ↦ λ l. refl | suc c ↦ λ l. rest.slot c (omega arith) ];
    }

-- On a well-formed board `getRow` of a row of the board returns a copy with one slot for each
-- column, and the slot at a column is what `getDiskOwnerAt` says of that column and row; in any
-- other row both throw `out_of_range`.
pub get_row_lem :
    (b : Board) (row : ℕ)
    → IsValid b
    → (row < b.num_rows
        → (copy : List ℕ) × (get_row b row ≡ ok copy)
          × (length copy ≡ b.num_columns)
          × ((c : ℕ) → c < b.num_columns → get_or copy c 0 ≡ owner b c row)
          × ((c : ℕ) → c < b.num_columns → index copy c ≡ get_disk_owner_at b c row))
      × (b.num_rows ≤ row
          → (get_row b row ≡ err out_of_range)
            × ((c : ℕ) → get_disk_owner_at b c row ≡ err out_of_range))
unfolding get_row get_disk_owner_at owner
get_row_lem b row v = (
  λ inside.
      let r = copy_row_lem b.columns row (λ c l.
        let k : c < b.num_columns = omega (arith, v.columns_size) in
        omega (arith, v.slots_size c k)) in
      let size = r.size ∙ v.columns_size in
      let at : (c : ℕ) → c < b.num_columns → get_or r.copy c 0 ≡ get_or (slots b c) row 0 =
        λ c h. r.slot c (omega (arith, v.columns_size)) in
      (
        r.copy,
        rw (lt→ltb _ _ inside) r.returns,
        size,
        at,
        λ c h.
            index_lem r.copy c 0 (omega arith)
            ∙ ap ok (at c h)
            ∙ sym (get_disk_owner_at-owner b v c row h inside),
      ),
  λ off. (ground arith, λ c. ground arith),
)

-- On a well-formed board the three queries of a column throw `out_of_range` for a column that is
-- not on the board; for any other, `getColumn` views `numRows` slots, those of `getDiskOwnerAt`,
-- and `getColumnHeight` is the number of owned slots at the bottom: the slots below it are owned
-- and the others are empty.
pub get_column_lem :
    (b : Board) (column : ℕ)
    → IsValid b
    → (b.num_columns ≤ column
        → (get_column b column ≡ err out_of_range)
          × (get_column_height b column ≡ err out_of_range)
          × ((r : ℕ) → get_disk_owner_at b column r ≡ err out_of_range))
      × (column < b.num_columns
          → (view : List ℕ) × (h : ℕ) × (get_column b column ≡ ok view)
            × (get_column_height b column ≡ ok h)
            × (length view ≡ b.num_rows)
            × (h ≤ b.num_rows)
            × ((r : ℕ) → r < b.num_rows → index view r ≡ get_disk_owner_at b column r)
            × ((r : ℕ) → r < h → get_or view r 0 ≢ 0)
            × ((r : ℕ) → h ≤ r → get_or view r 0 ≡ 0))
unfolding get_column get_column_height get_disk_owner_at owner
get_column_lem b column v = (
  λ off. (ground arith, ground arith, λ r. ground arith),
  λ inside. (
    slots b column,
    height b column,
    get_column-slots b v column inside,
    get_column_height-height b v column inside,
    v.slots_size column inside,
    v.within column,
    λ r h. index-slots b v column r inside h ∙ sym (get_disk_owner_at-owner b v column r inside h),
    v.filled column,
    v.vacant column,
  ),
)
