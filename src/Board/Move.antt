-- ===== src/Board/Move.antt =====
-- The move constructor and move assignment.
use connectdisks.Prelude.{ℕ, ◌≡◌, refl, true, err, ok, out_of_range, arith}
use connectdisks.Board.{
  Board, move_new, move_assign, drop_piece_in_column, is_full, is_column_full, get_disk_owner_at,
  get_column, get_column_height, get_row,
}

-- Every member function that takes a column or a row throws `out_of_range`.
pub record IsUnusable (b : Board) : Type 0 where
  pub drop : (c p : ℕ) → drop_piece_in_column b c p ≡ err out_of_range
  pub column_full : (c : ℕ) → is_column_full b c ≡ err out_of_range
  pub disk_owner : (c r : ℕ) → get_disk_owner_at b c r ≡ err out_of_range
  pub column : (c : ℕ) → get_column b c ≡ err out_of_range
  pub column_height : (c : ℕ) → get_column_height b c ≡ err out_of_range
  pub row : (r : ℕ) → get_row b r ≡ err out_of_range

-- Both moves give the target the whole state of the argument, and leave an argument that throws
-- `out_of_range` for every column and row, and that counts as full.
pub move_lem :
    (target b : Board)
    → ((move_new b).0 ≡ b)
      × ((move_assign target b).0 ≡ b)
      × ((move_assign target b).1 ≡ (move_new b).1)
      × IsUnusable (move_new b).1
      × (is_full (move_new b).1 ≡ ok true)
unfolding move_new move_assign drop_piece_in_column is_column_full get_disk_owner_at get_column
    get_column_height get_row is_full
move_lem target b = (
  refl,
  refl,
  refl,
  record {
    drop = λ c p. ground arith;
    column_full = λ c. ground arith;
    disk_owner = λ c r. ground arith;
    column = λ c. ground arith;
    column_height = λ c. ground arith;
    row = λ r. ground arith;
  },
  refl,
)
