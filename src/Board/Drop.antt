-- ===== src/Board/Drop.antt =====
-- `dropPieceInColumn`: every branch, and that it keeps the board well formed.
use connectdisks.Prelude.{
  ℕ, ◌+◌, ◌≤◌, ◌<◌, ◌≡◌, ◌≢◌, ◌∙◌, refl, sym, true, false, ◌&&◌, inl, inr, [], ok, err,
  out_of_range, arith, length, set, get_or-set_self, get_or-set_ne, length-set, sum-set, write_lem,
  if◌then◌else◌, ◌==◌, lt→ltb, ==→eq, ==→ne, ne→==, eq→==, Bool-cases, u8,
}
use connectdisks.Board.{Board, place, drop_piece_in_column}
use connectdisks.Board.Cells.{IsValid, owner, height, pieces, slots, index-columns, index-indices}

-- `b'` is `b` with one piece of `player` on top of `column`, and nothing else changed.
pub record IsDrop (b : Board) (column player : ℕ) (b' : Board) : Type 0 where
  pub valid : IsValid b'
  pub same_columns : b'.num_columns ≡ b.num_columns
  pub same_rows : b'.num_rows ≡ b.num_rows
  pub owners :
      (c r : ℕ)
      → owner b' c r ≡ (if c == column && r == height b column then player else owner b c r)
  pub heights : (c : ℕ) → height b' c ≡ (if c == column then height b column + 1 else height b c)
  pub one_more : pieces b' ≡ pieces b + 1

module _ (b : Board) (column player : ℕ) (v : IsValid b) (inside : column < b.num_columns)
    (room : height b column < b.num_rows) where
  abbrev dropped : Board
  dropped = record b {
    columns = set b.columns column (set (slots b column) (height b column) player);
    row_indices = set b.row_indices column (height b column + 1);
  }

  place_lem : place b column player ≡ ok dropped
  unfolding place
  place_lem =
      let fits : u8 (height b column + 1) ≡ height b column + 1 =
        omega (arith, v.within column, v.wide, v.low) in
      rw (
        index-indices b v column inside,
        index-columns b v column inside,
        write_lem (slots b column) (height b column) player
            (omega (arith, v.slots_size column inside)),
        write_lem b.columns column (set (slots b column) (height b column) player)
            (omega (arith, v.columns_size)),
        fits,
        write_lem b.row_indices column (height b column + 1) (omega (arith, v.indices_size)),
      )

  slots-dropped : slots dropped column ≡ set (slots b column) (height b column) player
  slots-dropped = get_or-set_self b.columns column _ [] (omega (arith, v.columns_size))

  slots-dropped_ne : (c : ℕ) → column ≢ c → slots dropped c ≡ slots b c
  slots-dropped_ne c h = get_or-set_ne b.columns column c _ [] h

  heights_lem :
      (c : ℕ) → height dropped c ≡ (if c == column then height b column + 1 else height b c)
  unfolding height
  heights_lem c = ground (
    arith,
    get_or-set_self b.row_indices column (height b column + 1) 0 (omega (arith, v.indices_size)),
    get_or-set_ne b.row_indices column c (height b column + 1) 0,
  )

  owners_lem :
      (c r : ℕ)
      → owner dropped c r ≡ (if c == column && r == height b column then player else owner b c r)
  unfolding owner
  owners_lem c r = elim (Bool-cases (c == column)) [
    | inl same ↦
        rw (same, ==→eq c column same, slots-dropped)
          (ground (
            arith,
            get_or-set_self (slots b column) (height b column) player 0
                (omega (arith, v.slots_size column inside)),
            get_or-set_ne (slots b column) (height b column) r player 0,
          ))
    | inr other ↦ rw (other, slots-dropped_ne c (λ e. ==→ne c column other (sym e)))
  ]

  slots_size_lem : (c : ℕ) → c < b.num_columns → length (slots dropped c) ≡ b.num_rows
  slots_size_lem c h = elim (Bool-cases (c == column)) [
    | inl same ↦
        rw (==→eq c column same, slots-dropped)
          (length-set (slots b column) (height b column) player ∙ v.slots_size column inside)
    | inr other ↦ rw (slots-dropped_ne c (λ e. ==→ne c column other (sym e))) (v.slots_size c h)
  ]

  pieces-dropped : pieces dropped ≡ pieces b + 1
  unfolding pieces height
  pieces-dropped =
      omega
        (arith, sum-set b.row_indices column (height b column + 1) (omega (arith, v.indices_size)))

  dropped-IsDrop : player ≢ 0 → IsDrop b column player dropped
  dropped-IsDrop owned = record {
    valid = record {
      wide = v.wide;
      low = v.low;
      columns_size = length-set b.columns column _ ∙ v.columns_size;
      slots_size = slots_size_lem;
      indices_size = length-set b.row_indices column _ ∙ v.indices_size;
      within = λ c. ground (arith, heights_lem c, v.within c);
      filled = λ c r h. ground (arith, heights_lem c, owners_lem c r, v.filled c r);
      vacant = λ c r h. ground (arith, heights_lem c, owners_lem c r, v.vacant c r);
    };
    same_columns = refl;
    same_rows = refl;
    owners = owners_lem;
    heights = heights_lem;
    one_more = pieces-dropped;
  }

-- What `dropPieceInColumn` does on a well-formed board, for a player other than 0: in a column that
-- is not on the board it throws `out_of_range`; in a full column it returns false and leaves the
-- board as it was; in any other column it returns true, and the board has one more piece, that of
-- the player, on top of the column, is well formed, and is otherwise unchanged.
pub drop_piece_in_column_lem :
    (b : Board) (column player : ℕ)
    → IsValid b
    → player ≢ 0
    → (b.num_columns ≤ column → drop_piece_in_column b column player ≡ err out_of_range)
      × (column < b.num_columns
          → height b column ≡ b.num_rows
          → drop_piece_in_column b column player ≡ ok (b, false))
      × (column < b.num_columns
          → height b column < b.num_rows
          → (b' : Board) × (drop_piece_in_column b column player ≡ ok (b', true))
            × IsDrop b column player b')
unfolding drop_piece_in_column
drop_piece_in_column_lem b column player v owned = (
  λ off. ground arith,
  λ inside full. rw (lt→ltb _ _ inside, index-indices b v column inside, eq→== _ _ full),
  λ inside room. (
    dropped b column player v inside room,
    rw (
      lt→ltb _ _ inside,
      index-indices b v column inside,
      ne→== (height b column) b.num_rows (omega arith),
      place_lem b column player v inside room,
    ),
    dropped-IsDrop b column player v inside room owned,
  ),
)
