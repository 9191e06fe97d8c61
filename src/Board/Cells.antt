-- ===== src/Board/Cells.antt =====
-- The board as a grid of owners and heights, and what makes a board well formed.
use connectdisks.Prelude.{
  ℕ, ◌*◌, ◌≤◌, ◌<◌, ◌≡◌, ◌≢◌, refl, List, [], ok, err, index_lem, arith, length, get_or,
  get_or_beyond, sum, index, lt→ltb, sum-le, replicate, length-replicate, get_or-replicate,
  get_or-replicate_default, sum-replicate, Bool-cases, ltb, ltb→lt, not_ltb→le, inl, inr, ◌⊎◌,
  invalid_argument,
}
use connectdisks.Board.{
  Board, new, fresh, empty_slot, get_disk_owner_at, get_column, get_column_height,
}

abbrev pub slots : Board → ℕ → List ℕ
slots b c = get_or b.columns c []

-- The owner of a slot; 0 for an empty slot and outside the board.
unfoldable pub owner : Board → ℕ → ℕ → ℕ
owner b c r = get_or (slots b c) r 0

-- The number of pieces in a column.
unfoldable pub height : Board → ℕ → ℕ
height b c = get_or b.row_indices c 0

-- The number of pieces on the board.
unfoldable pub pieces : Board → ℕ
pieces b = sum b.row_indices

-- Sizes agree, and the pieces of each column stand on one another from the bottom.
pub record IsValid (b : Board) : Type 0 where
  pub wide : b.num_columns < 256
  pub low : b.num_rows < b.num_columns
  pub columns_size : length b.columns ≡ b.num_columns
  pub slots_size : (c : ℕ) → c < b.num_columns → length (slots b c) ≡ b.num_rows
  pub indices_size : length b.row_indices ≡ b.num_columns
  pub within : (c : ℕ) → height b c ≤ b.num_rows
  pub filled : (c r : ℕ) → r < height b c → owner b c r ≢ 0
  pub vacant : (c r : ℕ) → height b c ≤ r → owner b c r ≡ 0

module _ (b : Board) (v : IsValid b) where
  pub index-columns : (c : ℕ) → c < b.num_columns → index b.columns c ≡ ok (slots b c)
  index-columns c h = index_lem b.columns c [] (omega (arith, v.columns_size))

  pub index-indices : (c : ℕ) → c < b.num_columns → index b.row_indices c ≡ ok (height b c)
  unfolding height
  index-indices c h = index_lem b.row_indices c 0 (omega (arith, v.indices_size))

  pub index-slots :
      (c r : ℕ) → c < b.num_columns → r < b.num_rows → index (slots b c) r ≡ ok (owner b c r)
  unfolding owner
  index-slots c r hc hr = index_lem (slots b c) r 0 (omega (arith, v.slots_size c hc))

  pub get_disk_owner_at-owner :
      (c r : ℕ) → c < b.num_columns → r < b.num_rows → get_disk_owner_at b c r ≡ ok (owner b c r)
  unfolding get_disk_owner_at
  get_disk_owner_at-owner c r hc hr =
      rw (lt→ltb c _ hc, lt→ltb r _ hr, index-columns c hc) (index-slots c r hc hr)

  pub get_column-slots : (c : ℕ) → c < b.num_columns → get_column b c ≡ ok (slots b c)
  unfolding get_column
  get_column-slots c h = rw (lt→ltb c _ h) (index-columns c h)

  pub get_column_height-height :
      (c : ℕ) → c < b.num_columns → get_column_height b c ≡ ok (height b c)
  unfolding get_column_height
  get_column_height-height c h = rw (lt→ltb c _ h) (index-indices c h)

  -- A slot with an owner lies on the board, below the height of its column.
  pub owned_inside :
      (c r : ℕ) → owner b c r ≢ 0 → (c < b.num_columns) × (r < b.num_rows) × (r < height b c)
  unfolding height
  owned_inside c r h =
      grind (arith, v.vacant c r, v.within c, get_or_beyond b.row_indices c 0, v.indices_size)

  -- The pieces fit on the board.
  pub pieces-le : pieces b ≤ b.num_columns * b.num_rows
  unfolding pieces height
  pieces-le = rw (← v.indices_size) (sum-le b.row_indices b.num_rows (λ i l. v.within i))

height-fresh : (nc nr c : ℕ) → height (fresh nc nr) c ≡ 0
unfolding height
height-fresh nc nr c = get_or-replicate_default nc c 0

pub pieces-fresh : (nc nr : ℕ) → pieces (fresh nc nr) ≡ 0
unfolding pieces
pieces-fresh nc nr = omega (arith, sum-replicate nc 0)

pub owner-fresh : (nc nr c r : ℕ) → owner (fresh nc nr) c r ≡ 0
unfolding owner
owner-fresh nc nr c r = elim (Bool-cases (ltb c nc)) [
  | inl i ↦
      rw (get_or-replicate nc c (replicate nr empty_slot) [] (ltb→lt c nc i))
        (get_or-replicate_default nr r 0)
  | inr o ↦ rw (
      get_or_beyond (replicate nc (replicate nr empty_slot)) c []
        (omega (arith, length-replicate nc (replicate nr empty_slot), not_ltb→le c nc o)))
]

pub fresh-IsValid : (nc nr : ℕ) → nc < 256 → nr < nc → IsValid (fresh nc nr)
fresh-IsValid nc nr small low = record {
  wide = small;
  low = low;
  columns_size = length-replicate nc _;
  slots_size = λ c h.
      rw (get_or-replicate nc c (replicate nr empty_slot) [] h) (length-replicate nr empty_slot);
  indices_size = length-replicate nc 0;
  within = λ c. omega (arith, height-fresh nc nr c);
  filled = λ c r h. absurd (omega (arith, height-fresh nc nr c));
  vacant = λ c r h. owner-fresh nc nr c r;
}

-- What the constructor does on every pair of `uint8_t` dimensions: with at least five columns, four
-- rows and fewer rows than columns it returns a well-formed board of these dimensions with no piece
-- and no owned slot; with any other dimensions it throws `invalid_argument`.
pub new-IsValid :
    (nc nr : ℕ)
    → nc < 256
    → (5 ≤ nc
        → 4 ≤ nr
        → nr < nc
        → (b : Board) × (new nc nr ≡ ok b)
          × IsValid b
          × (b.num_columns ≡ nc)
          × (b.num_rows ≡ nr)
          × (pieces b ≡ 0)
          × ((c r : ℕ) → owner b c r ≡ 0))
      × ((nc < 5) ⊎ (nr < 4) ⊎ (nc ≤ nr) → new nc nr ≡ err invalid_argument)
unfolding new
new-IsValid nc nr small = (
  λ hc hr low. (
    fresh nc nr,
    ground arith,
    fresh-IsValid nc nr small low,
    refl,
    refl,
    pieces-fresh nc nr,
    owner-fresh nc nr,
  ),
  λ bad. ground arith,
)
