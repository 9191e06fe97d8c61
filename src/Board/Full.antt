-- ===== src/Board/Full.antt =====
-- `isFull` and `isColumnFull`: the loop over the columns ends and finds the first column with room.
use connectdisks.Prelude.{
  ℕ, zero, suc, ◌+◌, ◌*◌, ◌≤◌, ◌<◌, ◌≡◌, Bool, true, false, inl, inr, ◌↔◌, ok, err, out_of_range,
  arith, lt→ltb, not_ltb→le, ltb→lt, ◌==◌, ltb, ==→eq, ==→ne, Bool-cases, u8, sum-eq_iff,
}
use connectdisks.Board.{Board, is_full, is_full_from, is_column_full, is_column_full_internal}
use connectdisks.Board.Cells.{IsValid, height, pieces, index-indices}

abbrev pub IsColumnFull : Board → ℕ → Type 0
IsColumnFull b c = height b c ≡ b.num_rows

-- No column is lower than the board.
abbrev pub IsFull : Board → Type 0
IsFull b = (c : ℕ) → c < b.num_columns → IsColumnFull b c

-- What the loop returns from column `i`: whether every column from there on is full.
record Answers (b : Board) (fuel i : ℕ) : Type 0 where
  answer : Bool
  returns : is_full_from b fuel i ≡ ok answer
  all_full : answer ≡ true → (c : ℕ) → i ≤ c → c < b.num_columns → IsColumnFull b c
  some_room : answer ≡ false → (c : ℕ) × (c < b.num_columns) × (height b c < b.num_rows)

module _ (b : Board) (v : IsValid b) where
  next_column : (i : ℕ) → i < b.num_columns → u8 (i + 1) ≡ i + 1
  next_column i h = omega (arith, v.wide)

  is_full_from-Answers : (fuel i : ℕ) → i + fuel ≡ 256 → i ≤ b.num_columns → Answers b fuel i
  unfolding is_full_from
  is_full_from-Answers zero i e h = absurd (omega (arith, v.wide))
  is_full_from-Answers (suc fuel) i e h = elim (Bool-cases (ltb i b.num_columns)) [
    | inr past ↦ record {
      answer = true;
      returns = rw past;
      all_full = λ _ c l k. absurd (omega (arith, not_ltb→le _ _ past));
      some_room = λ no_room. cc;
    }
    | inl on ↦
        let inside = ltb→lt i _ on in
        elim (Bool-cases (height b i == b.num_rows)) [
          | inl full ↦
              let rest = is_full_from-Answers fuel (i + 1) (omega arith) (omega arith) in
              record {
                answer = rest.answer;
                returns =
                    rw (on, index-indices b v i inside, full, next_column i inside) rest.returns;
                all_full = λ t c l k. elim (Bool-cases (c == i)) [
                  | inl same ↦ rw (==→eq c i same) (==→eq (height b i) b.num_rows full)
                  | inr other ↦ rest.all_full t c (omega (arith, ==→ne c i other)) k
                ];
                some_room = rest.some_room;
              }
          | inr room ↦ record {
            answer = false;
            returns = rw (on, index-indices b v i inside, room);
            all_full = λ t. cc;
            some_room =
                λ _. (i, inside, omega (arith, v.within i, ==→ne (height b i) b.num_rows room));
          }
        ]
  ]

-- On a well-formed board the loop of `isFull` ends within its 256 rounds, with no read out of bounds.
-- It returns true exactly if every column is full, and false exactly if some column has room.
pub is_full_lem :
    (b : Board)
    → IsValid b
    → (answer : Bool) × (is_full b ≡ ok answer)
      × ((answer ≡ true) ↔ IsFull b)
      × ((answer ≡ false) ↔ ((c : ℕ) × (c < b.num_columns) × (height b c < b.num_rows)))
unfolding is_full
is_full_lem b v =
    let a = is_full_from-Answers b v 256 0 (omega arith) (omega arith) in
    (
      a.answer,
      a.returns,
      (
        λ t c h. a.all_full t c (omega arith) h,
        λ full. elim (Bool-cases a.answer) [
          | inl t ↦ t
          | inr f ↦ let (c, inside, room) = a.some_room f in absurd (omega (arith, full c inside))
        ],
      ),
      (
        a.some_room,
        λ (c, inside, room). elim (Bool-cases a.answer) [
          | inl t ↦ absurd (omega (arith, a.all_full t c (omega arith) inside))
          | inr f ↦ f
        ],
      ),
    )

-- `isColumnFull` on a well-formed board: it throws `out_of_range` for a column that is not on the
-- board, and compares the height of any other column with the number of rows.
pub is_column_full_lem :
    (b : Board) (column : ℕ)
    → IsValid b
    → (b.num_columns ≤ column → is_column_full b column ≡ err out_of_range)
      × (column < b.num_columns → is_column_full b column ≡ ok (height b column == b.num_rows))
unfolding is_column_full is_column_full_internal
is_column_full_lem b column v =
    (λ off. ground arith, λ inside. rw (lt→ltb _ _ inside, index-indices b v column inside))

-- A board is full exactly if it has as many pieces as slots.
pub IsFull-iff-pieces : (b : Board) → IsValid b → IsFull b ↔ (pieces b ≡ b.num_columns * b.num_rows)
unfolding pieces height
IsFull-iff-pieces b v =
    let e = v.indices_size in rw (← e) (sum-eq_iff b.row_indices b.num_rows (λ i l. v.within i))
