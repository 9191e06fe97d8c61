-- ===== src/Board/Print.antt =====
-- The conversion of a board to a string, in game/src/board.cpp.
use connectdisks.Prelude.{
  ℕ, zero, suc, ◌+◌, ◌-◌, ◌*◌, ◌≤◌, ◌<◌, ◌≡◌, ◌∙◌, refl, sym, ap, List, [], ◌∷◌, ◌++◌, Result, ok,
  err, out_of_range, ◌>>=◌, index, index_lem, u8, replicate, arith, Text, codes, decimal, numbers,
  scan, scan-decimal, scan-dashes, some, none,
}
use mathlib.Core.List.{append_assoc}
use connectdisks.Board.{Board, get_row}
use connectdisks.Board.Cells.{IsValid, owner}
use connectdisks.Board.Rows.{get_row_lem}

-- The loop over the columns from `col` on, of which there are so many.
pub show_slots : List ℕ → ℕ → ℕ → Result Text
show_slots view col zero = ok []
show_slots view col (suc more) = do
  slot ← index view (u8 col)
  rest ← show_slots view (col + 1) more
  ok (codes " | " ++ (decimal slot ++ rest))

-- `row` is an `int`, of which `getRow` takes the low byte.
pub show_row : Board → ℕ → Result Text
unfolding show_slots
show_row b row = do
  view ← get_row b (u8 row)
  first ← index view 0
  rest ← show_slots view 1 (b.num_columns - 1)
  ok (codes " " ++ (decimal first ++ (rest ++ codes "\n")))

abbrev separator : Board → Text
separator b = replicate (3 * b.num_columns + (b.num_columns - 1)) 45 ++ codes "\n"

-- The loop over the rows below `row`, down to the first.
pub show_rows : Board → ℕ → Result Text
unfolding show_row
show_rows b zero = ok []
show_rows b (suc row) = do
  line ← show_row b row
  rest ← show_rows b row
  ok (separator b ++ (line ++ rest))

-- The low byte of `numRows - 1` is that of `numRows + 255`. A board that has a row but no column is
-- read out of bounds before its separators are made.
unfoldable pub to_string : Board → Result Text
unfolding show_row show_rows
to_string b = do
  top ← show_row b (b.num_rows + 255)
  rest ← show_rows b (b.num_rows - 1)
  ok (top ++ rest)

-- The owners of a row from a column on, and of the rows below a row from the top down.
abbrev pub owners_along : Board → ℕ → ℕ → ℕ → List ℕ
owners_along b row col zero = []
owners_along b row col (suc more) = owner b col row ∷ owners_along b row (col + 1) more

abbrev pub owners_down : Board → ℕ → List ℕ
owners_down b zero = []
owners_down b (suc row) = owners_along b row 0 b.num_columns ++ owners_down b row

module _ (b : Board) (v : IsValid b) where
  -- The slots follow a number that is not yet read to its end.
  show_slots_lem :
      (view : List ℕ) (row col more : ℕ)
      → ((c : ℕ) → c < b.num_columns → index view c ≡ ok (owner b c row))
      → col + more ≡ b.num_columns
      → (t : Text) × (show_slots view col more ≡ ok t)
        × ((n : ℕ) (rest : Text)
            → scan (some n) (t ++ (codes "\n" ++ rest))
              ≡ n ∷ (owners_along b row col more ++ numbers rest))
  unfolding show_slots scan
  show_slots_lem view row col zero at size = ([], refl, λ n rest. refl)
  show_slots_lem view row col (suc more) at size =
      let (t, e, reads) = show_slots_lem view row (col + 1) more at (omega (arith, size)) in
      let narrow : u8 col ≡ col = omega (arith, size, v.wide) in
      let slot = decimal (owner b col row) in
      (
        codes " | " ++ (slot ++ t),
        rw (narrow, at col (omega (arith, size)), e) refl,
        λ n rest.
            ap (λ s. n ∷ scan none s) (append_assoc slot t (codes "\n" ++ rest))
            ∙ ap (λ l. n ∷ l)
                (scan-decimal (owner b col row) (t ++ (codes "\n" ++ rest))
                  ∙ reads (owner b col row) rest),
      )

  show_row_lem :
      (row row' : ℕ)
      → u8 row' ≡ row
      → row < b.num_rows
      → (t : Text) × (show_row b row' ≡ ok t)
        × ((rest : Text) → numbers (t ++ rest) ≡ owners_along b row 0 b.num_columns ++ numbers rest)
  unfolding show_row scan
  show_row_lem row row' low inside =
      let (view, e, size, same, at) = (get_row_lem b row v).0 inside in
      let reads : (c : ℕ) → c < b.num_columns → index view c ≡ ok (owner b c row) =
        λ c h. index_lem view c 0 (omega (arith, size)) ∙ ap ok (same c h) in
      let (t, f, g) = show_slots_lem view row 1 (b.num_columns - 1) reads (omega (arith, v.low)) in
      let first = owner b 0 row in
      (
        codes " " ++ (decimal first ++ (t ++ codes "\n")),
        rw (ap (get_row b) low ∙ e, reads 0 (omega (arith, v.low)), f) refl,
        λ rest.
            ap (λ s. scan none s)
              (append_assoc (decimal first) (t ++ codes "\n") rest
                ∙ ap (λ s. decimal first ++ s) (append_assoc t (codes "\n") rest))
            ∙ scan-decimal first (t ++ (codes "\n" ++ rest))
            ∙ g first rest
            ∙ ap (λ l. l ++ numbers rest) (sym (along row b.num_columns (omega (arith, v.low)))),
      )
    where
      along :
          (row n : ℕ)
          → 1 ≤ n
          → owners_along b row 0 n ≡ owner b 0 row ∷ owners_along b row 1 (n - 1)
      along row zero h = absurd (omega arith)
      along row (suc n) h = ap (λ k. owner b 0 row ∷ owners_along b row 1 k) (omega arith)

  numbers-separator : (rest : Text) → numbers (separator b ++ rest) ≡ numbers rest
  unfolding scan
  numbers-separator rest =
      ap (scan none)
        (append_assoc (replicate (3 * b.num_columns + (b.num_columns - 1)) 45) (codes "\n") rest)
      ∙ scan-dashes (3 * b.num_columns + (b.num_columns - 1)) (codes "\n" ++ rest)

  show_rows_lem :
      (row : ℕ)
      → row ≤ b.num_rows
      → (t : Text) × (show_rows b row ≡ ok t)
        × ((rest : Text) → numbers (t ++ rest) ≡ owners_down b row ++ numbers rest)
  unfolding show_rows
  show_rows_lem zero h = ([], refl, λ rest. refl)
  show_rows_lem (suc row) h =
      let (line, e, reads) = show_row_lem row row (omega (arith, v.wide, v.low)) (omega arith) in
      let (t, f, more) = show_rows_lem row (omega arith) in
      let along = owners_along b row 0 b.num_columns in
      (
        separator b ++ (line ++ t),
        rw (e, f) refl,
        λ rest.
            ap numbers (
              append_assoc (separator b) (line ++ t) rest
              ∙ ap (λ s. separator b ++ s) (append_assoc line t rest))
            ∙ numbers-separator (line ++ (t ++ rest))
            ∙ reads (t ++ rest)
            ∙ ap (λ l. along ++ l) (more rest)
            ∙ sym (append_assoc along (owners_down b row) (numbers rest)),
      )

-- A well-formed board with at least one row is converted to a string with no exception and no bad
-- read, and the numbers in that string, followed by any other text, are the owners of all slots,
-- row by row from the top and each row from the left, before the numbers of the other text. A
-- well-formed board with no row throws `out_of_range`.
pub to_string_lem :
    (b : Board)
    → IsValid b
    → (1 ≤ b.num_rows
        → (t : Text) × (to_string b ≡ ok t)
          × ((rest : Text) → numbers (t ++ rest) ≡ owners_down b b.num_rows ++ numbers rest))
      × (b.num_rows ≡ 0 → to_string b ≡ err out_of_range)
unfolding to_string show_row get_row
to_string_lem b v = (
  λ some_row.
      let top : u8 (b.num_rows + 255) ≡ b.num_rows - 1 = omega (arith, v.wide, v.low) in
      let (line, e, reads) =
        show_row_lem b v (b.num_rows - 1) (b.num_rows + 255) top (omega arith) in
      let (t, f, more) = show_rows_lem b v (b.num_rows - 1) (omega arith) in
      let along = owners_along b (b.num_rows - 1) 0 b.num_columns in
      (
        line ++ t,
        rw (e, f) refl,
        λ rest.
            ap numbers (append_assoc line t rest)
            ∙ reads (t ++ rest)
            ∙ ap (λ l. along ++ l) (more rest)
            ∙ sym (append_assoc along (owners_down b (b.num_rows - 1)) (numbers rest))
            ∙ ap (λ l. l ++ numbers rest) (sym (down b.num_rows some_row)),
      ),
  λ none_at_all. rw none_at_all refl,
)
  where
    down :
        (n : ℕ)
        → 1 ≤ n
        → owners_down b n ≡ owners_along b (n - 1) 0 b.num_columns ++ owners_down b (n - 1)
    down zero h = absurd (omega arith)
    down (suc n) h = ap (λ k. owners_along b k 0 b.num_columns ++ owners_down b k) (omega arith)
