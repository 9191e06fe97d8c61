-- ===== src/Input/Answers.antt =====
-- What the callbacks make of a word.
use connectdisks.Prelude.{
  ℕ, ◌-◌, ◌≤◌, ◌<◌, ◌≡◌, ◌⊎◌, ◌∙◌, refl, sym, inl, inr, true, false, [], Option-cases, arith, Text,
  codes, u8, ok,
}
use connectdisks.Client.{Client, send_turn}
use connectdisks.Input.{read_column, call, ask_column}
use connectdisks.Input.Numerals.{IsNumeral, none-some, read_column-numeral}
use connectdisks.Input.Columns.{read_column-IsNumeral}

-- What the callback of a turn does with a word, on a board of at most 255 columns. If the word is a
-- decimal number from 1 to the number of columns, with any digits zero before it, at most one plus
-- sign before these and any white space before that, the column one below is sent to the server and
-- the callback is done. If it is anything else, nothing is sent, the user is told that it is
-- invalid, and the callback is not done.
pub call_lem :
    (max_columns : ℕ) (t : Text) (c : Client)
    → max_columns < 256
    → ((n : ℕ) × IsNumeral t n
        × (1 ≤ n)
        × (n ≤ max_columns)
        × (call (ask_column max_columns) t c ≡ ok (send_turn (n - 1) c, [], true)))
      ⊎ (((n : ℕ) → IsNumeral t n → 1 ≤ n → n ≤ max_columns → ⊥)
          × (call (ask_column max_columns) t c ≡ ok (c, codes "Invalid input, try again: ", false)))
unfolding call
call_lem max_columns t c small = elim (Option-cases (read_column max_columns t)) [
  | inl nothing ↦ inr (
    λ n i low high. none-some (sym nothing ∙ read_column-numeral max_columns n t i low high small),
    rw (call, nothing) refl,
  )
  | inr (n, read) ↦
      let (i, low, high) = read_column-IsNumeral max_columns n t read in
      inl (n, i, low, high, rw (call, read, byte n low (omega (arith, high, small))) refl)
]
  where
    byte : (n : ℕ) → 1 ≤ n → n < 256 → u8 (n - 1) ≡ n - 1
    byte n low high = omega arith
