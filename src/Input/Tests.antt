-- ===== src/Input/Tests.antt =====
-- The theorem on a word that is entered, at concrete inputs.
use connectdisks.Prelude.{
  ℕ, ◌-◌, ◌≤◌, ◌≡◌, ◌⊎◌, refl, true, false, none, some, [], arith, ok, codes,
}
use connectdisks.Client
use connectdisks.Client.{Client, send_turn}
use connectdisks.Input.{ask_column, call, read_column, stoi}
use connectdisks.Input.Numerals.{IsNumeral}
use connectdisks.Input.Answers.{call_lem}

one_zero : read_column 12 (codes "+010") ≡ some 10
unfolding read_column stoi
one_zero = refl

no_number :
    (read_column 12 (codes "5x") ≡ none)
    × (read_column 12 (codes "-3") ≡ none)
    × (read_column 12 (codes "0") ≡ none)
    × (read_column 12 (codes "13") ≡ none)
    × (read_column 12 (codes "99999999999") ≡ none)
unfolding read_column stoi
no_number = (refl, refl, refl, refl, refl)

call_example :
    ((n : ℕ) × IsNumeral (codes "10") n
      × (1 ≤ n)
      × (n ≤ 12)
      × (call (ask_column 12) (codes "10") Client.create
          ≡ ok (send_turn (n - 1) Client.create, [], true)))
    ⊎ (((n : ℕ) → IsNumeral (codes "10") n → 1 ≤ n → n ≤ 12 → ⊥)
        × (call (ask_column 12) (codes "10") Client.create
            ≡ ok (Client.create, codes "Invalid input, try again: ", false)))
call_example = call_lem 12 (codes "10") Client.create (omega arith)
