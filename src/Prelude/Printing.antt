-- ===== src/Prelude/Printing.antt =====
-- Text as what a stream of the standard library prints: character codes, and numbers in decimal.
use mathlib.Core.Path.{◌≡◌, refl, ap, ◌∙◌}
use mathlib.Core.Bool.{Bool, ◌&&◌}
use mathlib.Core.Logic.{inl, inr}
use mathlib.Core.Option.{Option, none, some}
use mathlib.Core.List.{List, [], ◌∷◌, ◌++◌, append_assoc}
use native.Mathlib.Omega.{arith}
use Prim.Native.Nat.{ℕ, zero, suc, ◌+◌, ◌-◌, ◌*◌, ◌/◌, ◌%◌, ◌<◌}
use Prim.Native.Char.{code}
use Prim.Native.String.{String}
use connectdisks.Prelude.Tests.{ltb, leb, if◌then◌else◌, Bool-cases, ltb→lt, not_ltb→le}
use connectdisks.Prelude.Lists.{replicate}

abbrev pub Text : Type 0
Text = List ℕ

-- The character codes of a literal.
abbrev pub codes : String → Text
codes String.[] = []
codes (String.◌∷◌ c s) = code c ∷ codes s

-- One round for each digit; a number has fewer digits than its successor says.
pub digits : ℕ → ℕ → Text
digits zero n = []
digits (suc fuel) n =
    let front = digits fuel (n / 10) in
    if ltb n 10 then (48 + n) ∷ [] else front ++ (48 + n % 10) ∷ []

-- What `<<` prints for an `int` that is not negative.
unfoldable pub decimal : ℕ → Text
unfolding digits
decimal n = digits (suc n) n

abbrev pub is_digit : ℕ → Bool
is_digit c = leb 48 c && ltb c 58

-- The number read so far, if the last character was a digit.
abbrev pub read_on : Option ℕ → ℕ → ℕ
read_on none c = c - 48
read_on (some n) c = 10 * n + (c - 48)

abbrev pub read_before : Option ℕ → List ℕ → List ℕ
read_before none rest = rest
read_before (some n) rest = n ∷ rest

unfoldable pub scan : Option ℕ → Text → List ℕ
scan seen [] = read_before seen []
scan seen (c ∷ cs) =
    let more = scan (some (read_on seen c)) cs in
    let new = scan none cs in if is_digit c then more else read_before seen new

-- The numbers that stand in a text, each as long as it can be.
abbrev pub numbers : Text → List ℕ
numbers t = scan none t

scan-digit :
    (seen : Option ℕ) (d : ℕ) (rest : Text)
    → d < 10
    → scan seen ((48 + d) ∷ rest) ≡ scan (some (read_on seen (48 + d))) rest
unfolding scan
scan-digit seen d rest small = ground arith

scan-digits :
    (fuel n : ℕ) (rest : Text) → n < fuel → scan none (digits fuel n ++ rest) ≡ scan (some n) rest
unfolding digits
scan-digits zero n rest h = absurd (omega arith)
scan-digits (suc fuel) n rest h = elim (Bool-cases (ltb n 10)) [
  | inl one ↦
      rw one (scan-digit none n rest (ltb→lt n 10 one) ∙ ap (λ k. scan (some k) rest) (omega arith))
  | inr more ↦
      let big = not_ltb→le n 10 more in
      rw (more, append_assoc (digits fuel (n / 10)) ((48 + n % 10) ∷ []) rest)
        (scan-digits fuel (n / 10) ((48 + n % 10) ∷ rest) (omega arith)
          ∙ scan-digit (some (n / 10)) (n % 10) rest (omega arith)
          ∙ ap (λ k. scan (some k) rest) (omega arith))
]

-- A number that is printed is read back.
pub scan-decimal : (n : ℕ) (rest : Text) → scan none (decimal n ++ rest) ≡ scan (some n) rest
unfolding decimal
scan-decimal n rest = scan-digits (suc n) n rest (omega arith)

pub scan-dashes : (k : ℕ) (rest : Text) → scan none (replicate k 45 ++ rest) ≡ scan none rest
unfolding scan
scan-dashes zero rest = refl
scan-dashes (suc k) rest = scan-dashes k rest
