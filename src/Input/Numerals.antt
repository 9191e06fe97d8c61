-- ===== src/Input/Numerals.antt =====
-- The numbers that a user can enter.
use connectdisks.Prelude.{
  ℕ, ◌+◌, ◌-◌, ◌*◌, ◌≤◌, ◌<◌, ◌≡◌, ◌∙◌, refl, ap, true, false, Option, none, some, [], ◌∷◌, ◌++◌,
  leb, ◌==◌, arith, Text, is_digit, length,
}
use Prim.Native.Nat.{◌^◌}
use connectdisks.Input.{
  SignedNumber, is_space, skip_spaces, read_digits, unsigned_digits, signed_digits, stoi, chosen,
  read_column,
}

-- What stands before the digits: white space, and at most one plus sign.
pub data IsFront : Text → Type 0 where
  no_front : IsFront []
  plus : IsFront (43 ∷ [])
  space : {c : ℕ} {front : Text} → is_space c ≡ true → IsFront front → IsFront (c ∷ front)

pub data AreDigits : Text → Type 0 where
  no_digits : AreDigits []
  digit : {c : ℕ} {cs : Text} → is_digit c ≡ true → AreDigits cs → AreDigits (c ∷ cs)

-- The number that a text of digits stands for, after the number before it.
abbrev pub value : ℕ → Text → ℕ
value n [] = n
value n (c ∷ cs) = value (10 * n + (c - 48)) cs

-- The text is a decimal number that is not negative, and has at least one digit.
pub record IsNumeral (t : Text) (n : ℕ) : Type 0 where
  pub front : Text
  pub first : ℕ
  pub others : Text
  pub split : t ≡ front ++ (first ∷ others)
  pub is_front : IsFront front
  pub are_digits : AreDigits (first ∷ others)
  pub number : value 0 (first ∷ others) ≡ n

pub none-some : {A : Type 0} {a : A} → ◌≡◌ {A = Option A} none (some a) → ⊥
none-some e = cc

read_digits-value : (n : ℕ) (ds : Text) → AreDigits ds → read_digits n ds ≡ (value n ds, [])
read_digits-value n [] no_digits = refl
read_digits-value n (c ∷ cs) (digit h rest) = rw h (read_digits-value (10 * n + (c - 48)) cs rest)

module _ (c : ℕ) (cs : Text) (first : is_digit c ≡ true) (rest : AreDigits cs)
    (small : value 0 (c ∷ cs) < 256) where
  abbrev number_read : Option (SignedNumber × Text)
  number_read = some (record { negative = false; magnitude = value 0 (c ∷ cs) }, [])

  unsigned_digits-numeral : unsigned_digits false (c ∷ cs) ≡ number_read
  unsigned_digits-numeral =
      let fits : leb (value 0 (c ∷ cs)) (2 ^ 31 - 1) ≡ true = ground (arith, small) in
      rw (first, read_digits-value (10 * 0 + (c - 48)) cs rest, fits) refl

  signed_digits-numeral : signed_digits (c ∷ cs) ≡ number_read
  signed_digits-numeral =
      let no_minus : (c == 45) ≡ false = ground (arith, first) in
      let no_plus : (c == 43) ≡ false = ground (arith, first) in
      rw (no_minus, no_plus) unsigned_digits-numeral

  after_front :
      (front : Text) → IsFront front → signed_digits (skip_spaces (front ++ (c ∷ cs))) ≡ number_read
  after_front [] no_front =
      let no_space : is_space c ≡ false = ground (arith, first) in rw no_space signed_digits-numeral
  after_front (_ ∷ _) plus = unsigned_digits-numeral
  after_front (d ∷ front) (space h more) = rw h (after_front front more)

chosen-numeral :
    (max_columns size n : ℕ)
    → 1 ≤ n
    → n ≤ max_columns
    → chosen max_columns size (record { negative = false; magnitude = n }, size - 0) ≡ some n
chosen-numeral max_columns size n low high = ground arith

-- A numeral is read to its end.
pub read_column-numeral :
    (max_columns n : ℕ) (t : Text)
    → IsNumeral t n
    → 1 ≤ n
    → n ≤ max_columns
    → max_columns < 256
    → read_column max_columns t ≡ some n
unfolding read_column stoi
read_column-numeral max_columns n t i low high small = elim i.are_digits [
  | digit h rest ↦
      let read =
        ap (λ t. signed_digits (skip_spaces t)) i.split
        ∙ after_front i.first i.others h rest (omega (arith, i.number, high, small)) i.front
            i.is_front in
      rw (read_column, read)
        (ap
            (λ k.
              chosen max_columns (length t)
                (record { negative = false; magnitude = k }, length t - 0))
            i.number
          ∙ chosen-numeral max_columns (length t) n low high)
]
