-- ===== src/Input/Columns.antt =====
-- What is read as a column is a number of a column.
use connectdisks.Prelude.{
  ℕ, ◌+◌, ◌-◌, ◌*◌, ◌≤◌, ◌≡◌, ◌∙◌, refl, sym, ap, subst, inl, inr, Bool, true, false, not, ◌&&◌,
  some, some_inj, false≢true, ==→eq, [], ◌∷◌, ◌++◌, leb, ltb, ◌==◌, if◌then◌else◌, Bool-cases,
  Option-cases, arith, Text, is_digit, length, length-append,
}
use Prim.Native.Nat.{◌^◌}
use mathlib.Core.List.{append-nil, append_assoc}
use connectdisks.Input.{
  SignedNumber, is_space, skip_spaces, read_digits, unsigned_digits, signed_digits, stoi, chosen,
  read_column,
}
use connectdisks.Input.Numerals.{
  IsFront, no_front, plus, space, AreDigits, no_digits, digit, value, IsNumeral, none-some,
}

read_digits-split :
    (n : ℕ) (u : Text)
    → (ds : Text) × AreDigits ds
      × (u ≡ ds ++ (read_digits n u).1)
      × (value n ds ≡ (read_digits n u).0)
read_digits-split n [] = ([], no_digits, refl, refl)
read_digits-split n (c ∷ cs) = elim (Bool-cases (is_digit c)) [
  | inl h ↦
      let (ds, all, split, number) = read_digits-split (10 * n + (c - 48)) cs in
      (c ∷ ds, digit h all, rw h (ap (λ l. c ∷ l) split), rw h number)
  | inr h ↦ ([], no_digits, rw h refl, rw h refl)
]

-- A text is digits, at least one, and the rest, and the number is that of the digits.
record IsRead (u : Text) (n : SignedNumber × Text) (negative : Bool) : Type 0 where
  first : ℕ
  others : Text
  split : u ≡ (first ∷ others) ++ n.1
  are_digits : AreDigits (first ∷ others)
  number : value 0 (first ∷ others) ≡ n.0.magnitude
  sign : n.0.negative ≡ negative

unsigned_digits-IsRead :
    (negative : Bool) (u : Text) (n : SignedNumber × Text)
    → unsigned_digits negative u ≡ some n
    → IsRead u n negative
unsigned_digits-IsRead negative [] n e = absurd (cc)
unsigned_digits-IsRead negative (c ∷ cs) n e = elim (Bool-cases (is_digit c)) [
  | inr h ↦ absurd (none-some (sym (rw h refl) ∙ e))
  | inl h ↦
      elim (Bool-cases
        (leb (read_digits (10 * 0 + (c - 48)) cs).0 (if negative then 2 ^ 31 else 2 ^ 31 - 1))) [
          | inr k ↦ absurd (none-some (sym (rw (h, k) refl) ∙ e))
          | inl k ↦
              let (ds, all, split, number) = read_digits-split (10 * 0 + (c - 48)) cs in
              subst (λ n. IsRead (c ∷ cs) n negative) (some_inj (sym (rw (h, k) refl) ∙ e))
                (record {
                  first = c;
                  others = ds;
                  split = ap (λ l. c ∷ l) split;
                  are_digits = digit h all;
                  number = number;
                  sign = refl;
                })
        ]
]

skip_spaces-split :
    (t : Text) → (f : Text) × (t ≡ f ++ skip_spaces t) × ((g : Text) → IsFront g → IsFront (f ++ g))
skip_spaces-split [] = ([], refl, λ g h. h)
skip_spaces-split (c ∷ cs) = elim (Bool-cases (is_space c)) [
  | inl h ↦
      let (f, split, more) = skip_spaces-split cs in
      (c ∷ f, rw h (ap (λ l. c ∷ l) split), λ g k. space h (more g k))
  | inr h ↦ ([], rw h refl, λ g k. k)
]

-- What `signed_digits` reads, if it is not negative, has at most a plus sign before it.
signed_digits-IsRead :
    (u : Text) (n : SignedNumber × Text)
    → signed_digits u ≡ some n
    → n.0.negative ≡ false
    → (g v : Text) × IsFront g × (u ≡ g ++ v) × IsRead v n false
signed_digits-IsRead [] n e positive = absurd (cc)
signed_digits-IsRead (c ∷ cs) n e positive = elim (Bool-cases (c == 45)) [
  | inl h ↦
      let r = unsigned_digits-IsRead true cs n (sym (rw h refl) ∙ e) in
      absurd (false≢true (sym positive ∙ r.sign))
  | inr h ↦ elim (Bool-cases (c == 43)) [
    | inl k ↦
        let at : c ≡ 43 = ==→eq c 43 k in
        (
          43 ∷ [],
          cs,
          plus,
          ap (λ c. c ∷ cs) at,
          unsigned_digits-IsRead false cs n (sym (rw (h, k) refl) ∙ e),
        )
    | inr k ↦ (
      [],
      c ∷ cs,
      no_front,
      refl,
      unsigned_digits-IsRead false (c ∷ cs) n (sym (rw (h, k) refl) ∙ e),
    )
  ]
]

chosen-some :
    (max_columns size : ℕ) (column : SignedNumber) (pos n : ℕ)
    → chosen max_columns size (column, pos) ≡ some n
    → (pos ≡ size)
      × (column.negative ≡ false)
      × (column.magnitude ≡ n)
      × (1 ≤ n)
      × (n ≤ max_columns)
chosen-some max_columns size column pos n e =
    elim (Bool-cases (
      pos == size
      && (not column.negative && ltb 0 column.magnitude)
      && leb column.magnitude max_columns)) [
        | inl good ↦
            let same : column.magnitude ≡ n = some_inj (sym (rw good refl) ∙ e) in
            (
              ground (arith, good),
              ground (arith, good),
              same,
              ground (arith, good, same),
              ground (arith, good, same),
            )
        | inr bad ↦ absurd (none-some (sym (rw bad refl) ∙ e))
      ]

-- Whatever is read is a numeral, of one of the columns.
pub read_column-IsNumeral :
    (max_columns n : ℕ) (t : Text)
    → read_column max_columns t ≡ some n
    → IsNumeral t n × (1 ≤ n) × (n ≤ max_columns)
unfolding read_column stoi
read_column-IsNumeral max_columns n t e = elim (Option-cases (signed_digits (skip_spaces t))) [
  | inl nothing ↦ absurd (none-some (sym (rw (read_column, nothing) refl) ∙ e))
  | inr ((column, rest), read) ↦
      let (pos, positive, same, low, high) =
        chosen-some max_columns (length t) column (length t - length rest) n
          (sym (rw (read_column, read) refl) ∙ e) in
      let (f, split, more) = skip_spaces-split t in
      let (g, v, is_front, after, r) =
        signed_digits-IsRead (skip_spaces t) (column, rest) read positive in
      let whole = split ∙ ap (λ l. f ++ l) (after ∙ ap (λ l. g ++ l) r.split) in
      (
        record {
          front = f ++ g;
          first = r.first;
          others = r.others;
          split =
              whole_text t f g (r.first ∷ r.others) rest whole
                (no_rest t f g r.others rest r.first whole pos);
          is_front = more g is_front;
          are_digits = r.are_digits;
          number = r.number ∙ same;
        },
        low,
        high,
      )
]
  where
    is_nil : (l : Text) → length l ≡ 0 → l ≡ []
    is_nil [] h = refl
    is_nil (d ∷ l) h = absurd (omega arith)

    no_rest :
        (t f g others rest : Text) (first : ℕ)
        → t ≡ f ++ (g ++ ((first ∷ others) ++ rest))
        → length t - length rest ≡ length t
        → rest ≡ []
    no_rest t f g others rest first whole pos = is_nil rest (
        omega (
          arith,
          ap length whole,
          length-append f (g ++ ((first ∷ others) ++ rest)),
          length-append g ((first ∷ others) ++ rest),
          length-append others rest,
          pos,
        ))

    whole_text :
        (t f g ds rest : Text) → t ≡ f ++ (g ++ (ds ++ rest)) → rest ≡ [] → t ≡ (f ++ g) ++ ds
    whole_text t f g ds rest whole ends =
        whole
        ∙ ap (λ l. f ++ (g ++ l)) (ap (λ l. ds ++ l) ends ∙ append-nil ds)
        ∙ sym (append_assoc f g ds)
