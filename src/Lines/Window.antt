-- ===== src/Lines/Window.antt =====
-- The window of seven slots around the last move, against four in a line through it: the part that
-- is the same for the four directions.
use connectdisks.Prelude.{
  ℕ, zero, suc, ◌+◌, ◌-◌, ◌≤◌, ◌<◌, ◌≡◌, ◌⊎◌, ◌↔◌, subst, sym, ap, ◌∙◌, Bool, true, ◌&&◌, ◌||◌, inl,
  inr, arith, ◌==◌, ==→eq, ==→ne, eq→==, Bool-cases, ltb, ltb→lt, not_ltb→le,
}
use connectdisks.Board.{Board}
use connectdisks.Board.Cells.{owner}
use connectdisks.Lines.Four.{Direction, along, IsFour, Owns, Through, four_at}
use connectdisks.Lines.Scan.{window}

or_cases :
    (p q r s : Bool) → (p || q || r || s) ≡ true → (p ≡ true) ⊎ (q ≡ true) ⊎ (r ≡ true) ⊎ (s ≡ true)
or_cases p q r s h = ground arith

and_cases : (p q r : Bool) → (p && q && r) ≡ true → (p ≡ true) × (q ≡ true) × (r ≡ true)
and_cases p q r h = ground arith

-- The first `n` entries after entry 0 are set.
abbrev Set : (ℕ → Bool) → ℕ → Type 0
Set x n = (j : ℕ) → 0 < j → j ≤ n → x j ≡ true

Set_zero : (x : ℕ → Bool) → Set x 0
Set_zero x j l h = absurd (omega arith)

Set_suc : (x : ℕ → Bool) (n : ℕ) → Set x n → x (suc n) ≡ true → Set x (suc n)
Set_suc x n s e j l h = elim (Bool-cases (j == suc n)) [
  | inl same ↦ rw (==→eq j (suc n) same) e
  | inr other ↦ s j l (omega (arith, ==→ne j (suc n) other))
]

Set_one : (x : ℕ → Bool) → x 1 ≡ true → Set x 1
Set_one x = Set_suc x 0 (Set_zero x)

Set_two : (x : ℕ → Bool) → x 1 ≡ true → x 2 ≡ true → Set x 2
Set_two x e f = Set_suc x 1 (Set_one x e) f

Set_three : (x : ℕ → Bool) → x 1 ≡ true → x 2 ≡ true → x 3 ≡ true → Set x 3
Set_three x e f g = Set_suc x 2 (Set_two x e f) g

-- The window is set exactly if four entries in a row are, `k` of them in `y`.
window_split : (x y : ℕ → Bool) → window x y ≡ true → (k : ℕ) × (k < 4) × Set y k × Set x (3 - k)
window_split x y h =
    elim (or_cases (x 1 && x 2 && x 3) (y 1 && x 1 && x 2) (y 2 && y 1 && x 1) (y 3 && y 2 && y 1)
      h) [
        | inl t ↦
            let (p, q, r) = and_cases (x 1) (x 2) (x 3) t in
            (0, omega arith, Set_zero y, Set_three x p q r)
        | inr (inl t) ↦
            let (p, q, r) = and_cases (y 1) (x 1) (x 2) t in
            (1, omega arith, Set_one y p, Set_two x q r)
        | inr (inr (inl t)) ↦
            let (p, q, r) = and_cases (y 2) (y 1) (x 1) t in
            (2, omega arith, Set_two y q p, Set_one x r)
        | inr (inr (inr t)) ↦
            let (p, q, r) = and_cases (y 3) (y 2) (y 1) t in
            (3, omega arith, Set_three y r q p, Set_zero x)
      ]

window_join : (x y : ℕ → Bool) (k : ℕ) → k < 4 → Set y k → Set x (3 - k) → window x y ≡ true
window_join x y zero h t s = rw (
  s 1 (omega arith) (omega arith),
  s 2 (omega arith) (omega arith),
  s 3 (omega arith) (omega arith),
)
window_join x y (suc zero) h t s =
    let p = t 1 (omega arith) (omega arith) in
    let q = s 1 (omega arith) (omega arith) in
    let r = s 2 (omega arith) (omega arith) in ground arith
window_join x y (suc (suc zero)) h t s =
    let p = t 1 (omega arith) (omega arith) in
    let q = t 2 (omega arith) (omega arith) in
    let r = s 1 (omega arith) (omega arith) in ground arith
window_join x y (suc (suc (suc zero))) h t s =
    let p = t 1 (omega arith) (omega arith) in
    let q = t 2 (omega arith) (omega arith) in
    let r = t 3 (omega arith) (omega arith) in ground arith
window_join x y (suc (suc (suc (suc k)))) h t s = absurd (omega arith)

-- The window is symmetric: which of the two loops comes first does not matter.
pub window_comm : (x y : ℕ → Bool) → window x y ≡ window y x
window_comm x y = ground arith

-- `hi j` and `lo j` are the slots `j` steps from `slot` up and down the line. `align` says so of
-- every line through `slot`, and `found` that there is such a line where the ends are owned.
module _ (b : Board) (player : ℕ) (d : Direction) (slot : ℕ × ℕ) (hi lo : ℕ → ℕ × ℕ)
    (own : Owns b player slot)
    (align : (start : ℕ × ℕ) (k : ℕ)
      → k < 4
      → along d start k ≡ slot
      → ((j : ℕ) → j ≤ k → along d start (k - j) ≡ lo j)
        × ((j : ℕ) → k + j ≤ 3 → along d start (k + j) ≡ hi j))
    (found : (k : ℕ)
      → k < 4
      → (0 < k → Owns b player (lo k))
      → (k < 3 → Owns b player (hi (3 - k)))
      → (start : ℕ × ℕ) × (along d start k ≡ slot)) where
  owned_at : {p q : ℕ × ℕ} → p ≡ q → Owns b player q → Owns b player p
  owned_at e h = subst (Owns b player) (sym e) h

  abbrev marks : (ℕ → ℕ × ℕ) → ℕ → Bool
  marks f j = owner b (f j).0 (f j).1 == player

  IsFour-intro :
      (start : ℕ × ℕ) (k : ℕ)
      → k < 4
      → along d start k ≡ slot
      → Set (marks lo) k
      → Set (marks hi) (3 - k)
      → IsFour b player d start
  IsFour-intro start k h e l u =
      (at 0 (omega arith), at 1 (omega arith), at 2 (omega arith), at 3 (omega arith))
    where
      at : (m : ℕ) → m < 4 → Owns b player (along d start m)
      at m hm = elim (Bool-cases (ltb m k)) [
        | inl lt ↦
            let below = ltb→lt m k lt in
            owned_at
              (ap (along d start) (omega arith) ∙ (align start k h e).0 (k - m) (omega arith))
              (==→eq _ player (l (k - m) (omega arith) (omega arith)))
        | inr ge ↦ elim (Bool-cases (m == k)) [
          | inl same ↦ owned_at (ap (along d start) (==→eq m k same) ∙ e) own
          | inr other ↦
              let above : k < m = omega (arith, not_ltb→le m k ge, ==→ne m k other) in
              owned_at
                (ap (along d start) (omega arith) ∙ (align start k h e).1 (m - k) (omega arith))
                (==→eq _ player (u (m - k) (omega arith) (omega arith)))
        ]
      ]

  window_to : window (marks hi) (marks lo) ≡ true → Through b player slot d
  window_to w =
      let (k, h, l, u) = window_split (marks hi) (marks lo) w in
      let (start, e) =
        found k h (λ p. ==→eq _ player (l k p (omega arith)))
          (λ p. ==→eq _ player (u (3 - k) (omega arith) (omega arith))) in
      (start, k, h, e, IsFour-intro start k h e l u)

  window_from : Through b player slot d → window (marks hi) (marks lo) ≡ true
  window_from (start, k, h, e, f) =
      window_join (marks hi) (marks lo) k h
        (λ j l m. eq→== _ player (
          owned_at (sym ((align start k h e).0 j m))
            (four_at b player d start f (k - j) (omega arith))))
        (λ j l m. eq→== _ player (
          owned_at (sym ((align start k h e).1 j (omega arith)))
            (four_at b player d start f (k + j) (omega arith))))

  -- The window holds four in a row exactly if a line of four goes through the slot.
  pub window_iff : (window (marks hi) (marks lo) ≡ true) ↔ Through b player slot d
  window_iff = (window_to, window_from)
