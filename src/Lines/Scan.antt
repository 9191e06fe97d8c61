-- ===== src/Lines/Scan.antt =====
-- One loop of `checkForWinner`, and two loops on either side of the last move, over a well-formed
-- board: what they return in terms of the owners along the line.
use connectdisks.Prelude.{
  ℕ, zero, suc, ◌+◌, ◌-◌, ◌≤◌, ◌<◌, ◌≡◌, ◌≢◌, ◌∙◌, ◌⊎◌, ne→==, refl, sym, Bool, true, false, ◌&&◌,
  ◌||◌, inl, inr, Result, ok, arith, leb, ◌==◌, if◌then◌else◌, Bool-cases, u8_max, ◌>>=◌,
}
use connectdisks.Board.{Board}
use connectdisks.Board.Cells.{IsValid, owner, owned_inside}
use connectdisks.Lines.{
  Motion, still, up, down, advance, goes_on, Chain, four, chain, scan, scan_from, either_side,
}

-- The coordinate `j` rounds on from `x`, without wrap-around: 255 is beyond every board.
abbrev pub coord : Motion → ℕ → ℕ → ℕ
coord still x j = x
coord up x j = x + j
coord down x j = if leb j x then x - j else u8_max

-- `q` is the `uint8_t` that a loop has reached in round `j`.
abbrev Tracks : Motion → ℕ → ℕ → ℕ → ℕ → Type 0
Tracks still limit x j q = q ≡ x
Tracks up limit x j q = (q ≡ x + j) × (x + j ≤ limit)
Tracks down limit x j q = (q ≡ coord down x j) × (j ≤ x + 1)

module _ (limit x : ℕ) (small : limit < 256) (inside : x < limit) where
  Tracks-start : (m : Motion) → Tracks m limit x 1 (advance m x)
  Tracks-start still = refl
  Tracks-start up = ground arith
  Tracks-start down = ground arith

  Tracks-next :
      (m : Motion) (j q : ℕ)
      → Tracks m limit x j q
      → goes_on m limit q ≡ true
      → (q ≡ coord m x j) × (coord m x j < limit) × Tracks m limit x (suc j) (advance m q)
  Tracks-next still j q t g = (t, inside, t)
  Tracks-next up j q t g = ground arith
  Tracks-next down j q t g = ground arith

  Tracks-end :
      (m : Motion) (j q : ℕ)
      → Tracks m limit x j q
      → goes_on m limit q ≡ false
      → limit ≤ coord m x j
  Tracks-end still j q t g = cc
  Tracks-end up j q t g = ground arith
  Tracks-end down j q t g = ground arith

-- The loop over the marks of a line: `mark j` says that the slot in round `j` is the player's.
walk : (ℕ → Bool) → ℕ → ℕ → ℕ → Chain
walk mark zero j count = chain count
walk mark (suc d) j count =
    let rest = walk mark d (suc j) (count + 1) in
    if mark j then (if count + 1 == 4 then four else rest) else chain count

walk_bounds :
    (mark : ℕ → Bool) (d j count n : ℕ)
    → count < 4
    → walk mark d j count ≡ chain n
    → (count ≤ n) × (n < 4)
unfolding walk
walk_bounds mark zero j count n h e = ground arith
walk_bounds mark (suc d) j count n h e = ground (arith, walk_bounds mark d (suc j) (count + 1) n)

is_four : Chain → Bool
is_four four = true
is_four (chain _) = false

as_result :
    (a : Chain)
    → ◌≡◌ {A = Result Bool} (elim a [ four ↦ ok true | chain _ ↦ ok false ]) (ok (is_four a))
unfolding is_four
as_result four = refl
as_result (chain n) = refl

walk_both : (ℕ → Bool) → (ℕ → Bool) → Bool
walk_both x y = elim (walk x 3 1 1) [ four ↦ true | chain count ↦ is_four (walk y 3 1 count) ]

-- Four in a row among the seven slots around the last move.
abbrev pub window : (ℕ → Bool) → (ℕ → Bool) → Bool
window x y =
    (x 1 && x 2 && x 3) || (y 1 && x 1 && x 2) || (y 2 && y 1 && x 1) || (y 3 && y 2 && y 1)

walk_both-window : (x y : ℕ → Bool) → walk_both x y ≡ window x y
unfolding walk_both walk is_four
walk_both-window x y = ground arith

window_four : (x y : ℕ → Bool) → walk x 3 1 1 ≡ four → window x y ≡ true
unfolding walk_both
window_four x y e = sym (walk_both-window x y) ∙ rw (e, walk_both)

window_chain :
    (x y : ℕ → Bool) (n : ℕ) → walk x 3 1 1 ≡ chain n → window x y ≡ is_four (walk y 3 1 n)
unfolding walk_both
window_chain x y n e = sym (walk_both-window x y) ∙ rw (e, walk_both)

module _ (b : Board) (player : ℕ) (v : IsValid b) (owned : player ≢ 0) (c r : ℕ)
    (hc : c < b.num_columns) (hr : r < b.num_rows) where
  -- Is the slot `j` steps from the last move the player's?
  abbrev pub mark : Motion → Motion → ℕ → Bool
  mark mc mr j = owner b (coord mc c j) (coord mr r j) == player

  -- What a loop needs of its reads: on its line, on the board, they give the owner.
  abbrev pub Reads : (ℕ → ℕ → Result ℕ) → Motion → Motion → Type 0
  Reads read mc mr =
      (j : ℕ)
      → coord mc c j < b.num_columns
      → coord mr r j < b.num_rows
      → read (coord mc c j) (coord mr r j) ≡ ok (owner b (coord mc c j) (coord mr r j))

  mark_beyond :
      (mc mr : Motion) (j : ℕ)
      → (b.num_columns ≤ coord mc c j) ⊎ (b.num_rows ≤ coord mr r j)
      → mark mc mr j ≡ false
  mark_beyond mc mr j off = ne→== (owner b (coord mc c j) (coord mr r j)) player (λ e.
      let (x, y, _) = owned_inside b v (coord mc c j) (coord mr r j) (λ z. owned (sym e ∙ z)) in
      elim off [ inl l ↦ omega arith | inr l ↦ omega arith ])

  module _ (read : ℕ → ℕ → Result ℕ) (mc mr : Motion) (reads : Reads read mc mr) where
    scan-walk :
        (fuel j col row count : ℕ)
        → Tracks mc b.num_columns c j col
        → Tracks mr b.num_rows r j row
        → count < 4
        → 4 ≤ count + fuel
        → scan b read player mc mr fuel col row count ≡ ok (walk (mark mc mr) fuel j count)
    unfolding scan walk
    scan-walk zero j col row count tc tr h k = absurd (omega arith)
    scan-walk (suc fuel) j col row count tc tr h k = elim (Bool-cases (goes_on mr b.num_rows row)) [
      | inr stop ↦
          rw (stop, mark_beyond mc mr j (inr (Tracks-end b.num_rows r small hr mr j row tr stop)))
      | inl on_row ↦ elim (Bool-cases (goes_on mc b.num_columns col)) [
        | inr stop ↦ rw (
          on_row,
          stop,
          mark_beyond mc mr j (inl (Tracks-end b.num_columns c v.wide hc mc j col tc stop)),
        )
        | inl on_col ↦
            let (ec, ic, tc') = Tracks-next b.num_columns c v.wide hc mc j col tc on_col in
            let (er, ir, tr') = Tracks-next b.num_rows r small hr mr j row tr on_row in
            let here : read col row ≡ ok (owner b (coord mc c j) (coord mr r j)) =
              rw (ec, er) (reads j ic ir) in
            rw (on_row, on_col, here)
              (ground (
                arith,
                scan-walk fuel (suc j) (advance mc col) (advance mr row) (count + 1) tc' tr',
              ))
      ]
    ]
      where
        small : b.num_rows < 256
        small = omega (arith, v.wide, v.low)

    scan_from-walk :
        (count : ℕ)
        → 1 ≤ count
        → count < 4
        → scan_from b read player mc mr (c, r) count ≡ ok (walk (mark mc mr) 3 1 count)
    unfolding scan_from
    scan_from-walk count l h =
        scan-walk 3 1 (advance mc c) (advance mr r) count
          (Tracks-start b.num_columns c v.wide hc mc)
          (Tracks-start b.num_rows r (omega (arith, v.wide, v.low)) hr mr) h (omega arith)

  -- Two loops from the last move find four pieces exactly if the window of seven slots holds four in
  -- a row.
  pub either_side-window :
      (read : ℕ → ℕ → Result ℕ) (mc mr mc' mr' : Motion)
      → Reads read mc mr
      → Reads read mc' mr'
      → either_side (scan_from b read player mc mr (c, r)) (scan_from b read player mc' mr' (c, r))
        ≡ ok (window (mark mc mr) (mark mc' mr'))
  unfolding either_side
  either_side-window read mc mr mc' mr' reads reads' =
      rw (scan_from-walk read mc mr reads 1 (omega arith) (omega arith))
        (go (walk (mark mc mr) 3 1 1) refl)
    where
      go :
          (first : Chain)
          → walk (mark mc mr) 3 1 1 ≡ first
          → (elim first [
            | four ↦ ok true
            | chain count ↦ scan_from b read player mc' mr' (c, r) count >>= λ a. elim a [
              | four ↦ ok true
              | chain _ ↦ ok false
            ]
          ])
            ≡ ok (window (mark mc mr) (mark mc' mr'))
      go four e = rw (window_four (mark mc mr) (mark mc' mr') e)
      go (chain n) e =
          let (l, h) = walk_bounds (mark mc mr) 3 1 1 n (omega arith) e in
          rw (
            scan_from-walk read mc' mr' reads' n l h,
            window_chain (mark mc mr) (mark mc' mr') n e,
            as_result (walk (mark mc' mr') 3 1 n),
          )
