-- ===== src/Lines/Checks.antt =====
-- The four checks of `checkForWinner` decide whether a line of four goes through the last move.
use connectdisks.Prelude.{
  ℕ, zero, suc, ◌+◌, ◌-◌, ◌≤◌, ◌<◌, ◌≡◌, ◌≢◌, ◌∙◌, ◌↔◌, sym, ap, Bool, true, Result, ok, arith,
  ◌==◌, index,
}
use connectdisks.Board.{Board}
use connectdisks.Board.{get_disk_owner_at}
use connectdisks.Board.Cells.{
  IsValid, owner, slots, owned_inside, get_column-slots, index-slots, get_disk_owner_at-owner,
}
use connectdisks.Board.Rows.{get_row_lem}
use connectdisks.Lines.{
  Motion, still, up, down, check_column, check_row, check_rising, check_falling,
}
use connectdisks.Lines.Four.{Direction, vertical, horizontal, rising, falling, along, Owns, Through}
use connectdisks.Lines.Scan.{coord, mark, window, Reads, either_side-window}
use connectdisks.Lines.Window.{window_iff, window_comm}

-- The motions that lead up and down the line.
abbrev hi_motion : Direction → Motion × Motion
hi_motion vertical = (still, up)
hi_motion horizontal = (up, still)
hi_motion rising = (up, up)
hi_motion falling = (up, down)

abbrev lo_motion : Direction → Motion × Motion
lo_motion vertical = (still, down)
lo_motion horizontal = (down, still)
lo_motion rising = (down, down)
lo_motion falling = (down, up)

-- A check returns, and says whether a line of four in its direction goes through the slot.
abbrev pub Decides : Board → ℕ → ℕ × ℕ → Direction → Result Bool → Type 0
Decides b player slot d result =
    (answer : Bool) × (result ≡ ok answer) × ((answer ≡ true) ↔ Through b player slot d)

module _ (b : Board) (player : ℕ) (v : IsValid b) (owned : player ≢ 0) (c r : ℕ)
    (hc : c < b.num_columns) (hr : r < b.num_rows) (own : owner b c r ≡ player) where
  abbrev hi : Direction → ℕ → ℕ × ℕ
  hi d j = (coord (hi_motion d).0 c j, coord (hi_motion d).1 r j)

  abbrev lo : Direction → ℕ → ℕ × ℕ
  lo d j = (coord (lo_motion d).0 c j, coord (lo_motion d).1 r j)

  align :
      (d : Direction) (start : ℕ × ℕ) (k : ℕ)
      → k < 4
      → along d start k ≡ (c, r)
      → ((j : ℕ) → j ≤ k → along d start (k - j) ≡ lo d j)
        × ((j : ℕ) → k + j ≤ 3 → along d start (k + j) ≡ hi d j)
  align vertical (c', r') k h e = (λ j l. ground arith, λ j l. ground arith)
  align horizontal (c', r') k h e = (λ j l. ground arith, λ j l. ground arith)
  align rising (c', r') k h e = (λ j l. ground arith, λ j l. ground arith)
  align falling (c', r') k h e = (λ j l. ground arith, λ j l. ground arith)

  -- An owned slot down the line lies on the board, so its coordinates did not wrap.
  low_row : (j c' : ℕ) → (0 < j → Owns b player (c', coord down r j)) → j ≤ r
  low_row zero c' h = omega arith
  low_row (suc j) c' h =
      let e = h (omega arith) in
      let (_, low, _) = owned_inside b v c' (coord down r (suc j)) (λ z. owned (sym e ∙ z)) in
      ground (arith, v.wide, v.low)

  low_column : (j r' : ℕ) → (0 < j → Owns b player (coord down c j, r')) → j ≤ c
  low_column zero r' h = omega arith
  low_column (suc j) r' h =
      let e = h (omega arith) in
      let (low, _, _) = owned_inside b v (coord down c (suc j)) r' (λ z. owned (sym e ∙ z)) in
      ground (arith, v.wide)

  found :
      (d : Direction) (k : ℕ)
      → k < 4
      → (0 < k → Owns b player (lo d k))
      → (k < 3 → Owns b player (hi d (3 - k)))
      → (start : ℕ × ℕ) × (along d start k ≡ (c, r))
  found vertical k h l u = let m = low_row k c l in ((c, r - k), ground arith)
  found horizontal k h l u = let m = low_column k r l in ((c - k, r), ground arith)
  found rising k h l u =
      let m = low_row k (coord down c k) l in
      let n = low_column k (coord down r k) l in ((c - k, r - k), ground arith)
  found falling k h l u =
      let m = low_row (3 - k) (c + (3 - k)) (λ p. u (omega arith)) in
      let n = low_column k (r + k) l in ((c - k, r + k - 3), ground arith)

  window_of : Direction → (ℕ → ℕ × ℕ) → (ℕ → ℕ × ℕ) → Bool
  window_of d x y =
      window (λ j. owner b (x j).0 (x j).1 == player) (λ j. owner b (y j).0 (y j).1 == player)

  window-Decides :
      (d : Direction) (result : Result Bool)
      → result ≡ ok (window_of d (hi d) (lo d))
      → Decides b player (c, r) d result
  unfolding window_of
  window-Decides d result e = (
    window_of d (hi d) (lo d),
    e,
    window_iff b player d (c, r) (hi d) (lo d) own (align d) (found d),
  )

  pub check_column-Decides : Decides b player (c, r) vertical (check_column b player (c, r))
  unfolding check_column window_of
  check_column-Decides = window-Decides vertical _ (
      rw (get_column-slots b v c hc) (
        either_side-window b player v owned c r hc hr (λ x y. index (slots b c) y) still up still
          down (λ j x y. index-slots b v c (coord up r j) hc y)
          (λ j x y. index-slots b v c (coord down r j) hc y)))

  pub check_row-Decides : Decides b player (c, r) horizontal (check_row b player (c, r))
  unfolding check_row window_of
  check_row-Decides =
      let (copy, returns, _, _, same) = (get_row_lem b r v).0 hr in
      let reads =
        λ (x : ℕ) (h : x < b.num_columns). same x h ∙ get_disk_owner_at-owner b v x r h hr in
      window-Decides horizontal _ (
        rw returns (
          either_side-window b player v owned c r hc hr (λ x y. index copy x) up still down still
            (λ j x y. reads (coord up c j) x) (λ j x y. reads (coord down c j) x)))

  diagonal : (mc mr : Motion) → Reads b player v owned c r hc hr (get_disk_owner_at b) mc mr
  diagonal mc mr j x y = get_disk_owner_at-owner b v (coord mc c j) (coord mr r j) x y

  pub check_rising-Decides : Decides b player (c, r) rising (check_rising b player (c, r))
  unfolding check_rising window_of
  check_rising-Decides = window-Decides rising _ (
      either_side-window b player v owned c r hc hr (get_disk_owner_at b) up up down down
        (diagonal up up) (diagonal down down))

  pub check_falling-Decides : Decides b player (c, r) falling (check_falling b player (c, r))
  unfolding check_falling window_of
  check_falling-Decides = window-Decides falling _ (
      either_side-window b player v owned c r hc hr (get_disk_owner_at b) down up up down
        (diagonal down up) (diagonal up down)
      ∙ ap ok (
          window_comm (mark b player v owned c r hc hr down up)
            (mark b player v owned c r hc hr up down)))
