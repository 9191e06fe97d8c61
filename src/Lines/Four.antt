-- ===== src/Lines/Four.antt =====
-- What a win is, said without the loops of `checkForWinner`: four slots in a line.
use connectdisks.Prelude.{ℕ, zero, suc, ◌+◌, ◌-◌, ◌<◌, ◌≡◌, subst, arith}
use connectdisks.Board.{Board}
use connectdisks.Board.Cells.{owner}

pub data Direction : Type 0 where
  vertical horizontal rising falling : Direction

-- The slot `k` columns or rows on from the lower left corner `start` of the four.
abbrev pub along : Direction → ℕ × ℕ → ℕ → ℕ × ℕ
along vertical (c, r) k = (c, r + k)
along horizontal (c, r) k = (c + k, r)
along rising (c, r) k = (c + k, r + k)
along falling (c, r) k = (c + k, r + (3 - k))

abbrev pub Owns : Board → ℕ → ℕ × ℕ → Type 0
Owns b player (c, r) = owner b c r ≡ player

abbrev pub IsFour : Board → ℕ → Direction → ℕ × ℕ → Type 0
IsFour b player d start =
    Owns b player (along d start 0)
    × Owns b player (along d start 1)
    × Owns b player (along d start 2)
    × Owns b player (along d start 3)

-- Somewhere on the board `player` has four in a line.
abbrev pub HasFour : Board → ℕ → Type 0
HasFour b player = (d : Direction) × (start : ℕ × ℕ) × IsFour b player d start

-- Four in a line of `player` that go through `slot`, in the direction `d`.
abbrev pub Through : Board → ℕ → ℕ × ℕ → Direction → Type 0
Through b player slot d =
    (start : ℕ × ℕ) × (k : ℕ) × (k < 4) × (along d start k ≡ slot) × IsFour b player d start

pub four_at :
    (b : Board) (player : ℕ) (d : Direction) (start : ℕ × ℕ)
    → IsFour b player d start
    → (k : ℕ) → k < 4
    → Owns b player (along d start k)
four_at b player d start f zero h = f.0
four_at b player d start f (suc zero) h = f.1
four_at b player d start f (suc (suc zero)) h = f.2
four_at b player d start f (suc (suc (suc zero))) h = f.3
four_at b player d start f (suc (suc (suc (suc k)))) h = absurd (omega arith)

pub Through-Owns :
    (b : Board) (player : ℕ) (slot : ℕ × ℕ) (d : Direction)
    → Through b player slot d
    → Owns b player slot
Through-Owns b player slot d (start, k, h, e, f) =
    subst (Owns b player) e (four_at b player d start f k h)
