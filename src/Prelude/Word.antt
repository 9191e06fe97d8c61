-- ===== src/Prelude/Word.antt =====
-- `uint8_t` and `uint32_t` arithmetic, wrap-around written out.
use Prim.Native.Nat.{ℕ, ◌+◌, ◌%◌, ◌^◌}

-- `static_cast<uint8_t>(n)`.
abbrev pub u8 : ℕ → ℕ
u8 n = n % 256

-- `static_cast<uint8_t>(n - 1)` of a byte.
abbrev pub u8_pred : ℕ → ℕ
u8_pred n = (n + 255) % 256

-- `static_cast<uint8_t>(-1)`.
abbrev pub u8_max : ℕ
u8_max = 255

-- `static_cast<uint32_t>(n)`.
abbrev pub u32 : ℕ → ℕ
u32 n = n % 2 ^ 32
