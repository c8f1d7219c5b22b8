-- ===== src/Prelude/Word.antt =====
-- Casts of C to the fixed widths, and shifts, as arithmetic on ℕ.
use Prim.Native.Nat.{ℕ, ◌*◌, ◌/◌, ◌%◌, ◌^◌}

abbrev pub u8 : ℕ → ℕ
u8 n = n % 2 ^ 8

abbrev pub u32 : ℕ → ℕ
u32 n = n % 2 ^ 32

-- `x << k` of a uint32_t.
abbrev pub shl32 : ℕ → ℕ → ℕ
shl32 x k = u32 (x * 2 ^ k)

abbrev pub shr : ℕ → ℕ → ℕ
shr x k = x / 2 ^ k

abbrev pub u64 : ℕ → ℕ
u64 n = n % 2 ^ 64
