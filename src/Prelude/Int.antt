-- ===== src/Prelude/Int.antt =====
-- Signed integers over the native numbers, as far as the C code's `int` arguments need them.
use Prim.Native.Nat.{ℕ}
use skynet_slg.Prelude.{◌-◌, ◌%◌, ◌^◌, ltb, if◌then◌else◌}

-- `negsuc n` is -(n + 1).
pub data ℤ : Type 0 where
  pos : ℕ → ℤ
  negsuc : ℕ → ℤ

-- The conversion of an integer of 64 bits to `int`, which keeps the low 32 bits.
abbrev pub int32 : ℤ → ℤ
int32 (pos n) = let m = n % 2 ^ 32 in if ltb m (2 ^ 31) then pos m else negsuc (2 ^ 32 - 1 - m)
int32 (negsuc n) = let m = n % 2 ^ 32 in if ltb m (2 ^ 31) then negsuc m else pos (2 ^ 32 - 1 - m)
