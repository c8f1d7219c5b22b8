-- ===== src/Prelude/Bits/Step.antt =====
-- The digit that an operation on bits takes off: `bit_or`, `bit_and` and `bit_xor` are `bitwise` of
-- an operation on digits, which recurses on fuel. Fuel beyond the first number changes nothing.
use Prim.Native.Nat.{ℕ, zero, suc, ◌+◌, ◌*◌, ◌/◌, ◌%◌, ◌≤◌, ◌<◌, min, max, digits, bitwise, differ}
use Prim.Native.Nat.{bit_and, bit_or, bit_xor, bit_and-bitwise, bit_or-bitwise, bit_xor-bitwise}
use mathlib.Core.Path.{◌≡◌, refl, ap, ◌∙◌}
use native.Mathlib.Decide.{dec_lt}
use native.Mathlib.Omega.{arith}

module _ (at_zero : ℕ → ℕ) (digit : ℕ → ℕ → ℕ) where
  one_more :
      (fuel x y : ℕ)
      → x ≤ fuel
      → digits at_zero digit (suc fuel) x y ≡ digits at_zero digit fuel x y
  one_more zero zero y enough = refl
  one_more zero (suc x) y enough = absurd (omega arith)
  one_more (suc fuel) zero y enough = refl
  one_more (suc fuel) (suc x) y enough = rw (one_more fuel (suc x / 2) (y / 2) (omega arith))

  settled : (fuel x y : ℕ) → x ≤ fuel → digits at_zero digit fuel x y ≡ digits at_zero digit x x y
  settled zero x y enough =
      let e : 0 ≡ x = omega arith in ap (λ (k : ℕ). digits at_zero digit k x y) e
  settled (suc fuel) x y enough = elim (dec_lt fuel x) [
    | yes all ↦ let e : suc fuel ≡ x = omega arith in ap (λ (k : ℕ). digits at_zero digit k x y) e
    | no less ↦ one_more fuel x y (omega arith) ∙ settled fuel x y (omega arith)
  ]

  lowest :
      (x y : ℕ)
      → bitwise at_zero digit (suc x) y
        ≡ bitwise at_zero digit (suc x / 2) (y / 2) * 2 + digit (suc x % 2) (y % 2)
  lowest x y = omega (arith, settled x (suc x / 2) (y / 2) (omega arith))

pub bit_or_step : (x y : ℕ) → bit_or x y ≡ bit_or (x / 2) (y / 2) * 2 + max (x % 2) (y % 2)
bit_or_step zero y = simp bit_or-bitwise (omega arith)
bit_or_step (suc x) y = simp bit_or-bitwise (lowest (λ n. n) max x y)

-- `differ` of two digits.
odd_sum : (d e : ℕ) → d < 2 → e < 2 → differ d e ≡ (d + e) % 2
odd_sum zero e small less = omega arith
odd_sum (suc zero) zero small less = refl
odd_sum (suc zero) (suc zero) small less = refl
odd_sum (suc zero) (suc (suc e)) small less = absurd (omega arith)
odd_sum (suc (suc d)) e small less = absurd (omega arith)

pub bit_xor_step : (x y : ℕ) → bit_xor x y ≡ bit_xor (x / 2) (y / 2) * 2 + (x + y) % 2
bit_xor_step zero y = simp bit_xor-bitwise (omega arith)
bit_xor_step (suc x) y = simp bit_xor-bitwise (
    omega
      (arith, lowest (λ n. n) differ x y, odd_sum (suc x % 2) (y % 2) (omega arith) (omega arith)))

pub bit_and_step : (x y : ℕ) → bit_and x y ≡ bit_and (x / 2) (y / 2) * 2 + min (x % 2) (y % 2)
bit_and_step zero y = simp bit_and-bitwise (omega arith)
bit_and_step (suc x) y = simp bit_and-bitwise (lowest (λ n. 0) min x y)
