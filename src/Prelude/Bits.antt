-- ===== src/Prelude/Bits.antt =====
-- Laws of the native `bit_and`, `bit_or` and `bit_xor` at variables: one equation for the lowest
-- digit each, and what the word operations of the C code need of them.
mod Step
pub use Step.{bit_or_step, bit_and_step, bit_xor_step}
use Prim.Native.Nat.{ℕ, zero, suc, ◌+◌, ◌-◌, ◌*◌, ◌/◌, ◌%◌, ◌^◌, ◌≤◌, ◌<◌, bit_and, bit_or, bit_xor}
use Prim.Native.Nat.{bit_or-bitwise, bit_xor-bitwise}
use mathlib.Core.Path.{◌≡◌, refl, ap, ◌∙◌}
use mathlib.Core.WellFounded
use native.Mathlib.Nat.{pow-suc, one-le-pow}
use native.Mathlib.Omega.{arith}
use skynet_slg.Prelude.Order.{lt_wf}

-- Induction from the half of a number to the number.
by_halves : (C : ℕ → Type 0) → C 0 → ((n : ℕ) → C (suc n / 2) → C (suc n)) → (n : ℕ) → C n
by_halves C base up n = WellFounded.induction lt_wf {C = C} n go
  where
    go : (n : ℕ) → ((k : ℕ) → k < n → C k) → C n
    go zero below = base
    go (suc n) below = up n (below (suc n / 2) (omega arith))

pub bit_or-zero : (a : ℕ) → bit_or a 0 ≡ a
bit_or-zero =
    by_halves (λ n. bit_or n 0 ≡ n) refl (λ n ih. omega (arith, bit_or_step (suc n) 0, ih))

pub bit_and-zero : (a : ℕ) → bit_and a 0 ≡ 0
bit_and-zero =
    by_halves (λ n. bit_and n 0 ≡ 0) refl (λ n ih. omega (arith, bit_and_step (suc n) 0, ih))

zero-or : (a : ℕ) → bit_or 0 a ≡ a
zero-or a = bit_or-bitwise 0 a

shift-suc : (high w : ℕ) → high * 2 ^ suc w ≡ 2 * (high * 2 ^ w)
shift-suc high w = omega (arith, ap (λ (p : ℕ). high * p) (pow-suc 2 w))

-- `(high << w) | low`, where `low` has `w` bits, is a sum.
pub bit_or_fields : (w high low : ℕ) → low < 2 ^ w → bit_or (high * 2 ^ w) low ≡ high * 2 ^ w + low
bit_or_fields zero high low small = ground (arith, bit_or-zero high)
bit_or_fields (suc w) high low small =
    let halves = bit_or_fields w high (low / 2) (omega (arith, pow-suc 2 w)) in
    ground (arith, shift-suc high w, bit_or_step (high * 2 ^ suc w) low, halves)

pub or_comm : (a b : ℕ) → bit_or a b ≡ bit_or b a
or_comm a =
    WellFounded.induction lt_wf {C = λ n. (b : ℕ) → bit_or n b ≡ bit_or b n} a λ n ih. step n ih
  where
    step :
        (n : ℕ)
        → ((m : ℕ) → m < n → (b : ℕ) → bit_or m b ≡ bit_or b m)
        → (b : ℕ) → bit_or n b ≡ bit_or b n
    step zero ih b = rw (bit_or-zero b, zero-or b)
    step (suc n) ih b =
        omega (
          arith,
          bit_or_step (suc n) b,
          bit_or_step b (suc n),
          ih (suc n / 2) (omega arith) (b / 2),
        )

-- `r | (q << k)`.
pub bit_or_fields_high : (k q r : ℕ) → r < 2 ^ k → bit_or r (q * 2 ^ k) ≡ q * 2 ^ k + r
bit_or_fields_high k q r fits = or_comm r (q * 2 ^ k) ∙ bit_or_fields k q r fits

bit_and_fields : (w high low : ℕ) → low < 2 ^ w → bit_and (high * 2 ^ w + low) (2 ^ w - 1) ≡ low
bit_and_fields zero high low small = omega (arith, bit_and-zero (high * 2 ^ 0 + low))
bit_and_fields (suc w) high low small =
    let halves = bit_and_fields w high (low / 2) (omega (arith, pow-suc 2 w)) in
    ground (
      arith,
      pow-suc 2 w,
      shift-suc high w,
      bit_and_step (high * 2 ^ suc w + low) (2 ^ suc w - 1),
      halves,
    )

-- `&` with `w` low bits leaves the remainder by `2 ^ w`.
pub bit_and_mask : (w n : ℕ) → bit_and n (2 ^ w - 1) ≡ n % 2 ^ w
bit_and_mask w n = ground (arith, one-le-pow w 2, bit_and_fields w (n / 2 ^ w) (n % 2 ^ w))

pub bit_and-le : (m a : ℕ) → bit_and a m ≤ m
bit_and-le m = WellFounded.induction lt_wf {C = λ n. (a : ℕ) → bit_and a n ≤ n} m λ n ih. step n ih
  where
    step : (n : ℕ) → ((m : ℕ) → m < n → (a : ℕ) → bit_and a m ≤ m) → (a : ℕ) → bit_and a n ≤ n
    step zero ih a = omega (arith, bit_and-zero a)
    step (suc n) ih a = omega (arith, bit_and_step a (suc n), ih (suc n / 2) (omega arith) (a / 2))

-- Exclusive or, by strong induction on the first argument.
module _ where
  pub xor-half : (a b : ℕ) → bit_xor a b / 2 ≡ bit_xor (a / 2) (b / 2)
  xor-half a b = omega (arith, bit_xor_step a b)

  pub xor-low : (a b : ℕ) → bit_xor a b % 2 ≡ (a + b) % 2
  xor-low a b = omega (arith, bit_xor_step a b)

zero-xor : (a : ℕ) → bit_xor 0 a ≡ a
zero-xor a = bit_xor-bitwise 0 a

-- Two numbers with the same halves and the same last digits are equal.
by_digits : (a b : ℕ) → a / 2 ≡ b / 2 → a % 2 ≡ b % 2 → a ≡ b
by_digits a b h l = omega arith

pub xor_self : (a : ℕ) → bit_xor a a ≡ 0
xor_self =
    by_halves (λ n. bit_xor n n ≡ 0) refl (λ n ih. omega (arith, bit_xor_step (suc n) (suc n), ih))

pub xor-zero : (a : ℕ) → bit_xor a 0 ≡ a
xor-zero = by_halves (λ n. bit_xor n 0 ≡ n) refl (λ n ih. omega (arith, bit_xor_step (suc n) 0, ih))

pub xor_assoc : (a b c : ℕ) → bit_xor (bit_xor a b) c ≡ bit_xor a (bit_xor b c)
xor_assoc a =
    WellFounded.induction lt_wf
      {C = λ n. (b c : ℕ) → bit_xor (bit_xor n b) c ≡ bit_xor n (bit_xor b c)} a λ n ih. step n ih
  where
    step :
        (n : ℕ)
        → ((m : ℕ) → m < n → (b c : ℕ) → bit_xor (bit_xor m b) c ≡ bit_xor m (bit_xor b c))
        → (b c : ℕ) → bit_xor (bit_xor n b) c ≡ bit_xor n (bit_xor b c)
    step zero ih b c = rw (zero-xor b, zero-xor (bit_xor b c))
    step (suc n) ih b c = ground (
      arith,
      bit_xor_step (bit_xor (suc n) b) c,
      bit_xor_step (suc n) (bit_xor b c),
      bit_xor_step (suc n) b,
      bit_xor_step b c,
      xor-half (suc n) b,
      xor-half b c,
      ih (suc n / 2) (omega arith) (b / 2) (c / 2),
    )

pub xor_comm : (a b : ℕ) → bit_xor a b ≡ bit_xor b a
xor_comm a =
    WellFounded.induction lt_wf {C = λ n. (b : ℕ) → bit_xor n b ≡ bit_xor b n} a λ n ih. step n ih
  where
    step :
        (n : ℕ)
        → ((m : ℕ) → m < n → (b : ℕ) → bit_xor m b ≡ bit_xor b m)
        → (b : ℕ) → bit_xor n b ≡ bit_xor b n
    step zero ih b = rw (xor-zero b, zero-xor b)
    step (suc n) ih b = omega (
      arith,
      bit_xor_step (suc n) b,
      bit_xor_step b (suc n),
      ih (suc n / 2) (omega arith) (b / 2),
    )

-- `(a ^ b) ^ b` is `a`.
pub xor_cancel : (a b : ℕ) → bit_xor (bit_xor a b) b ≡ a
xor_cancel a b = rw (xor_assoc a b b, xor_self b, xor-zero a)

pub xor-lt : (k a b : ℕ) → a < 2 ^ k → b < 2 ^ k → bit_xor a b < 2 ^ k
xor-lt zero zero b ha hb = rw (zero-xor b) hb
xor-lt zero (suc a) b ha hb = absurd (omega arith)
xor-lt (suc k) a b ha hb = omega (
  arith,
  pow-suc 2 k,
  bit_xor_step a b,
  xor-lt k (a / 2) (b / 2) (omega (arith, pow-suc 2 k)) (omega (arith, pow-suc 2 k)),
)
