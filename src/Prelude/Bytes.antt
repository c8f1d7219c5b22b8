-- ===== src/Prelude/Bytes.antt =====
-- Lists of bytes, four bytes as a big-endian uint32_t, and access to lists by position.
use Prim.Native.Nat.{ℕ, zero, suc, ◌+◌, ◌*◌, ◌^◌, ◌<◌, bit_or}
use mathlib.Core.Path.{◌≡◌, refl}
use mathlib.Core.List.{List, [], ◌∷◌, ◌++◌}
use mathlib.Core.Bool.{Bool, true, false, ◌&&◌}
use native.Mathlib.Omega.{arith}
use skynet_slg.Prelude.Tests.{◌==◌, ==_iff}
use skynet_slg.Prelude.Lists.{get_or, take, drop, replicate}
use skynet_slg.Prelude.Word.{shl32}
use skynet_slg.Prelude.Bits.{bit_or_fields}

module _ {ℓ κ} {A : Type ℓ} (P : A → Type κ) where
  -- Every element has the property.
  abbrev pub All : List A → Type κ
  All [] = Unit
  All (x ∷ xs) = P x × All xs

module _ {ℓ κ} {A : Type ℓ} (P : A → Type κ) where
  pub All-append : (xs ys : List A) → All P xs → All P ys → All P (xs ++ ys)
  All-append [] ys h k = k
  All-append (x ∷ xs) ys h k = (h.0, All-append xs ys h.1 k)

  pub All-take : (n : ℕ) (xs : List A) → All P xs → All P (take n xs)
  All-take zero xs h = tt
  All-take (suc n) [] h = tt
  All-take (suc n) (x ∷ xs) h = (h.0, All-take n xs h.1)

  pub All-drop : (n : ℕ) (xs : List A) → All P xs → All P (drop n xs)
  All-drop zero xs h = h
  All-drop (suc n) [] h = tt
  All-drop (suc n) (x ∷ xs) h = All-drop n xs h.1

  pub All-get_or : (xs : List A) (i : ℕ) (d : A) → All P xs → P d → P (get_or xs i d)
  All-get_or [] i d h k = k
  All-get_or (x ∷ xs) zero d h k = h.0
  All-get_or (x ∷ xs) (suc i) d h k = All-get_or xs i d h.1 k

  pub All-replicate : (n : ℕ) (x : A) → P x → All P (replicate n x)
  All-replicate zero x h = tt
  All-replicate (suc n) x h = (h, All-replicate n x h)

abbrev pub IsByte : ℕ → Type 0
IsByte b = b < 256

abbrev pub IsBytes : List ℕ → Type 0
IsBytes bs = All IsByte bs

-- Four bytes as one number.
pub bytes_as_sum :
    (a b c d : ℕ)
    → a < 256
    → b < 256
    → c < 256
    → d < 256
    → bit_or (bit_or (bit_or (shl32 a 24) (shl32 b 16)) (shl32 c 8)) d
      ≡ a * 2 ^ 24 + b * 2 ^ 16 + c * 2 ^ 8 + d
bytes_as_sum a b c d ha hb hc hd = ground (
  arith,
  bit_or_fields 24 a (b * 2 ^ 16) (omega arith),
  bit_or_fields 16 (a * 2 ^ 8 + b) (c * 2 ^ 8) (omega arith),
  bit_or_fields 8 (a * 2 ^ 16 + b * 2 ^ 8 + c) d hd,
)

-- The comparison of two lists of numbers.
abbrev pub list_eq : List ℕ → List ℕ → Bool
list_eq [] [] = true
list_eq [] (y ∷ ys) = false
list_eq (x ∷ xs) [] = false
list_eq (x ∷ xs) (y ∷ ys) = x == y && list_eq xs ys

pub list_eq_self : (xs : List ℕ) → list_eq xs xs ≡ true
list_eq_self [] = refl
list_eq_self (x ∷ xs) = rw ((==_iff x x).1 refl) (list_eq_self xs)

pub eq-list_eq : (xs ys : List ℕ) → list_eq xs ys ≡ true → xs ≡ ys
eq-list_eq [] [] h = refl
eq-list_eq [] (y ∷ ys) h = cc
eq-list_eq (x ∷ xs) [] h = cc
eq-list_eq (x ∷ xs) (y ∷ ys) h = ground (arith, eq-list_eq xs ys)
