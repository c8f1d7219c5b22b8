-- ===== src/Prelude/Slices.antt =====
-- Laws of `take` and `drop` of lists over the native numbers.
use Prim.Native.Nat.{ℕ, zero, suc, ◌+◌, ◌≤◌}
use mathlib.Core.Path.{◌≡◌, refl, ap}
use mathlib.Core.List.{List, [], ◌∷◌, ◌++◌}
use native.Mathlib.Omega.{arith}
use skynet_slg.Prelude.Lists.{length, take, drop}

module _ {ℓ} {A : Type ℓ} where
  pub take-eq_self : (n : ℕ) (xs : List A) → length xs ≤ n → take n xs ≡ xs
  take-eq_self zero [] h = refl
  take-eq_self zero (x ∷ xs) h = absurd (omega arith)
  take-eq_self (suc n) [] h = refl
  take-eq_self (suc n) (x ∷ xs) h = ap (λ l. x ∷ l) (take-eq_self n xs (omega arith))

  pub take-append : (n : ℕ) (xs ys : List A) → length xs ≡ n → take n (xs ++ ys) ≡ xs
  take-append zero [] ys e = refl
  take-append zero (x ∷ xs) ys e = absurd (omega arith)
  take-append (suc n) [] ys e = absurd (omega arith)
  take-append (suc n) (x ∷ xs) ys e = ap (λ l. x ∷ l) (take-append n xs ys (omega arith))

  pub drop-append : (n : ℕ) (xs ys : List A) → length xs ≡ n → drop n (xs ++ ys) ≡ ys
  drop-append zero [] ys e = refl
  drop-append zero (x ∷ xs) ys e = absurd (omega arith)
  drop-append (suc n) [] ys e = absurd (omega arith)
  drop-append (suc n) (x ∷ xs) ys e = drop-append n xs ys (omega arith)

  pub drop-eq_nil : (n : ℕ) (xs : List A) → length xs ≤ n → drop n xs ≡ []
  drop-eq_nil zero [] h = refl
  drop-eq_nil zero (x ∷ xs) h = absurd (omega arith)
  drop-eq_nil (suc n) [] h = refl
  drop-eq_nil (suc n) (x ∷ xs) h = drop-eq_nil n xs (omega arith)

  -- A prefix in two parts.
  pub take-add : (a b c : ℕ) (xs : List A) → a + b ≡ c → take a xs ++ take b (drop a xs) ≡ take c xs
  take-add zero b c xs e = ap (λ n. take n xs) (omega arith)
  take-add (suc a) b zero xs e = absurd (omega arith)
  take-add (suc a) zero (suc c) [] e = refl
  take-add (suc a) (suc b) (suc c) [] e = refl
  take-add (suc a) b (suc c) (x ∷ xs) e = ap (λ l. x ∷ l) (take-add a b c xs (omega arith))
