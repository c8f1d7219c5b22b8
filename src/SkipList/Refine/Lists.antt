-- ===== src/SkipList/Refine/Lists.antt =====
-- Parts of lists, and the tests of slDeleteByRank on ranks.
use skynet_slg.Prelude.{
  ℕ, zero, suc, ◌+◌, ◌-◌, ◌≤◌, ◌<◌, ◌≡◌, refl, sym, ap, ◌∙◌, arith, List, [], ◌∷◌, length, take,
  drop, map, ltb, lt→ltb, le→ltb,
}
use skynet_slg.SkipList.Walk.{Goes, Stops}

pub take-nil : {A : Type 0} (n : ℕ) → take {A = A} n [] ≡ []
take-nil zero = refl
take-nil (suc n) = refl

pub drop-nil : {A : Type 0} (n : ℕ) → drop {A = A} n [] ≡ []
drop-nil zero = refl
drop-nil (suc n) = refl

pub take-map :
    {A : Type 0} (f : ℕ → A) (n : ℕ) (xs : List ℕ) → map f (take n xs) ≡ take n (map f xs)
take-map f zero xs = refl
take-map f (suc n) [] = refl
take-map f (suc n) (x ∷ xs) = ap (λ l. f x ∷ l) (take-map f n xs)

pub drop-map :
    {A : Type 0} (f : ℕ → A) (n : ℕ) (xs : List ℕ) → map f (drop n xs) ≡ drop n (map f xs)
drop-map f zero xs = refl
drop-map f (suc n) [] = refl
drop-map f (suc n) (x ∷ xs) = drop-map f n xs

module _ (start : ℕ) where
  pub ranks-Goes :
      (p : ℕ) (ns : List ℕ) → p + length ns ≤ start - 1 → Goes (λ a r. ltb r start) p ns
  ranks-Goes p [] small = tt
  ranks-Goes p (a ∷ ns) small =
      (lt→ltb (suc p) start (omega (arith, small)), ranks-Goes (suc p) ns (omega (arith, small)))

  pub ranks-Stops :
      (p : ℕ) (ns : List ℕ) → (0 < length ns → start ≤ suc p) → Stops (λ a r. ltb r start) p ns
  ranks-Stops p [] large = tt
  ranks-Stops p (a ∷ ns) large =
      let here : start ≤ suc p = large (omega arith) in
      (le→ltb (suc p) start here, ranks-Stops (suc p) ns (λ more. omega (arith, here)))

-- Numbers do not matter where there is nothing.
module _ {A : Type 0} (n m : ℕ) where
  pub take-number : (xs : List A) → (0 < length xs → n ≡ m) → take n xs ≡ take m xs
  take-number [] e = take-nil {A = A} n ∙ sym (take-nil {A = A} m)
  take-number (x ∷ xs) e = ap (λ (k : ℕ). take k (x ∷ xs)) (e (omega arith))

  pub drop-number : (xs : List A) → (0 < length xs → n ≡ m) → drop n xs ≡ drop m xs
  drop-number [] e = drop-nil {A = A} n ∙ sym (drop-nil {A = A} m)
  drop-number (x ∷ xs) e = ap (λ (k : ℕ). drop k (x ∷ xs)) (e (omega arith))
