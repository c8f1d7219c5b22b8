-- ===== src/SkipList/Shape/Drop.antt =====
-- The loop at the end of slDeleteNode, which lowers sl->level.
use native.Mathlib.Decide.{dec_lt}
use skynet_slg.Prelude.{ℕ, zero, suc, ◌≤◌, ◌<◌, ◌≡◌, arith, none, inl, inr, Option-cases}
use skynet_slg.SkipList.{Levels, header}
use skynet_slg.SkipList.Change.{drop_levels}

-- What sl->level is lowered to.
module _ (levels : Levels) where
  pub drop_levels-le : (n : ℕ) → drop_levels levels n ≤ n
  unfolding drop_levels
  drop_levels-le zero = omega arith
  drop_levels-le (suc zero) = omega arith
  drop_levels-le (suc (suc n)) = elim (Option-cases (levels header (suc n)).forward) [
    | inl e ↦ rw (drop_levels, e) (omega (arith, drop_levels-le (suc n)))
    | inr (f, e) ↦ rw (drop_levels, e) (omega arith)
  ]

  pub drop_levels-some : (n : ℕ) → 0 < n → 0 < drop_levels levels n
  unfolding drop_levels
  drop_levels-some zero p = p
  drop_levels-some (suc zero) p = omega arith
  drop_levels-some (suc (suc n)) p = elim (Option-cases (levels header (suc n)).forward) [
    | inl e ↦ rw (drop_levels, e) (drop_levels-some (suc n) (omega arith))
    | inr (f, e) ↦ rw (drop_levels, e) (omega arith)
  ]

  pub drop_levels-none :
      (n i : ℕ) → drop_levels levels n ≤ i → i < n → (levels header i).forward ≡ none
  unfolding drop_levels
  drop_levels-none zero i p q = absurd (omega (arith, q))
  drop_levels-none (suc zero) i p q = absurd (omega (arith, p, q))
  drop_levels-none (suc (suc n)) i p q = elim (Option-cases (levels header (suc n)).forward) [
    | inl e ↦ elim (dec_lt i (suc n)) [
      | yes below ↦ drop_levels-none (suc n) i (rw (drop_levels, e) at p) below
      | no not_below ↦ let here : i ≡ suc n = omega (arith, q) in rw here e
    ]
    | inr (f, e) ↦
        let over : suc (suc n) ≤ i = rw (drop_levels, e) at p in absurd (omega (arith, over, q))
  ]
