-- ===== src/SkipList/Shape/Loops.antt =====
-- What a loop over the levels does, when its body changes one level only.
use native.Mathlib.Decide.{dec_lt}
use skynet_slg.Prelude.{
  ℕ, zero, suc, ◌+◌, ◌≤◌, ◌<◌, ◌≡◌, ◌≢◌, refl, sym, ap, ◌∙◌, arith, ==_iff, ==-eq_false,
}
use skynet_slg.SkipList.{Level, Levels, set_level, set_trail, Trail, header}
use skynet_slg.SkipList.Change.{
  for_levels, grow_level, link_level, widen_level, unlink_level, grow_trail,
}

pub set_level_self : (levels : Levels) (a i : ℕ) (l : Level) → set_level levels a i l a i ≡ l
unfolding set_level
set_level_self levels a i l = rw ((==_iff a a).1 refl, (==_iff i i).1 refl)

pub set_level-index :
    (levels : Levels) (a i : ℕ) (l : Level) (b j : ℕ)
    → j ≢ i
    → set_level levels a i l b j ≡ levels b j
unfolding set_level
set_level-index levels a i l b j ne = rw (==-eq_false j i ne) (ground arith)

pub set_level-node :
    (levels : Levels) (a i : ℕ) (l : Level) (b j : ℕ)
    → b ≢ a
    → set_level levels a i l b j ≡ levels b j
unfolding set_level
set_level-node levels a i l b j ne = rw (==-eq_false b a ne)

-- The body changes no other level.
abbrev pub IsLocal : (ℕ → Levels → Levels) → Type 0
IsLocal step = (i : ℕ) (levels : Levels) (a j : ℕ) → j ≢ i → step i levels a j ≡ levels a j

pub for_levels-outside :
    (step : ℕ → Levels → Levels)
    → IsLocal step
    → (n from : ℕ) (levels : Levels) (a j : ℕ) → (from ≤ j → j < from + n → ⊥)
    → for_levels step n from levels a j ≡ levels a j
unfolding for_levels
for_levels-outside step is_local zero from levels a j out = refl
for_levels-outside step is_local (suc n) from levels a j out =
    for_levels-outside step is_local n (suc from) (step from levels) a j
      (λ p q. out (omega arith) (omega arith))
    ∙ is_local from levels a j (λ e. out (omega (arith, e)) (omega (arith, e)))

-- A level is as one run of the body leaves it, on memory where it is as it was before the loop.
pub for_levels-inside :
    (step : ℕ → Levels → Levels)
    → IsLocal step
    → (n from : ℕ) (levels : Levels) (j : ℕ) → from ≤ j
    → j < from + n
    → (levels' : Levels) × ((a : ℕ) → levels' a j ≡ levels a j)
      × ((a : ℕ) → for_levels step n from levels a j ≡ step j levels' a j)
unfolding for_levels
for_levels-inside step is_local zero from levels j low high = absurd (omega arith)
for_levels-inside step is_local (suc n) from levels j low high = elim (dec_lt from j) [
  | yes later ↦
      let (levels', same, run) =
        for_levels-inside step is_local n (suc from) (step from levels) j (omega arith)
          (omega arith) in
      (levels', (λ a. same a ∙ is_local from levels a j (omega arith)), run)
  | no not_later ↦
      let here : j ≡ from = omega arith in
      (
        levels,
        (λ a. refl),
        λ a.
            for_levels-outside step is_local n (suc from) (step from levels) a j
              (λ p q. absurd (omega arith))
            ∙ ap (λ k. step k levels a j) (sym here),
      )
]

pub grow_level-IsLocal : (len : ℕ) → IsLocal (grow_level len)
unfolding grow_level
grow_level-IsLocal len i levels a j ne = set_level-index levels header i _ a j ne

pub link_level-IsLocal : (x : ℕ) (trail : Trail) → IsLocal (link_level x trail)
unfolding link_level
link_level-IsLocal x trail i levels a j ne =
    set_level-index _ _ i _ a j ne ∙ set_level-index levels x i _ a j ne

pub widen_level-IsLocal : (trail : Trail) → IsLocal (widen_level trail)
unfolding widen_level
widen_level-IsLocal trail i levels a j ne = set_level-index levels _ i _ a j ne

pub unlink_level-IsLocal : (x : ℕ) (trail : Trail) → IsLocal (unlink_level x trail)
unfolding unlink_level
unlink_level-IsLocal x trail i levels a j ne = set_level-index levels _ i _ a j ne

-- The loop over the array.
pub grow_trail-outside :
    (n from : ℕ) (trail : Trail) (j : ℕ)
    → (from ≤ j → j < from + n → ⊥)
    → for_levels grow_trail n from trail j ≡ trail j
unfolding for_levels set_trail
grow_trail-outside zero from trail j out = refl
grow_trail-outside (suc n) from trail j out =
    grow_trail-outside n (suc from) (grow_trail from trail) j
      (λ p q. out (omega arith) (omega arith))
    ∙ rw (==-eq_false j from (λ e. out (omega (arith, e)) (omega (arith, e))))

pub grow_trail-inside :
    (n from : ℕ) (trail : Trail) (j : ℕ)
    → from ≤ j
    → j < from + n
    → for_levels grow_trail n from trail j ≡ (header, 0)
unfolding for_levels
grow_trail-inside zero from trail j low high = absurd (omega arith)
grow_trail-inside (suc n) from trail j low high = elim (dec_lt from j) [
  | yes later ↦ grow_trail-inside n (suc from) (grow_trail from trail) j (omega arith) (omega arith)
  | no not_later ↦
      let here : j ≡ from = omega arith in
      grow_trail-outside n (suc from) (grow_trail from trail) j (λ p q. absurd (omega arith))
      ∙ unfold set_trail in rw ((==_iff j from).1 here)
]

pub unlink_level-other :
    (x : ℕ) (trail : Trail) (i : ℕ) (levels : Levels) (b : ℕ)
    → b ≢ (trail i).0
    → unlink_level x trail i levels b i ≡ levels b i
unfolding unlink_level
unlink_level-other x trail i levels b ne = set_level-node levels (trail i).0 i _ b i ne
