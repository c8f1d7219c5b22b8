-- ===== src/SkipList/Refine/Levels.antt =====
-- slRandomLevel.
use skynet_slg.Prelude.{
  ℕ, ◌+◌, ◌≤◌, ◌<◌, ◌≡◌, arith, List, [], ◌∷◌, Bool-cases, none, some, Option-cases, bit_and, inl,
  inr, if◌then◌else◌, ltb,
}
use skynet_slg.SkipList.{sl_random_level, count_levels, skiplist_maxlevel}

pub count_levels-some :
    (randoms : List ℕ) (n level : ℕ) → count_levels randoms n ≡ some level → n ≤ level
unfolding count_levels
count_levels-some [] n level e = cc
count_levels-some (r ∷ randoms) n level e = elim (Bool-cases (ltb (bit_and r 0xffff) 16384)) [
  | inl p ↦
      let more : count_levels randoms (n + 1) ≡ some level = rw (count_levels, p) at e in
      omega (arith, count_levels-some randoms (n + 1) level more)
  | inr p ↦
      let here : some n ≡ some level = rw (count_levels, p) at e in
      let same : n ≡ level = cc in omega (arith, same)
]

-- Whatever random() gives, a level that slRandomLevel returns is from 1 to 32.
pub sl_random_level-bounds :
    (randoms : List ℕ) (level : ℕ)
    → sl_random_level randoms ≡ some level
    → (0 < level) × (level ≤ skiplist_maxlevel)
unfolding sl_random_level
sl_random_level-bounds randoms level e = elim (Option-cases (count_levels randoms 1)) [
  | inl p ↦ let never : none ≡ some level = rw (sl_random_level, p) at e in cc
  | inr (n, p) ↦
      let capped : some (if ltb n skiplist_maxlevel then n else skiplist_maxlevel) ≡ some level =
        rw (sl_random_level, p) at e in
      let same : (if ltb n skiplist_maxlevel then n else skiplist_maxlevel) ≡ level = cc in
      let low = count_levels-some randoms 1 n p in (ground (arith, same, low), ground (arith, same))
]
