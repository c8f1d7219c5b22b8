-- ===== src/SkipList/Key/Order.antt =====
-- The laws of the order of the entries, from the laws of the scores.
use skynet_slg.Prelude.{ℕ, ◌≡◌, refl, arith, List, [], ◌∷◌, true, false, not, ◌||◌}
use Prim.Native.Nat.{compare, Ordering}
use Prim.Native.Nat.Ordering.{lt, eq, gt}
use skynet_slg.SkipList.Key.{
  Score, memcmp, compare_sl_obj, equal_sl_obj, Entry, is_lt, is_le, before, at_most, same,
}

-- The same order by one recursion.
lex : List ℕ → List ℕ → Ordering
lex [] [] = eq
lex [] (b ∷ ys) = lt
lex (a ∷ xs) [] = gt
lex (a ∷ xs) (b ∷ ys) = elim (compare a b) [ lt ↦ lt | eq ↦ lex xs ys | gt ↦ gt ]

compare_sl_obj-lex : (a b : List ℕ) → compare_sl_obj a b ≡ lex a b
unfolding compare_sl_obj memcmp lex
compare_sl_obj-lex [] [] = refl
compare_sl_obj-lex [] (b ∷ ys) = ground arith
compare_sl_obj-lex (a ∷ xs) [] = ground arith
compare_sl_obj-lex (a ∷ xs) (b ∷ ys) = ground (arith, compare_sl_obj-lex xs ys)

lex-asymm : (a b : List ℕ) → is_lt (lex a b) ≡ true → is_lt (lex b a) ≡ false
unfolding lex
lex-asymm [] [] h = cc
lex-asymm [] (b ∷ ys) h = refl
lex-asymm (a ∷ xs) [] h = cc
lex-asymm (a ∷ xs) (b ∷ ys) h = ground (arith, lex-asymm xs ys)

lex-le : (a b : List ℕ) → is_le (lex a b) ≡ not (is_lt (lex b a))
unfolding lex
lex-le [] [] = refl
lex-le [] (b ∷ ys) = refl
lex-le (a ∷ xs) [] = refl
lex-le (a ∷ xs) (b ∷ ys) = ground (arith, lex-le xs ys)

lex_or : (a b c : List ℕ) → is_lt (lex a b) ≡ true → (is_lt (lex a c) || is_lt (lex c b)) ≡ true
unfolding lex
lex_or [] [] c h = cc
lex_or [] (b ∷ ys) [] h = refl
lex_or [] (b ∷ ys) (c ∷ zs) h = refl
lex_or (a ∷ xs) [] c h = cc
lex_or (a ∷ xs) (b ∷ ys) [] h = ground arith
lex_or (a ∷ xs) (b ∷ ys) (c ∷ zs) h = ground (arith, lex_or xs ys zs)

equal-object : (a b : List ℕ) → equal_sl_obj a b ≡ not (is_lt (lex a b) || is_lt (lex b a))
unfolding equal_sl_obj
equal-object a b =
    rw (equal_sl_obj, compare_sl_obj-lex a b)
      (ground (arith, lex-le a b, lex-le b a, lex-asymm a b, lex-asymm b a))

module _ {S : Type 0} ⦃o : Score S⦄ where
  -- `before` is a strict weak order on the entries.
  pub before_asymm : (a b : Entry S) → before a b ≡ true → before b a ≡ false
  unfolding before
  before_asymm a b h = ground (
    arith,
    compare_sl_obj-lex a.obj b.obj,
    compare_sl_obj-lex b.obj a.obj,
    lex-asymm a.obj b.obj,
    o.less_asymm a.score b.score,
    o.equal_lem a.score b.score,
    o.equal_lem b.score a.score,
  )

  pub before_or : (a b c : Entry S) → before a b ≡ true → (before a c || before c b) ≡ true
  unfolding before
  before_or a b c h = ground (
    arith,
    compare_sl_obj-lex a.obj b.obj,
    compare_sl_obj-lex a.obj c.obj,
    compare_sl_obj-lex c.obj b.obj,
    lex_or a.obj b.obj c.obj,
    o.less_or a.score b.score c.score,
    o.less_or c.score a.score b.score,
    o.less_or b.score c.score a.score,
    o.less_or a.score c.score b.score,
    o.less_or c.score b.score a.score,
    o.less_asymm a.score b.score,
    o.less_asymm b.score c.score,
    o.less_asymm a.score c.score,
    o.equal_lem a.score b.score,
    o.equal_lem a.score c.score,
    o.equal_lem c.score b.score,
  )

  pub at_most_lem : (a b : Entry S) → at_most a b ≡ not (before b a)
  unfolding before at_most
  at_most_lem a b = ground (
    arith,
    compare_sl_obj-lex a.obj b.obj,
    compare_sl_obj-lex b.obj a.obj,
    lex-le a.obj b.obj,
    o.less_asymm a.score b.score,
    o.less_asymm b.score a.score,
    o.equal_lem a.score b.score,
    o.equal_lem b.score a.score,
  )

  pub same_lem : (a b : Entry S) → same a b ≡ not (before a b || before b a)
  unfolding before same
  same_lem a b = ground (
    arith,
    compare_sl_obj-lex a.obj b.obj,
    compare_sl_obj-lex b.obj a.obj,
    equal-object a.obj b.obj,
    o.less_asymm a.score b.score,
    o.less_asymm b.score a.score,
    o.equal_lem a.score b.score,
    o.equal_lem b.score a.score,
  )

pub equal_sl_obj-sym : (a b : List ℕ) → equal_sl_obj a b ≡ equal_sl_obj b a
equal_sl_obj-sym a b = ground (arith, equal-object a b, equal-object b a)
