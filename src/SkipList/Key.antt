-- ===== src/SkipList/Key.antt =====
-- The order of skiplist.c: by score, then by the bytes of the object.
pub mod Order
use skynet_slg.Prelude.{
  ℕ, ◌≡◌, ◌⊎◌, inl, inr, refl, arith, List, [], ◌∷◌, length, take, min, Bool, true, false, not,
  ◌&&◌, ◌||◌, ltb,
}
use Prim.Native.Nat.{compare, Ordering}
use Prim.Native.Nat.Ordering.{lt, eq, gt}

-- The operations `<` and `==` on the scores, which are doubles, with what holds of doubles that are
-- no NaN.
pub record Score (S : Type 0) : Type 0 where
  pub less : S → S → Bool
  pub equal : S → S → Bool
  pub less_asymm : (a b : S) → less a b ≡ true → less b a ≡ false
  pub less_or : (a b c : S) → less a b ≡ true → (less a c || less c b) ≡ true
  pub equal_lem : (a b : S) → equal a b ≡ not (less a b || less b a)

-- memcmp on as many bytes as both lists have.
unfoldable pub memcmp : List ℕ → List ℕ → Ordering
memcmp [] ys = eq
memcmp (a ∷ xs) [] = eq
memcmp (a ∷ xs) (b ∷ ys) = elim (compare a b) [ lt ↦ lt | eq ↦ memcmp xs ys | gt ↦ gt ]

-- compareslObj, by the sign of its result. (The difference of the lengths fits an `int` for strings
-- below 2^31 bytes.)
unfoldable pub compare_sl_obj : List ℕ → List ℕ → Ordering
compare_sl_obj a b = elim (memcmp a b) [ lt ↦ lt | eq ↦ compare (length a) (length b) | gt ↦ gt ]

unfoldable pub equal_sl_obj : List ℕ → List ℕ → Bool
equal_sl_obj a b = elim (compare_sl_obj a b) [ eq ↦ true | _ ↦ false ]

-- What a node holds.
pub record Entry (S : Type 0) : Type 0 where
  pub score : S
  pub obj : List ℕ

abbrev pub is_lt : Ordering → Bool
is_lt lt = true
is_lt eq = false
is_lt gt = false

abbrev pub is_le : Ordering → Bool
is_le lt = true
is_le eq = true
is_le gt = false

module _ {S : Type 0} ⦃o : Score S⦄ where
  -- `score < s || (score == s && compareslObj(obj, p) < 0)`.
  unfoldable pub before : Entry S → Entry S → Bool
  before a b =
      o.less a.score b.score || (o.equal a.score b.score && is_lt (compare_sl_obj a.obj b.obj))

  -- The same with `<= 0`.
  unfoldable pub at_most : Entry S → Entry S → Bool
  at_most a b =
      o.less a.score b.score || (o.equal a.score b.score && is_le (compare_sl_obj a.obj b.obj))

  -- `score == s && equalslObj(obj, p)`.
  unfoldable pub same : Entry S → Entry S → Bool
  same a b = o.equal a.score b.score && equal_sl_obj a.obj b.obj
