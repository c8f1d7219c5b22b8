-- ===== src/SkipList/Sorted.antt =====
-- What the skip list stands for: a sorted list of entries, with an insertion and a deletion. The
-- description does not depend on the memory.
use skynet_slg.Prelude.{
  ◌≡◌, refl, arith, List, [], ◌∷◌, ◌++◌, Bool, true, false, ◌||◌, Bool-cases, inl, inr,
  if◌then◌else◌,
}
use skynet_slg.Prelude.Bytes.{All}
use skynet_slg.SkipList.Key.{Score, Entry, before, same}
use skynet_slg.SkipList.Key.Order.{before_asymm, before_or, same_lem}

module _ {S : Type 0} ⦃o : Score S⦄ where
  abbrev pub IsSorted : List (Entry S) → Type 0
  IsSorted [] = Unit
  IsSorted (a ∷ rest) = All (λ b. before b a ≡ false) rest × IsSorted rest

  -- Behind all the entries that are before it.
  unfoldable pub insert_sorted : Entry S → List (Entry S) → List (Entry S)
  insert_sorted e [] = e ∷ []
  insert_sorted e (a ∷ rest) =
      let more = insert_sorted e rest in if before a e then a ∷ more else e ∷ (a ∷ rest)

  unfoldable pub is_in : Entry S → List (Entry S) → Bool
  is_in e [] = false
  is_in e (a ∷ rest) = same e a || is_in e rest

  -- Without the first entry with the score and the object.
  unfoldable pub remove_first : Entry S → List (Entry S) → List (Entry S)
  remove_first e [] = []
  remove_first e (a ∷ rest) = let more = remove_first e rest in if same e a then rest else a ∷ more

  abbrev pub IsBefore : Entry S → Entry S → Type 0
  IsBefore e a = before a e ≡ true

  abbrev pub NotBefore : Entry S → Entry S → Type 0
  NotBefore e a = before a e ≡ false

  -- Not before an entry that is not before `e`: not before `e`.
  pub NotBefore-trans : (e a b : Entry S) → NotBefore e a → NotBefore a b → NotBefore e b
  NotBefore-trans e a b p q = elim (Bool-cases (before b e)) [
    | inl r ↦ ground (arith, before_or b e a r, p, q)
    | inr r ↦ r
  ]

  pub NotBefore-all :
      (e a : Entry S) (ws : List (Entry S))
      → NotBefore e a
      → All (NotBefore a) ws
      → All (NotBefore e) ws
  NotBefore-all e a [] p g = tt
  NotBefore-all e a (w ∷ ws) p g = (NotBefore-trans e a w p g.0, NotBefore-all e a ws p g.1)

  pub insert_sorted-at :
      (e : Entry S) (us ws : List (Entry S))
      → All (IsBefore e) us
      → All (NotBefore e) ws
      → insert_sorted e (us ++ ws) ≡ us ++ (e ∷ ws)
  unfolding insert_sorted
  insert_sorted-at e [] [] g k = refl
  insert_sorted-at e [] (w ∷ ws) g k = rw k.0 refl
  insert_sorted-at e (u ∷ us) ws g k = rw (g.0, insert_sorted-at e us ws g.1 k)

  pub insert_sorted-IsSorted :
      (e : Entry S) (es : List (Entry S)) → IsSorted es → IsSorted (insert_sorted e es)
  unfolding insert_sorted
  insert_sorted-IsSorted e [] g = (tt, tt)
  insert_sorted-IsSorted e (a ∷ es) g = elim (Bool-cases (before a e)) [
    | inl p ↦
        rw (insert_sorted, p)
          (all_after a e es (before_asymm a e p) g.0, insert_sorted-IsSorted e es g.1)
    | inr p ↦ rw (insert_sorted, p) ((p, NotBefore-all e a es p g.0), g)
  ]
    where
      all_after :
          (a e : Entry S) (ws : List (Entry S))
          → NotBefore a e
          → All (NotBefore a) ws
          → All (NotBefore a) (insert_sorted e ws)
      all_after a e [] p k = (p, tt)
      all_after a e (w ∷ ws) p k = elim (Bool-cases (before w e)) [
        | inl q ↦ rw (insert_sorted, q) (k.0, all_after a e ws p k.1)
        | inr q ↦ rw (insert_sorted, q) (p, k)
      ]

  pub IsSorted-right : (us ws : List (Entry S)) → IsSorted (us ++ ws) → IsSorted ws
  IsSorted-right [] ws g = g
  IsSorted-right (u ∷ us) ws g = IsSorted-right us ws g.1

  pub IsSorted-without :
      (us ms ws : List (Entry S)) → IsSorted (us ++ (ms ++ ws)) → IsSorted (us ++ ws)
  IsSorted-without [] [] ws g = g
  IsSorted-without [] (m ∷ ms) ws g = IsSorted-without [] ms ws g.1
  IsSorted-without (u ∷ us) ms ws g = (without us g.0, IsSorted-without us ms ws g.1)
    where
      right : (vs : List (Entry S)) → All (NotBefore u) (vs ++ ws) → All (NotBefore u) ws
      right [] k = k
      right (v ∷ vs) k = right vs k.1

      without :
          (vs : List (Entry S))
          → All (NotBefore u) (vs ++ (ms ++ ws))
          → All (NotBefore u) (vs ++ ws)
      without [] k = right ms k
      without (v ∷ vs) k = (k.0, without vs k.1)

  -- Only the first of the entries that are not before `e` can be the one that is removed first.
  pub not_same_before :
      (e : Entry S) (us ws : List (Entry S))
      → All (IsBefore e) us
      → remove_first e (us ++ ws) ≡ us ++ remove_first e ws
  unfolding remove_first
  not_same_before e [] ws g = refl
  not_same_before e (u ∷ us) ws g =
      let differs : same e u ≡ false = ground (arith, same_lem e u, g.0) in
      rw (differs, not_same_before e us ws g.1)

  pub is_in-after :
      (e : Entry S) (us ws : List (Entry S)) → All (IsBefore e) us → is_in e (us ++ ws) ≡ is_in e ws
  unfolding is_in
  is_in-after e [] ws g = refl
  is_in-after e (u ∷ us) ws g =
      let differs : same e u ≡ false = ground (arith, same_lem e u, g.0) in
      rw (differs, is_in-after e us ws g.1)

  -- An entry that `e` is before, and all behind it, are not it.
  pub none_same :
      (e a : Entry S) (ws : List (Entry S))
      → before e a ≡ true
      → All (NotBefore a) ws
      → (is_in e (a ∷ ws) ≡ false) × (remove_first e (a ∷ ws) ≡ a ∷ ws)
  unfolding is_in remove_first
  none_same e a ws p g =
      let differs : same e a ≡ false = ground (arith, same_lem e a, p) in
      (rw (differs, (later ws g).0), rw (differs, (later ws g).1))
    where
      later :
          (vs : List (Entry S))
          → All (NotBefore a) vs
          → (is_in e vs ≡ false) × (remove_first e vs ≡ vs)
      later [] k = (refl, refl)
      later (v ∷ vs) k =
          let differs : same e v ≡ false = ground (arith, same_lem e v, before_or e a v p, k.0) in
          (rw (differs, (later vs k.1).0), rw (differs, (later vs k.1).1))
