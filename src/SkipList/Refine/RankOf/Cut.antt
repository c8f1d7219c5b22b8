-- ===== src/SkipList/Refine/RankOf/Cut.antt =====
-- The test of slGetRank on a sorted list, and the places of a list.
use mathlib.Core.Path.{subst}
use skynet_slg.Prelude.{
  ℕ, suc, ◌≡◌, ◌≢◌, ◌⊎◌, inl, inr, refl, ap, arith, List, [], ◌∷◌, ◌++◌, length, length-append, map,
  true, false, Option, none, some, Bool-cases,
}
use skynet_slg.Prelude.Bytes.{All}
use skynet_slg.SkipList.Key.{Score, Entry, before, same, at_most, equal_sl_obj}
use skynet_slg.SkipList.Key.Order.{before_or, same_lem, at_most_lem, equal_sl_obj-sym}
use skynet_slg.SkipList.Query.{holds_obj}
use skynet_slg.SkipList.Sorted.{IsSorted, NotBefore}

-- A list that a map made in two parts.
pub unmap :
    {A : Type 0} (f : ℕ → A) (ns : List ℕ) (us ws : List A)
    → map f ns ≡ us ++ ws
    → (un : List ℕ) × (wn : List ℕ) × (ns ≡ un ++ wn) × (map f un ≡ us) × (map f wn ≡ ws)
unmap f ns [] ws e = ([], ns, refl, refl, e)
unmap f [] (u ∷ us) ws e = absurd (omega (arith, ap length e))
unmap f (n ∷ ns) (u ∷ us) ws e =
    let here : f n ≡ u = cc in
    let later : map f ns ≡ us ++ ws = cc in
    let (un, wn, split, left, right) = unmap f ns us ws later in
    (n ∷ un, wn, ap (λ l. n ∷ l) split, (rw (here, left) refl), right)

-- Where the element at a place can be, before the last one.
pub place_or :
    (P : ℕ → Type 0) (us : List ℕ) (a : ℕ) (pre : List ℕ) (x : ℕ) (rest : List ℕ)
    → All P us
    → us ++ (a ∷ []) ≡ pre ++ (x ∷ rest)
    → (length pre ≡ length us) ⊎ P x
place_or P [] a [] x rest g e = inl refl
place_or P [] a (p ∷ pre) x rest g e =
    absurd (omega (arith, ap length e, length-append pre (x ∷ rest)))
place_or P (u ∷ us) a [] x rest g e = let here : u ≡ x = cc in inr (subst P here g.0)
place_or P (u ∷ us) a (p ∷ pre) x rest g e =
    let later : us ++ (a ∷ []) ≡ pre ++ (x ∷ rest) = cc in
    elim (place_or P us a pre x rest g.1 later) [ inl l ↦ inl (ap suc l) | inr h ↦ inr h ]

pub last_is :
    (P : ℕ → Type 0) (us : List ℕ) (a : ℕ) (pre : List ℕ) (x : ℕ)
    → us ++ (a ∷ []) ≡ pre ++ (x ∷ [])
    → P a
    → P x
last_is P [] a [] x e g = let here : a ≡ x = cc in subst P here g
last_is P [] a (p ∷ pre) x e g = absurd (omega (arith, ap length e, length-append pre (x ∷ [])))
last_is P (u ∷ us) a [] x e g = absurd (omega (arith, ap length e, length-append us (a ∷ [])))
last_is P (u ∷ us) a (p ∷ pre) x e g =
    let later : us ++ (a ∷ []) ≡ pre ++ (x ∷ []) = cc in last_is P us a pre x later g

pub holds_obj-entry :
    (n : Option (List ℕ)) (obj : List ℕ)
    → n ≢ none
    → holds_obj n obj ≡ equal_sl_obj (elim n as (λ m. List ℕ) [ none ↦ [] | some q ↦ q ]) obj
holds_obj-entry none obj ne = absurd (ne refl)
holds_obj-entry (some q) obj ne = refl

module _ {S : Type 0} ⦃o : Score S⦄ where
  -- The entries have another object.
  abbrev pub IsOther : List ℕ → Entry S → Type 0
  IsOther obj b = equal_sl_obj b.obj obj ≡ false

  pub not_same : (e b : Entry S) → IsOther e.obj b → same e b ≡ false
  unfolding same
  not_same e b g = ground (arith, g, equal_sl_obj-sym b.obj e.obj)

  pub obj_of_same : (e b : Entry S) → same e b ≡ true → equal_sl_obj b.obj e.obj ≡ true
  unfolding same
  obj_of_same e b g = ground (arith, g, equal_sl_obj-sym b.obj e.obj)

  -- What comes before the entry is at most it, what comes after is not.
  pub at_most_front :
      (e a : Entry S) (us : List (Entry S)) (ws : List (Entry S))
      → same e a ≡ true
      → IsSorted (us ++ (a ∷ ws))
      → All (λ b. at_most b e ≡ true) us
  at_most_front e a [] ws p g = tt
  at_most_front e a (u ∷ us) ws p g =
      let le : before a u ≡ false = (all_right us g.0).0 in
      let here : at_most u e ≡ true = elim (Bool-cases (before e u)) [
        | inl q ↦ ground (arith, before_or e u a q, same_lem e a, p, le)
        | inr q ↦ ground (arith, at_most_lem u e, q)
      ] in
      (here, at_most_front e a us ws p g.1)
    where
      all_right :
          (vs : List (Entry S)) → All (NotBefore u) (vs ++ (a ∷ ws)) → All (NotBefore u) (a ∷ ws)
      all_right [] k = k
      all_right (v ∷ vs) k = all_right vs k.1

  pub at_most_back :
      (e a : Entry S) (ws : List (Entry S))
      → same e a ≡ true
      → All (IsOther e.obj) ws
      → All (NotBefore a) ws
      → All (λ b. at_most b e ≡ false) ws
  at_most_back e a [] p g k = tt
  at_most_back e a (w ∷ ws) p g k =
      let differs : same e w ≡ false = not_same e w g.0 in
      let here : at_most w e ≡ false = elim (Bool-cases (before e w)) [
        | inl q ↦ ground (arith, at_most_lem w e, q)
        | inr q ↦
            let less : before w e ≡ true = ground (arith, same_lem e w, differs, q) in
            ground (arith, before_or w e a less, same_lem e a, p, k.0)
      ] in
      (here, at_most_back e a ws p g.1 k.1)
