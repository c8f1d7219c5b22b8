-- ===== src/SkipList/Shape/Place.antt =====
-- One level of the memory when the list changes behind the place where a search left that level.
use mathlib.Core.List.{append_assoc}
use mathlib.Core.Path.{subst}
use skynet_slg.Prelude.{
  ℕ, suc, ◌+◌, ◌≤◌, ◌≡◌, ◌≢◌, sym, ap, ◌∙◌, arith, List, [], ◌∷◌, ◌++◌, length, length-append,
}
use skynet_slg.Prelude.Bytes.{All, All-append}
use skynet_slg.SkipList.{Levels}
use skynet_slg.SkipList.Links.{
  links, IsLinked, IsLow, lift, links-append, Agree, IsLinked-low, IsLinked-first, IsLinked-rest,
  IsLinked-relink,
}
use skynet_slg.SkipList.Walk.{IsAt}
use skynet_slg.SkipList.Shape.{IsDistinct}

module _ (P : ℕ → Type 0) where
  pub All-left : (xs ys : List ℕ) → All P (xs ++ ys) → All P xs
  All-left [] ys g = tt
  All-left (x ∷ xs) ys g = (g.0, All-left xs ys g.1)

  pub All-right : (xs ys : List ℕ) → All P (xs ++ ys) → All P ys
  All-right [] ys g = g
  All-right (x ∷ xs) ys g = All-right xs ys g.1

  pub All-map : (Q : ℕ → Type 0) → ((a : ℕ) → P a → Q a) → (xs : List ℕ) → All P xs → All Q xs
  All-map Q f [] g = tt
  All-map Q f (x ∷ xs) g = (f x g.0, All-map Q f xs g.1)

  pub All-both : (Q : ℕ → Type 0) (xs : List ℕ) → All P xs → All Q xs → All (λ a. P a × Q a) xs
  All-both Q [] g k = tt
  All-both Q (x ∷ xs) g k = ((g.0, k.0), All-both Q xs g.1 k.1)

pub IsDistinct-around :
    (us : List ℕ) (u : ℕ) (ws : List ℕ)
    → IsDistinct (us ++ (u ∷ ws))
    → All (λ a. a ≢ u) us × All (λ a. a ≢ u) ws
IsDistinct-around [] u ws d = (tt, d.0)
IsDistinct-around (a ∷ us) u ws d =
    let (left, right) = IsDistinct-around us u ws d.1 in
    let here = All-right (λ b. b ≢ a) us (u ∷ ws) d.0 in ((λ e. here.0 (sym e), left), right)

pub IsDistinct-remove :
    (us : List ℕ) (u : ℕ) (ws : List ℕ) → IsDistinct (us ++ (u ∷ ws)) → IsDistinct (us ++ ws)
IsDistinct-remove [] u ws d = d.1
IsDistinct-remove (a ∷ us) u ws d = (
  All-append (λ b. b ≢ a) us ws (All-left (λ b. b ≢ a) us (u ∷ ws) d.0)
      (All-right (λ b. b ≢ a) us (u ∷ ws) d.0).1,
  IsDistinct-remove us u ws d.1,
)

pub IsDistinct-insert :
    (us : List ℕ) (u : ℕ) (ws : List ℕ)
    → IsDistinct (us ++ ws)
    → All (λ a. a ≢ u) (us ++ ws)
    → IsDistinct (us ++ (u ∷ ws))
IsDistinct-insert [] u ws d new = (new, d)
IsDistinct-insert (a ∷ us) u ws d new = (
  All-append (λ b. b ≢ a) us (u ∷ ws) (All-left (λ b. b ≢ a) us ws d.0)
      (λ e. new.0 (sym e), All-right (λ b. b ≢ a) us ws d.0),
  IsDistinct-insert us u ws d.1 new.1,
)

pub links-span : (h : ℕ → ℕ) (i : ℕ) (ws : List ℕ) → (links h i ws).span ≤ length ws
unfolding links
links-span h i [] = omega arith
links-span h i (w ∷ ws) = ground (arith, links-span h i ws)

module _ (levels : Levels) (h : ℕ → ℕ) (i : ℕ) (first zs : List ℕ) (at : ℕ × ℕ)
    (p : IsAt h i first at) (linked : IsLinked levels h i (first ++ zs)) where
  whole : (ws : List ℕ) → first ++ ws ≡ p.front ++ (at.0 ∷ (p.back ++ ws))
  whole ws = ap (λ l. l ++ ws) p.split ∙ append_assoc p.front (at.0 ∷ p.back) ws

  from_at : IsLinked levels h i (at.0 ∷ (p.back ++ zs))
  from_at =
      IsLinked-rest levels h i p.front (at.0 ∷ (p.back ++ zs))
        (subst (IsLinked levels h i) (whole zs) linked)

  -- The link at the place, before the change.
  pub link_at : levels at.0 i ≡ lift (length p.back) (links h i zs)
  link_at =
      IsLinked-first levels h i at.0 (p.back ++ zs) from_at p.high
      ∙ links-append h i p.back zs p.low

  pub linked_after : IsLinked levels h i zs
  linked_after = IsLinked-rest levels h i (at.0 ∷ p.back) zs from_at

  pub rank_back : length first ≡ suc (at.1 + length p.back)
  rank_back = omega (arith, ap length p.split, length-append p.front (at.0 ∷ p.back), p.rank)

  module _ (levels' : Levels) (h' : ℕ → ℕ) (distinct : IsDistinct (first ++ zs)) where
    -- A node is as it was, but for its link if it is the one at the place.
    abbrev pub IsKept : ℕ → Type 0
    IsKept a = (h' a ≡ h a) × (a ≢ at.0 → levels' a i ≡ levels a i)

    abbrev IsOther : ℕ → Type 0
    IsOther a = IsKept a × (a ≢ at.0)

    agree :
        (ws : List ℕ)
        → All IsKept ws
        → All (λ a. a ≢ at.0) ws
        → All (Agree levels levels' h h' i) ws
    agree ws kept other =
        All-map IsOther (Agree levels levels' h h' i) (λ a g. (g.0.0, g.0.1 g.1)) ws
          (All-both IsKept (λ a. a ≢ at.0) ws kept other)

    module _ (kept : All IsKept (first ++ zs)) where
      IsKept-split : All IsKept (p.front ++ (at.0 ∷ (p.back ++ zs)))
      IsKept-split = subst (All IsKept) (whole zs) kept

      IsKept-back : All IsKept (at.0 ∷ (p.back ++ zs))
      IsKept-back = All-right IsKept p.front (at.0 ∷ (p.back ++ zs)) IsKept-split

      around : All (λ a. a ≢ at.0) p.front × All (λ a. a ≢ at.0) (p.back ++ zs)
      around = IsDistinct-around p.front at.0 (p.back ++ zs) (subst IsDistinct (whole zs) distinct)

      pub Agree-after : All (Agree levels levels' h h' i) zs
      Agree-after =
          agree zs (All-right IsKept p.back zs IsKept-back.1)
            (All-right (λ a. a ≢ at.0) p.back zs around.1)

      pub low_back : All (IsLow h' i) p.back
      low_back =
          All-map (λ a. IsLow h i a × IsKept a) (IsLow h' i) (λ a g. omega (arith, g.0, g.1.0))
            p.back
            (All-both (IsLow h i) IsKept p.back p.low (All-left IsKept p.back zs IsKept-back.1))

      pub relink :
          (zs' : List ℕ)
          → levels' at.0 i ≡ links h' i (p.back ++ zs')
          → IsLinked levels' h' i zs'
          → IsLinked levels' h' i (first ++ zs')
      relink zs' link l = subst (IsLinked levels' h' i) (sym (whole zs')) (
          IsLinked-relink levels levels' h h' i p.front at.0 (p.back ++ zs) (p.back ++ zs')
            (agree p.front (All-left IsKept p.front (at.0 ∷ (p.back ++ zs)) IsKept-split) around.0)
            IsKept-back.0.0 p.high link (subst (IsLinked levels h i) (whole zs) linked)
            (IsLinked-low levels' h' i p.back zs' low_back l))
