-- ===== src/SkipList/Shape/First.antt =====
-- Nodes and the levels that they all have, or have not.
use mathlib.Core.Path.{subst}
use skynet_slg.Prelude.{ℕ, ◌≡◌, refl, arith, List, [], ◌∷◌, ◌++◌}
use skynet_slg.Prelude.Bytes.{All}
use skynet_slg.SkipList.{Levels, SkipList, header}
use skynet_slg.SkipList.Links.{IsLinked, IsLow}
use skynet_slg.SkipList.Shape.{IsShaped, IsNode, heights}
use skynet_slg.SkipList.Shape.Place.{All-left, All-right}

pub IsLinked-all_low :
    (levels : Levels) (h : ℕ → ℕ) (i : ℕ) (ws : List ℕ)
    → All (IsLow h i) ws
    → IsLinked levels h i ws
unfolding IsLinked
IsLinked-all_low levels h i [] g = tt
IsLinked-all_low levels h i (w ∷ ws) g =
    ((λ high. absurd (omega (arith, high, g.0))), IsLinked-all_low levels h i ws g.1)

module _ {S : Type 0} (sl : SkipList S) where
  -- All nodes have level 0.
  pub back-empty :
      (ws : List ℕ) → All (IsLow (heights sl) 0) ws → All (IsNode sl sl.level) ws → ws ≡ []
  back-empty [] low g = refl
  back-empty (w ∷ ws) low g = absurd (omega (arith, low.0, g.0.0))

module _ {S : Type 0} (sl : SkipList S) (front zs : List ℕ) (s : IsShaped sl (front ++ zs)) where
  pub same-rest :
      (us : List ℕ) (u : ℕ) (vs : List ℕ)
      → header ∷ front ≡ us ++ (u ∷ vs)
      → All (IsNode sl sl.level) vs
  same-rest [] u vs e =
      let rest : front ≡ vs = cc in
      subst (All (IsNode sl sl.level)) rest (All-left (IsNode sl sl.level) front zs s.all_nodes)
  same-rest (v ∷ us) u vs e =
      let rest : front ≡ us ++ (u ∷ vs) = cc in
      (All-right (IsNode sl sl.level) us (u ∷ vs) (
        subst (All (IsNode sl sl.level)) rest
          (All-left (IsNode sl sl.level) front zs s.all_nodes))).1
