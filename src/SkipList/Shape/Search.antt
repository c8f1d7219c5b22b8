-- ===== src/SkipList/Shape/Search.antt =====
-- Every search ends within its fuel, behind the nodes of which its test holds.
use mathlib.Core.Path.{subst}
use skynet_slg.Prelude.{
  ℕ, suc, ◌^◌, ◌≤◌, ◌<◌, ◌≡◌, refl, ap, ◌∙◌, arith, List, [], ◌∷◌, ◌++◌, length, length-append,
  some, Bool,
}
use skynet_slg.SkipList.{SkipList, Trail, header, search_list, no_trail}
use skynet_slg.SkipList.Walk.{Goes, Stops, IsAt}
use skynet_slg.SkipList.Walk.Descend.{descend-Searched}
use skynet_slg.SkipList.Shape.{IsShaped, IsNode, heights}
use skynet_slg.SkipList.Shape.Place.{All-map, All-right, link_at}
use skynet_slg.SkipList.Shape.Chain.{first_of, links-first}

module _ {S : Type 0} (w : ℕ) (sl : SkipList S) (front zs : List ℕ) (s : IsShaped sl (front ++ zs))
    (wide : 2 ^ 32 ≤ w) (go : ℕ → ℕ → Bool) where
  pub search_list-found :
      Goes go 0 front
      → Stops go (length front) zs
      → (trail : Trail) × (x : ℕ) × (r : ℕ) × (search_list w sl go ≡ some (trail, x, r))
        × ((i : ℕ) → i < sl.level → IsAt (heights sl) i (header ∷ front) (trail i))
        × (trail 0 ≡ (x, r))
  unfolding search_list
  search_list-found goes stops =
      let (trail, x, r, run, found) =
        descend-Searched w sl.levels go (heights sl) (header ∷ front) zs (suc sl.length)
          (omega (arith, s.small, length-append front zs, wide))
          (omega (arith, s.count, length-append front zs)) sl.level header 0 no_trail [] front refl
          refl (omega (arith, s.top, s.max_level)) s.linked goes
          (subst (λ (p : ℕ). Stops go p zs) (omega arith) stops) in
      (trail, x, r, run, found.found, found.last s.some_level)

-- The node behind the place where a search ended.
pub next_found :
    {S : Type 0} (sl : SkipList S) (front zs : List ℕ) (s : IsShaped sl (front ++ zs)) (at : ℕ × ℕ)
    → IsAt (heights sl) 0 (header ∷ front) at
    → (sl.levels at.0 0).forward ≡ first_of zs
next_found sl front zs s at p =
    ap (λ l. l.forward)
      (link_at sl.levels (heights sl) 0 (header ∷ front) zs at p (s.linked 0 s.some_level))
    ∙ links-first (heights sl) zs (
        All-map (IsNode sl sl.level) (λ a. 0 < heights sl a) (λ a g. g.0) zs
          (All-right (IsNode sl sl.level) front zs s.all_nodes))
