-- ===== src/SkipList/Refine/ScoresBack.antt =====
-- _get_score_range of lua-skiplist.c from a score down to another, and both directions together.
use skynet_slg.SkipList.Refine.ScoreLoop.{loop_end, IsSorted-left, score_loop-back}
use mathlib.Core.List.{reverse}
use mathlib.Core.Path.{subst}
use skynet_slg.Prelude.{
  ℕ, suc, ◌^◌, ◌≡◌, ◌≢◌, refl, sym, ap, ◌∙◌, arith, List, [], ◌∷◌, ◌++◌, length, length-append,
  Bool, true, false, not, ◌||◌, ◌==◌, Bool-cases, inl, inr, Option, none, some, if◌then◌else◌,
}
use skynet_slg.Prelude.Bytes.{All}
use skynet_slg.SkipList.{SkipList, header}
use skynet_slg.SkipList.Key.{Score, Entry}
use skynet_slg.SkipList.Links.{IsLinked-first}
use skynet_slg.SkipList.Change.{entry_at}
use skynet_slg.SkipList.Query.{sl_is_in_range, sl_last_in_range, null_or_more}
use skynet_slg.SkipList.Script.{score_loop, get_score_range}
use skynet_slg.SkipList.Shape.{IsShaped, heights, entries}
use skynet_slg.SkipList.Shape.Place.{All-left}
use skynet_slg.SkipList.Shape.Maps.{map-append}
use skynet_slg.SkipList.Shape.Chain.{last_of, last_of-place, links-first}
use skynet_slg.SkipList.Shape.Insert.{at_end, no_back}
use skynet_slg.SkipList.Shape.Search.{search_list-found}
use skynet_slg.SkipList.Sorted.{IsSorted, NotBefore}
use skynet_slg.SkipList.Refine.{Represents, all-Goes, all-Stops}
use skynet_slg.SkipList.Refine.Ranges.{last_or_nil, last_of-last, first_is}
use skynet_slg.SkipList.Refine.Scores.{
  scored, NotBefore-score, out_of_range, get_score_range-scored,
}

-- The last node of the front, if there is one.
end_is :
    (u : ℕ) (front : List ℕ)
    → (if u == header then none else some u) ≡ last_of none front
    → front ≢ []
    → some u ≡ last_of none front
end_is u front e ne = elim (last_or_nil front) [
  | inl nil ↦ absurd (ne nil)
  | inr (vs, y, split) ↦
      let last : last_of none front ≡ some y = ap (last_of none) split ∙ last_of-last none vs y in
      elim (Bool-cases (u == header)) [
        | inl p ↦ let never : none ≡ some y = (rw p at e) ∙ last in cc
        | inr p ↦ rw p at e
      ]
]

module _ {S : Type 0} ⦃o : Score S⦄ where
  -- Where the search of slLastInRange ends.
  max_cut :
      (sl : SkipList S) (max : S) (ns : List ℕ)
      → IsSorted (entries sl ns)
      → (front : List ℕ) × (zs : List ℕ) × (ns ≡ front ++ zs)
        × All (λ e. o.less max e.score ≡ false) (entries sl front)
        × All (λ e. o.less max e.score ≡ true) (entries sl zs)
  max_cut sl max [] sorted = ([], [], refl, tt, tt)
  max_cut sl max (a ∷ ns) sorted = elim (Bool-cases (o.less max (entry_at sl.nodes a).score)) [
    | inl p ↦ ([], a ∷ ns, refl, tt, (p, behind (entries sl ns) p sorted.0))
    | inr p ↦
        let (front, zs, split, low, high) = max_cut sl max ns sorted.1 in
        (a ∷ front, zs, ap (λ l. a ∷ l) split, (p, low), high)
  ]
    where
      behind :
          (ws : List (Entry S))
          → o.less max (entry_at sl.nodes a).score ≡ true
          → All (NotBefore (entry_at sl.nodes a)) ws
          → All (λ e. o.less max e.score ≡ true) ws
      behind [] p k = tt
      behind (w ∷ ws) p k =
          let here : o.less max w.score ≡ true = ground (
            arith,
            o.less_or max (entry_at sl.nodes a).score w.score p,
            NotBefore-score (entry_at sl.nodes a) w k.0,
          ) in
          (here, behind ws p k.1)

  scored-all_high :
      (min max : S) (us ws : List (Entry S))
      → All (λ e. o.less max e.score ≡ true) ws
      → scored min max (us ++ ws) ≡ scored min max us
  unfolding scored
  scored-all_high min max [] [] g = refl
  scored-all_high min max [] (w ∷ ws) g =
      let out : (o.less w.score min || o.less max w.score) ≡ true = ground (arith, g.0) in
      rw out (scored-all_high min max [] ws g.1)
  scored-all_high min max (u ∷ us) ws g = rw (scored-all_high min max us ws g) refl

  -- The test of slLastInRange.
  upto : (max s : S) → (o.less s max || o.equal s max) ≡ not (o.less max s)
  upto max s = ground (arith, o.less_asymm s max, o.less_asymm max s, o.equal_lem s max)

  all_upto :
      (sl : SkipList S) (max : S) (b : Bool) (ns : List ℕ)
      → All (λ e. o.less max e.score ≡ not b) (entries sl ns)
      → All (λ a. (o.less (sl.nodes a).score max || o.equal (sl.nodes a).score max) ≡ b) ns
  unfolding entry_at
  all_upto sl max b [] g = tt
  all_upto sl max b (a ∷ ns) g =
      let here : (o.less (sl.nodes a).score max || o.equal (sl.nodes a).score max) ≡ b =
        ground (arith, upto max (sl.nodes a).score, g.0) in
      (here, all_upto sl max b ns g.1)

  last_of_range :
      (sl : SkipList S) (min max : S) (front zs : List ℕ)
      → IsShaped sl (front ++ zs)
      → All (λ e. o.less max e.score ≡ false) (entries sl front)
      → All (λ e. o.less max e.score ≡ true) (entries sl zs)
      → front ≢ []
      → sl_is_in_range sl min max ≡ true
      → sl_last_in_range sl min max ≡ some (last_of none front)
  unfolding sl_last_in_range
  last_of_range sl min max front zs s low high ne inside =
      let (trail, x, r, run, found, here) =
        search_list-found (2 ^ 64) sl front zs s (omega arith)
          (λ a r. o.less (sl.nodes a).score max || o.equal (sl.nodes a).score max)
          (all-Goes (λ a. o.less (sl.nodes a).score max || o.equal (sl.nodes a).score max) 0 front
            (all_upto sl max true front low))
          (all-Stops (λ a. o.less (sl.nodes a).score max || o.equal (sl.nodes a).score max)
            (length front) zs (all_upto sl max false zs high)) in
      let place = at_end sl front zs s trail found in
      let back : (if (trail 0).0 == header then none else some (trail 0).0) ≡ last_of none front =
        last_of-place front place.front (trail 0).0
          (place.split
            ∙ ap (λ l. place.front ++ ((trail 0).0 ∷ l)) (no_back sl front zs s trail found))
          (All-left (λ a. a ≢ header) front zs s.distinct.0) in
      rw (sl_last_in_range, run, inside)
        (ap some (ap (λ (at : ℕ × ℕ). some at.0) (sym here) ∙ end_is (trail 0).0 front back ne))

  inside_first :
      (sl : SkipList S) (min max : S)
      → sl_is_in_range sl min max ≡ true
      → null_or_more sl.nodes (sl.levels header 0).forward max ≡ false
  unfolding sl_is_in_range
  inside_first sl min max inside = ground (arith, inside)

  -- In a range that is not empty there is a node up to its end.
  front_some :
      (sl : SkipList S) (min max : S) (front zs : List ℕ)
      → IsShaped sl (front ++ zs)
      → All (λ e. o.less max e.score ≡ true) (entries sl zs)
      → sl_is_in_range sl min max ≡ true
      → front ≢ []
  unfolding entry_at
  front_some sl min max (a ∷ front) zs s high inside e = absurd (omega (arith, ap length e))
  front_some sl min max [] [] s high inside e =
      let nothing : (sl.levels header 0).forward ≡ none =
        ap (λ l. l.forward)
          (IsLinked-first sl.levels (heights sl) 0 header [] (s.linked 0 s.some_level)
            (omega (arith, s.top)))
        ∙ links-first (heights sl) [] tt in
      let never : true ≡ false =
        sym (ap (λ f. null_or_more sl.nodes f max) nothing) ∙ inside_first sl min max inside in
      cc
  front_some sl min max [] (z ∷ zs) s high inside e =
      let never : true ≡ false =
        sym high.0
        ∙ sym (ap (λ f. null_or_more sl.nodes f max) (first_is sl z zs s))
        ∙ inside_first sl min max inside in
      cc

  range_down :
      (sl : SkipList S) (s1 s2 : S) (at : Option ℕ)
      → (o.less s1 s2 || o.equal s1 s2) ≡ false
      → sl_last_in_range sl s2 s1 ≡ some at
      → get_score_range sl s1 s2 ≡ score_loop sl true s2 (suc (suc sl.length)) at
  unfolding get_score_range
  range_down sl s1 s2 at order run =
      rw (get_score_range, order, run)
        (ap (λ b. score_loop sl (not b) s2 (suc (suc sl.length)) at) order)

  nothing_down :
      (sl : SkipList S) (min max : S)
      → sl_is_in_range sl min max ≡ false
      → sl_last_in_range sl min max ≡ some none
  unfolding sl_last_in_range
  nothing_down sl min max out = rw (sl_last_in_range, out) refl

  scored_down :
      (sl : SkipList S) (es : List (Entry S)) (s1 s2 : S)
      → Represents sl es
      → (o.less s1 s2 || o.equal s1 s2) ≡ false
      → get_score_range sl s1 s2 ≡ some (reverse (scored s2 s1 es))
  scored_down sl es s1 s2 (ns, s, holds, sorted) order =
      let sorted_ns : IsSorted (entries sl ns) = subst IsSorted (sym holds) sorted in
      let (front, zs, split, low, high) = max_cut sl s1 ns sorted_ns in
      let s' : IsShaped sl (front ++ zs) = subst (IsShaped sl) split s in
      let parts : entries sl front ++ entries sl zs ≡ es =
        sym (map-append (entry_at sl.nodes) front zs) ∙ ap (entries sl) (sym split) ∙ holds in
      let spec : scored s2 s1 (entries sl front) ≡ scored s2 s1 es =
        sym (scored-all_high s2 s1 (entries sl front) (entries sl zs) high)
        ∙ ap (scored s2 s1) parts in
      elim (Bool-cases (sl_is_in_range sl s2 s1)) [
        | inl inside ↦
            range_down sl s1 s2 (last_of none front) order (
              last_of_range sl s2 s1 front zs s' low high
                (front_some sl s2 s1 front zs s' high inside) inside)
            ∙ score_loop-back sl s2 s1 (suc (suc sl.length)) front zs s'.backed
                (IsSorted-left (entries sl front) (entries sl zs)
                  (subst IsSorted (sym parts) sorted))
                low (omega (arith, s'.count, length-append front zs))
            ∙ ap (λ l. some (reverse l)) spec
        | inr outside ↦
            let not_less : o.less s1 s2 ≡ false = ground (arith, order) in
            range_down sl s1 s2 none order (nothing_down sl s2 s1 outside)
            ∙ loop_end sl s2 (suc sl.length)
            ∙ ap (λ l. some (reverse l))
                (sym (out_of_range sl s2 s1 ns s sorted_ns not_less outside)
                  ∙ ap (scored s2 s1) holds)
      ]

  -- _get_score_range on memory that stands for a sorted list ends and gives the objects of the
  -- entries with a score between `s1` and `s2`: in their order if s1 ≤ s2, and else in reverse order.
  pub get_score_range_lem :
      (sl : SkipList S) (es : List (Entry S)) (s1 s2 : S)
      → Represents sl es
      → get_score_range sl s1 s2
        ≡ some
            (if o.less s1 s2 || o.equal s1 s2 then scored s1 s2 es else reverse (scored s2 s1 es))
  get_score_range_lem sl es s1 s2 r = elim (Bool-cases (o.less s1 s2 || o.equal s1 s2)) [
    | inl up ↦
        get_score_range-scored sl es s1 s2 r up
        ∙ ap (λ b. some (if b then scored s1 s2 es else reverse (scored s2 s1 es))) (sym up)
    | inr down ↦
        scored_down sl es s1 s2 r down
        ∙ ap (λ b. some (if b then scored s1 s2 es else reverse (scored s2 s1 es))) (sym down)
  ]
