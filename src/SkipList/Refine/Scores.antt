-- ===== src/SkipList/Refine/Scores.antt =====
-- _get_score_range of lua-skiplist.c: the objects of a range of scores.
use mathlib.Core.List.{append_assoc}
use mathlib.Core.Path.{subst}
use skynet_slg.Prelude.{
  ℕ, zero, suc, ◌^◌, ◌<◌, ◌≡◌, refl, sym, ap, ◌∙◌, arith, List, [], ◌∷◌, ◌++◌, length,
  length-append, true, false, not, ◌||◌, Bool-cases, inl, inr, Option, none, some, if◌then◌else◌,
}
use skynet_slg.Prelude.Bytes.{All}
use skynet_slg.SkipList.{SkipList}
use skynet_slg.SkipList.Key.{Score, Entry, before}
use skynet_slg.SkipList.Change.{entry_at}
use skynet_slg.SkipList.Query.{sl_is_in_range, sl_first_in_range, null_or_less, null_or_more}
use skynet_slg.SkipList.Script.{score_loop, get_score_range}
use skynet_slg.SkipList.Shape.{IsShaped, IsBacked, entries}
use skynet_slg.SkipList.Shape.Maps.{map-append}
use skynet_slg.SkipList.Shape.Chain.{first_of}
use skynet_slg.SkipList.Shape.Search.{search_list-found, next_found}
use skynet_slg.SkipList.Sorted.{IsSorted, NotBefore}
use skynet_slg.SkipList.Refine.{Represents, all-Goes, all-Stops, All-entries}
use skynet_slg.SkipList.Refine.Ranges.{next_is, first_is}

module _ {S : Type 0} ⦃o : Score S⦄ where
  -- The objects of the entries with the scores from `min` to `max`.
  unfoldable pub scored : S → S → List (Entry S) → List (List ℕ)
  scored min max [] = []
  scored min max (e ∷ es) =
      let rest = scored min max es in
      if o.less e.score min || o.less max e.score then rest else e.obj ∷ rest

  -- Behind an entry there is no lower score.
  pub NotBefore-score : (a b : Entry S) → NotBefore a b → o.less b.score a.score ≡ false
  unfolding before
  NotBefore-score a b g = ground (arith, g)

  scored-low :
      (min max : S) (us ws : List (Entry S))
      → All (λ e. o.less e.score min ≡ true) us
      → scored min max (us ++ ws) ≡ scored min max ws
  unfolding scored
  scored-low min max [] ws g = refl
  scored-low min max (u ∷ us) ws g = rw g.0 (scored-low min max us ws g.1)

  -- Behind an entry above the range all are above it.
  pub scored-high :
      (min max : S) (a : Entry S) (ws : List (Entry S))
      → o.less max a.score ≡ true
      → All (NotBefore a) ws
      → scored min max ws ≡ []
  unfolding scored
  scored-high min max a [] p g = refl
  scored-high min max a (w ∷ ws) p g =
      let above : o.less max w.score ≡ true =
        ground (arith, o.less_or max a.score w.score p, NotBefore-score a w g.0) in
      let out : (o.less w.score min || o.less max w.score) ≡ true = ground (arith, above) in
      rw out (scored-high min max a ws p g.1)

  -- The loop in the forward direction.
  score_loop-forward :
      (sl : SkipList S) (min max : S) (fuel : ℕ) (us zs : List ℕ)
      → IsShaped sl (us ++ zs)
      → IsSorted (entries sl zs)
      → All (λ e. o.less e.score min ≡ false) (entries sl zs)
      → length zs < fuel
      → score_loop sl false max fuel (first_of zs) ≡ some (scored min max (entries sl zs))
  unfolding score_loop scored entry_at
  score_loop-forward sl min max zero us zs s sorted g enough = absurd (omega (arith, enough))
  score_loop-forward sl min max (suc fuel) us [] s sorted g enough = refl
  score_loop-forward sl min max (suc fuel) us (x ∷ zs) s sorted g enough =
      let rest =
        score_loop-forward sl min max fuel (us ++ (x ∷ [])) zs
          (subst (IsShaped sl) (sym (append_assoc us (x ∷ []) zs)) s) sorted.1 g.1
          (omega (arith, enough)) in
      elim (Bool-cases (o.less max (sl.nodes x).score)) [
        | inl p ↦
            rw (p, g.0)
              (ap some (sym (scored-high min max (entry_at sl.nodes x) (entries sl zs) p sorted.0)))
        | inr p ↦ rw (p, g.0, next_is sl us x zs s, rest) refl
      ]

  -- If the last score is below the range, all are.
  all_low :
      (sl : SkipList S) (min : S) (prev : Option ℕ) (x : ℕ) (ns : List ℕ)
      → IsBacked sl.nodes prev (x ∷ ns) sl.tail
      → IsSorted (entries sl (x ∷ ns))
      → null_or_less sl.nodes sl.tail min ≡ true
      → All (λ e. o.less e.score min ≡ true) (entries sl (x ∷ ns))
  unfolding entry_at
  all_low sl min prev x [] b sorted low =
      (ap (λ t. null_or_less sl.nodes t min) (sym b.1) ∙ low, tt)
  all_low sl min prev x (y ∷ ns) b sorted low =
      let later = all_low sl min (some x) y ns b.1 sorted.1 low in
      let here : o.less (sl.nodes x).score min ≡ true = ground (
        arith,
        o.less_or (sl.nodes y).score min (sl.nodes x).score later.0,
        NotBefore-score (entry_at sl.nodes x) (entry_at sl.nodes y) sorted.0.0,
      ) in
      (here, later)

  pub scored-all_low :
      (min max : S) (es : List (Entry S))
      → All (λ e. o.less e.score min ≡ true) es
      → scored min max es ≡ []
  unfolding scored
  scored-all_low min max [] g = refl
  scored-all_low min max (e ∷ es) g = rw g.0 (scored-all_low min max es g.1)

  -- slIsInRange says no only if no score is in the range.
  pub out_of_range :
      (sl : SkipList S) (min max : S) (ns : List ℕ)
      → IsShaped sl ns
      → IsSorted (entries sl ns)
      → o.less max min ≡ false
      → sl_is_in_range sl min max ≡ false
      → scored min max (entries sl ns) ≡ []
  unfolding sl_is_in_range scored entry_at
  out_of_range sl min max [] s sorted order out = refl
  out_of_range sl min max (x ∷ ns) s sorted order out =
      elim (Bool-cases (null_or_less sl.nodes sl.tail min)) [
        | inl p ↦
            scored-all_low min max (entries sl (x ∷ ns))
              (all_low sl min none x ns s.backed sorted p)
        | inr p ↦
            let above : o.less max (sl.nodes x).score ≡ true =
              let here : not (null_or_more sl.nodes (some x) max) ≡ false =
                sym (ap (λ f. not (null_or_more sl.nodes f max)) (first_is sl x ns s))
                ∙ (rw (sl_is_in_range, order, p) at out) in
              ground (arith, here) in
            let gone : (o.less (sl.nodes x).score min || o.less max (sl.nodes x).score) ≡ true =
              ground (arith, above) in
            rw gone (scored-high min max (entry_at sl.nodes x) (entries sl ns) above sorted.0)
      ]

  -- Where the search of slFirstInRange ends.
  score_cut :
      (sl : SkipList S) (min : S) (ns : List ℕ)
      → IsSorted (entries sl ns)
      → (front : List ℕ) × (zs : List ℕ) × (ns ≡ front ++ zs)
        × All (λ e. o.less e.score min ≡ true) (entries sl front)
        × All (λ e. o.less e.score min ≡ false) (entries sl zs)
        × IsSorted (entries sl zs)
  score_cut sl min [] sorted = ([], [], refl, tt, tt, tt)
  score_cut sl min (a ∷ ns) sorted = elim (Bool-cases (o.less (entry_at sl.nodes a).score min)) [
    | inl p ↦
        let (front, zs, split, left, right, rest) = score_cut sl min ns sorted.1 in
        (a ∷ front, zs, ap (λ l. a ∷ l) split, (p, left), right, rest)
    | inr p ↦ ([], a ∷ ns, refl, tt, (p, behind (entries sl ns) p sorted.0), sorted)
  ]
    where
      behind :
          (ws : List (Entry S))
          → o.less (entry_at sl.nodes a).score min ≡ false
          → All (NotBefore (entry_at sl.nodes a)) ws
          → All (λ e. o.less e.score min ≡ false) ws
      behind [] p k = tt
      behind (w ∷ ws) p k =
          let later = NotBefore-score (entry_at sl.nodes a) w k.0 in
          let here : o.less w.score min ≡ false = elim (Bool-cases (o.less w.score min)) [
            | inl q ↦ ground (arith, o.less_or w.score min (entry_at sl.nodes a).score q, later, p)
            | inr q ↦ q
          ] in
          (here, behind ws p k.1)

  first_of_range :
      (sl : SkipList S) (min max : S) (front zs : List ℕ)
      → IsShaped sl (front ++ zs)
      → All (λ e. o.less e.score min ≡ true) (entries sl front)
      → All (λ e. o.less e.score min ≡ false) (entries sl zs)
      → sl_is_in_range sl min max ≡ true
      → sl_first_in_range sl min max ≡ some (first_of zs)
  unfolding sl_first_in_range entry_at
  first_of_range sl min max front zs s left right inside =
      let (trail, x, r, run, found, here) =
        search_list-found (2 ^ 64) sl front zs s (omega arith)
          (λ a r. o.less (sl.nodes a).score min)
          (all-Goes (λ a. o.less (sl.nodes a).score min) 0 front
            (All-entries (λ e. o.less e.score min ≡ true) sl front left))
          (all-Stops (λ a. o.less (sl.nodes a).score min) (length front) zs
            (All-entries (λ e. o.less e.score min ≡ false) sl zs right)) in
      let next : (sl.levels x 0).forward ≡ first_of zs =
        ap (λ (at : ℕ × ℕ). (sl.levels at.0 0).forward) (sym here)
        ∙ next_found sl front zs s (trail 0) (found 0 s.some_level) in
      rw (sl_first_in_range, run, inside, next) refl

  nothing_in_range :
      (sl : SkipList S) (min max : S)
      → sl_is_in_range sl min max ≡ false
      → sl_first_in_range sl min max ≡ some none
  unfolding sl_first_in_range
  nothing_in_range sl min max out = rw (sl_first_in_range, out) refl

  range_up :
      (sl : SkipList S) (s1 s2 : S) (at : Option ℕ)
      → (o.less s1 s2 || o.equal s1 s2) ≡ true
      → sl_first_in_range sl s1 s2 ≡ some at
      → get_score_range sl s1 s2 ≡ score_loop sl false s2 (suc (suc sl.length)) at
  unfolding get_score_range
  range_up sl s1 s2 at order run =
      rw (get_score_range, order, run)
        (ap (λ b. score_loop sl (not b) s2 (suc (suc sl.length)) at) order)

  score_loop-none :
      (sl : SkipList S) (s : S) (fuel : ℕ) → score_loop sl false s (suc fuel) none ≡ some []
  unfolding score_loop
  score_loop-none sl s fuel = refl

  -- _get_score_range with s1 ≤ s2 on memory that stands for a sorted list ends and gives the objects
  -- of the entries with a score from `s1` to `s2`, in their order.
  pub get_score_range-scored :
      (sl : SkipList S) (es : List (Entry S)) (s1 s2 : S)
      → Represents sl es
      → (o.less s1 s2 || o.equal s1 s2) ≡ true
      → get_score_range sl s1 s2 ≡ some (scored s1 s2 es)
  get_score_range-scored sl es s1 s2 (ns, s, holds, sorted) order =
      let sorted_ns : IsSorted (entries sl ns) = subst IsSorted (sym holds) sorted in
      let (front, zs, split, left, right, sorted_zs) = score_cut sl s1 ns sorted_ns in
      let s' : IsShaped sl (front ++ zs) = subst (IsShaped sl) split s in
      let spec : scored s1 s2 (entries sl zs) ≡ scored s1 s2 es =
        sym (scored-low s1 s2 (entries sl front) (entries sl zs) left)
        ∙ ap (scored s1 s2)
            (sym (map-append (entry_at sl.nodes) front zs) ∙ ap (entries sl) (sym split) ∙ holds) in
      elim (Bool-cases (sl_is_in_range sl s1 s2)) [
        | inl inside ↦
            range_up sl s1 s2 (first_of zs) order
              (first_of_range sl s1 s2 front zs s' left right inside)
            ∙ score_loop-forward sl s1 s2 (suc (suc sl.length)) front zs s' sorted_zs right
                (omega (arith, s'.count, length-append front zs))
            ∙ ap some spec
        | inr outside ↦
            let not_less : o.less s2 s1 ≡ false =
              ground (arith, order, o.less_asymm s1 s2, o.equal_lem s1 s2) in
            range_up sl s1 s2 none order (nothing_in_range sl s1 s2 outside)
            ∙ score_loop-none sl s2 (suc sl.length)
            ∙ ap some (
                sym (out_of_range sl s1 s2 ns s sorted_ns not_less outside)
                ∙ ap (scored s1 s2) holds)
      ]
