-- ===== src/SkipList/Refine/Ranges.antt =====
-- _get_rank_range of lua-skiplist.c: the objects of a range of ranks, in both directions.
use mathlib.Core.List.{append_assoc, reverse, reverse-append}
use mathlib.Core.Path.{subst}
use skynet_slg.Prelude.{
  ℕ, zero, suc, ◌+◌, ◌-◌, ◌^◌, ◌≤◌, ◌<◌, ◌≡◌, refl, sym, ap, ◌∙◌, arith, List, [], ◌∷◌, ◌++◌,
  length, length-map, take, drop, take-append-drop, map, inl, inr, ◌⊎◌, Bool, true, false, Option,
  none, some, if◌then◌else◌, ltb, lt→ltb, le→ltb, get_elem?,
}
use skynet_slg.SkipList.{SkipList, Node, header}
use skynet_slg.SkipList.Key.{Score, Entry}
use skynet_slg.SkipList.Links.{IsLinked-rest, IsLinked-first}
use skynet_slg.SkipList.Change.{entry_at}
use skynet_slg.SkipList.Query.{sl_get_node_by_rank}
use skynet_slg.SkipList.Script.{range_loop, rounds, get_rank_range}
use skynet_slg.SkipList.Shape.{IsShaped, IsNode, IsBacked, heights, entries}
use skynet_slg.SkipList.Shape.Place.{All-right, All-map}
use skynet_slg.SkipList.Shape.Chain.{first_of, links-first, last_of}
use skynet_slg.SkipList.Refine.{Represents}
use skynet_slg.SkipList.Refine.Ranks.{sl_get_node_by_rank-node}

-- A list has a last element or is empty.
pub last_or_nil : (us : List ℕ) → (us ≡ []) ⊎ ((vs : List ℕ) × (x : ℕ) × (us ≡ vs ++ (x ∷ [])))
last_or_nil [] = inl refl
last_or_nil (u ∷ us) = elim (last_or_nil us) [
  | inl e ↦ inr ([], u, ap (λ l. u ∷ l) e)
  | inr (vs, x, e) ↦ inr (u ∷ vs, x, ap (λ l. u ∷ l) e)
]

pub last_of-last : (prev : Option ℕ) (vs : List ℕ) (x : ℕ) → last_of prev (vs ++ (x ∷ [])) ≡ some x
last_of-last prev [] x = refl
last_of-last prev (v ∷ vs) x = last_of-last (some v) vs x

get_elem?-first : (ns : List ℕ) (k : ℕ) → get_elem? ns k ≡ first_of (drop k ns)
get_elem?-first [] zero = refl
get_elem?-first (x ∷ ns) zero = refl
get_elem?-first [] (suc k) = refl
get_elem?-first (x ∷ ns) (suc k) = get_elem?-first ns k

get_elem?-last :
    (prev : Option ℕ) (ns : List ℕ) (k : ℕ)
    → k < length ns
    → get_elem? ns k ≡ last_of prev (take (suc k) ns)
get_elem?-last prev [] k lt = absurd (omega (arith, lt))
get_elem?-last prev (x ∷ ns) zero lt = refl
get_elem?-last prev (x ∷ ns) (suc k) lt = get_elem?-last (some x) ns k (omega (arith, lt))

rounds_self : (n : ℕ) → n < 2 ^ 31 → rounds n ≡ n
rounds_self n small = ground arith

module _ {S : Type 0} where
  -- The link of a node at level 0 leads to the next one.
  pub next_is :
      (sl : SkipList S) (us : List ℕ) (x : ℕ) (zs : List ℕ)
      → IsShaped sl (us ++ (x ∷ zs))
      → (sl.levels x 0).forward ≡ first_of zs
  next_is sl us x zs s =
      let nodes = All-right (IsNode sl sl.level) us (x ∷ zs) s.all_nodes in
      ap (λ l. l.forward)
        (IsLinked-first sl.levels (heights sl) 0 x zs
          (IsLinked-rest sl.levels (heights sl) 0 (header ∷ us) (x ∷ zs) (s.linked 0 s.some_level))
          nodes.0.0)
      ∙ links-first (heights sl) zs
          (All-map (IsNode sl sl.level) (λ a. 0 < heights sl a) (λ a g. g.0) zs nodes.1)

  -- So does the header's.
  pub first_is :
      (sl : SkipList S) (x : ℕ) (zs : List ℕ)
      → IsShaped sl (x ∷ zs)
      → (sl.levels header 0).forward ≡ some x
  first_is sl x zs s =
      ap (λ l. l.forward)
        (IsLinked-first sl.levels (heights sl) 0 header (x ∷ zs) (s.linked 0 s.some_level)
          (omega (arith, s.top)))
      ∙ links-first (heights sl) (x ∷ zs)
          (All-map (IsNode sl sl.level) (λ a. 0 < heights sl a) (λ a g. g.0) (x ∷ zs) s.all_nodes)

  abbrev pub objs : SkipList S → List ℕ → List (List ℕ)
  objs sl ns = map (λ e. e.obj) (entries sl ns)

  loop_forward :
      (sl : SkipList S) (n : ℕ) (us zs : List ℕ)
      → IsShaped sl (us ++ zs)
      → range_loop sl false n (first_of zs) ≡ take n (objs sl zs)
  unfolding range_loop
  loop_forward sl zero us zs s = refl
  loop_forward sl (suc n) us [] s = refl
  loop_forward sl (suc n) us (x ∷ zs) s = rw (next_is sl us x zs s) (
      ap (λ l. (entry_at sl.nodes x).obj ∷ l)
        (loop_forward sl n (us ++ (x ∷ [])) zs
          (subst (IsShaped sl) (sym (append_assoc us (x ∷ []) zs)) s)))

  -- `backward` leads to the node before, or nowhere from the first one.
  pub back_is :
      (nodes : ℕ → Node S) (prev : Option ℕ) (vs : List ℕ) (x : ℕ) (zs : List ℕ) (tail : Option ℕ)
      → IsBacked nodes prev (vs ++ (x ∷ zs)) tail
      → (nodes x).backward ≡ last_of prev vs
  back_is nodes prev [] x zs tail b = b.0
  back_is nodes prev (v ∷ vs) x zs tail b = back_is nodes (some v) vs x zs tail b.1

  objs-append : (sl : SkipList S) (us ws : List ℕ) → objs sl (us ++ ws) ≡ objs sl us ++ objs sl ws
  objs-append sl [] ws = refl
  objs-append sl (u ∷ us) ws = ap (λ l. (entry_at sl.nodes u).obj ∷ l) (objs-append sl us ws)

  loop_none : (sl : SkipList S) (reverse : Bool) (n : ℕ) → range_loop sl reverse n none ≡ []
  unfolding range_loop
  loop_none sl reverse zero = refl
  loop_none sl reverse (suc n) = refl

  loop_back :
      (sl : SkipList S) (n : ℕ) (us zs : List ℕ)
      → IsShaped sl (us ++ zs)
      → range_loop sl true n (last_of none us) ≡ take n (reverse (objs sl us))
  loop_back sl zero us zs s = unfold range_loop in refl
  loop_back sl (suc n) us zs s = elim (last_or_nil us) [
    | inl e ↦ rw e (loop_none sl true (suc n))
    | inr (vs, x, e) ↦
        let whole : us ++ zs ≡ vs ++ (x ∷ zs) = ap (λ l. l ++ zs) e ∙ append_assoc vs (x ∷ []) zs in
        let s' : IsShaped sl (vs ++ (x ∷ zs)) = subst (IsShaped sl) whole s in
        let turned : reverse (objs sl us) ≡ (entry_at sl.nodes x).obj ∷ reverse (objs sl vs) =
          ap (λ l. reverse (objs sl l)) e
          ∙ ap reverse (objs-append sl vs (x ∷ []))
          ∙ reverse-append (objs sl vs) (objs sl (x ∷ [])) in
        ap (range_loop sl true (suc n)) (ap (last_of none) e ∙ last_of-last none vs x)
        ∙ step sl n x (last_of none vs) (back_is sl.nodes none vs x zs sl.tail s'.backed)
        ∙ ap (λ l. (entry_at sl.nodes x).obj ∷ l) (loop_back sl n vs (x ∷ zs) s')
        ∙ ap (take (suc n)) (sym turned)
  ]
    where
      step :
          (sl : SkipList S) (n x : ℕ) (prev : Option ℕ)
          → (sl.nodes x).backward ≡ prev
          → range_loop sl true (suc n) (some x)
            ≡ (entry_at sl.nodes x).obj ∷ range_loop sl true n prev
      step sl n x prev e = unfold range_loop in rw e refl

  range_run :
      (sl : SkipList S) (r1 r2 : ℕ) (reversed : Bool) (n : ℕ) (at : Option ℕ)
      → ltb r2 r1 ≡ reversed
      → (if reversed then r1 - r2 + 1 else r2 - r1 + 1) ≡ n
      → n < 2 ^ 31
      → sl_get_node_by_rank sl r1 ≡ some at
      → get_rank_range sl r1 r2 ≡ some (range_loop sl reversed n at)
  unfolding get_rank_range
  range_run sl r1 r2 reversed n at e f small run =
      rw (get_rank_range, run)
        (ap
            (λ (b : Bool).
              some (range_loop sl b (rounds (if b then r1 - r2 + 1 else r2 - r1 + 1)) at))
            e
          ∙ ap (λ (m : ℕ). some (range_loop sl reversed (rounds m) at)) f
          ∙ ap (λ (m : ℕ). some (range_loop sl reversed m at)) (rounds_self n small))

  -- From the rank `suc k` on.
  range_up :
      (sl : SkipList S) (ns : List ℕ) (k r2 : ℕ)
      → IsShaped sl ns
      → suc k ≤ r2
      → r2 - k < 2 ^ 31
      → get_rank_range sl (suc k) r2 ≡ some (take (r2 - k) (objs sl (drop k ns)))
  range_up sl ns k r2 s le small =
      let whole : IsShaped sl (take k ns ++ drop k ns) =
        subst (IsShaped sl) (sym (take-append-drop k ns)) s in
      range_run sl (suc k) r2 false (r2 - k) (first_of (drop k ns)) (le→ltb r2 (suc k) le)
        (omega (arith, le)) small
        (sl_get_node_by_rank-node sl ns (suc k) s ∙ ap some (get_elem?-first ns k))
      ∙ ap some (loop_forward sl (r2 - k) (take k ns) (drop k ns) whole)

  range_down :
      (sl : SkipList S) (ns : List ℕ) (k r2 : ℕ)
      → IsShaped sl ns
      → r2 ≤ k
      → k < length ns
      → suc k - r2 + 1 < 2 ^ 31
      → get_rank_range sl (suc k) r2
        ≡ some (take (suc k - r2 + 1) (reverse (objs sl (take (suc k) ns))))
  range_down sl ns k r2 s le below small =
      let whole : IsShaped sl (take (suc k) ns ++ drop (suc k) ns) =
        subst (IsShaped sl) (sym (take-append-drop (suc k) ns)) s in
      range_run sl (suc k) r2 true (suc k - r2 + 1) (last_of none (take (suc k) ns))
        (lt→ltb r2 (suc k) (omega (arith, le))) refl small
        (sl_get_node_by_rank-node sl ns (suc k) s ∙ ap some (get_elem?-last none ns k below))
      ∙ ap some (loop_back sl (suc k - r2 + 1) (take (suc k) ns) (drop (suc k) ns) whole)

module _ {S : Type 0} ⦃o : Score S⦄ where
  abbrev pub objects : List (Entry S) → List (List ℕ)
  objects es = map (λ e. e.obj) es

  objs-drop : (sl : SkipList S) (k : ℕ) (ns : List ℕ) → objs sl (drop k ns) ≡ drop k (objs sl ns)
  objs-drop sl zero ns = refl
  objs-drop sl (suc k) [] = refl
  objs-drop sl (suc k) (x ∷ ns) = objs-drop sl k ns

  objs-take : (sl : SkipList S) (k : ℕ) (ns : List ℕ) → objs sl (take k ns) ≡ take k (objs sl ns)
  objs-take sl zero ns = refl
  objs-take sl (suc k) [] = refl
  objs-take sl (suc k) (x ∷ ns) = ap (λ l. (entry_at sl.nodes x).obj ∷ l) (objs-take sl k ns)

  -- _get_rank_range on memory that stands for a sorted list ends and gives the objects of the ranks
  -- from `r1` to `r2`, as far as the list has them, when 0 < r1 ≤ r2 and these are fewer than 2^31
  -- ranks.
  pub get_rank_range-up :
      (sl : SkipList S) (es : List (Entry S)) (r1 r2 : ℕ)
      → Represents sl es
      → 0 < r1
      → r1 ≤ r2
      → r2 - r1 + 1 < 2 ^ 31
      → get_rank_range sl r1 r2 ≡ some (take (r2 - r1 + 1) (drop (r1 - 1) (objects es)))
  get_rank_range-up sl es r1 r2 (ns, s, holds, sorted) positive le small =
      let k : ℕ = r1 - 1 in
      let same : suc k ≡ r1 = omega (arith, positive) in
      let count : r2 - k ≡ r2 - r1 + 1 = omega (arith, positive, le) in
      ap (λ (r : ℕ). get_rank_range sl r r2) (sym same)
      ∙ range_up sl ns k r2 s (omega (arith, same, le)) (omega (arith, count, small))
      ∙ ap some (
          ap (λ (n : ℕ). take n (objs sl (drop k ns))) count
          ∙ ap (take (r2 - r1 + 1)) (objs-drop sl k ns ∙ ap (λ l. drop k (objects l)) holds))

  -- _get_rank_range with r2 < r1 on memory that stands for a sorted list with the rank `r1` ends and
  -- gives the objects from the rank `r1` down to `r2`, or down to the first, when these are fewer
  -- than 2^31 ranks.
  pub get_rank_range-down :
      (sl : SkipList S) (es : List (Entry S)) (r1 r2 : ℕ)
      → Represents sl es
      → r2 < r1
      → r1 ≤ length es
      → r1 - r2 + 1 < 2 ^ 31
      → get_rank_range sl r1 r2 ≡ some (take (r1 - r2 + 1) (reverse (take r1 (objects es))))
  get_rank_range-down sl es r1 r2 (ns, s, holds, sorted) less le small =
      let k : ℕ = r1 - 1 in
      let same : suc k ≡ r1 = omega (arith, less) in
      let size : length ns ≡ length es =
        sym (length-map ns (entry_at sl.nodes)) ∙ ap length holds in
      ap (λ (r : ℕ). get_rank_range sl r r2) (sym same)
      ∙ range_down sl ns k r2 s (omega (arith, same, less)) (omega (arith, same, le, size))
          (omega (arith, same, small))
      ∙ ap some (
          ap (λ (r : ℕ). take (r - r2 + 1) (reverse (objs sl (take r ns)))) same
          ∙ ap (λ l. take (r1 - r2 + 1) (reverse l))
              (objs-take sl r1 ns ∙ ap (λ l. take r1 (objects l)) holds))
