-- ===== src/SkipList/Refine/ByRank.antt =====
-- slDeleteByRank and slGetNodeByRank: the ranks are the places on the list, from 1 on.
use skynet_slg.SkipList.Refine.Lists.{
  take-nil, drop-nil, take-map, drop-map, ranks-Goes, ranks-Stops, take-number, drop-number,
}
use mathlib.Core.Path.{subst}
use native.Mathlib.Decide.{dec_lt}
use skynet_slg.Prelude.{
  ℕ, zero, suc, ◌+◌, ◌-◌, ◌^◌, ◌≤◌, ◌<◌, ◌≡◌, refl, sym, ap, ◌∙◌, arith, List, [], ◌∷◌, ◌++◌,
  length, length-append, length-map, length-take, length-drop, take, drop, take-append-drop, Option,
  some, ltb, lt→ltb, le→ltb, le→leb, lt→leb,
}
use skynet_slg.Prelude.Word.{u32, u64}
use skynet_slg.SkipList.{SkipList, Trail, header, search_list}
use skynet_slg.SkipList.Key.{Score, Entry}
use skynet_slg.SkipList.Walk.{IsAt}
use skynet_slg.SkipList.Change.{sl_delete_by_rank, delete_loop, sl_delete_node, entry_at}
use skynet_slg.SkipList.Script.{delete_by_rank}
use skynet_slg.SkipList.Shape.{IsShaped, entries, heights}
use skynet_slg.SkipList.Shape.Place.{All-map}
use skynet_slg.SkipList.Shape.Chain.{first_of, set_after-same}
use skynet_slg.SkipList.Shape.Insert.{end_rank}
use skynet_slg.SkipList.Shape.Maps.{map-append}
use skynet_slg.SkipList.Shape.Deleted.{sl_delete_node-IsShaped, sl_delete_node-entries, next_link}
use skynet_slg.SkipList.Shape.Drop.{drop_levels-le}
use skynet_slg.SkipList.Shape.Search.{search_list-found, next_found}
use skynet_slg.SkipList.Sorted.{IsSorted, IsSorted-without}
use skynet_slg.SkipList.Refine.{Represents}

IsAt-same :
    (h h' : ℕ → ℕ) (i : ℕ) (first : List ℕ) (at : ℕ × ℕ)
    → ((a : ℕ) → h' a ≡ h a)
    → IsAt h i first at
    → IsAt h' i first at
IsAt-same h h' i first at same p = record {
  front = p.front;
  back = p.back;
  split = p.split;
  rank = p.rank;
  high = omega (arith, p.high, same at.0);
  low = All-map (λ a. h a ≤ i) (λ a. h' a ≤ i) (λ a g. omega (arith, g, same a)) p.back p.low;
}

module _ {S : Type 0} where
  -- A deletion behind the place leaves the place for the next one.
  sl_delete_node-IsAt :
      (sl : SkipList S) (x : ℕ) (trail : Trail) (first : List ℕ)
      → ((i : ℕ) → i < sl.level → IsAt (heights sl) i first (trail i))
      → (i : ℕ) → i < (sl_delete_node sl x trail).level
      → IsAt (heights (sl_delete_node sl x trail)) i first (trail i)
  unfolding sl_delete_node
  sl_delete_node-IsAt sl x trail first found i below =
      IsAt-same (heights sl) (heights (sl_delete_node sl x trail)) i first (trail i)
        (λ a. (set_after-same sl.nodes _ (sl.nodes x).backward sl.tail a).2)
        (found i (omega (arith, below, drop_levels-le _ sl.level)))

  delete_loop-lem :
      (fuel : ℕ) (trail : Trail) (end : ℕ) (sl : SkipList S) (front zs : List ℕ)
      → IsShaped sl (front ++ zs)
      → ((i : ℕ) → i < sl.level → IsAt (heights sl) i (header ∷ front) (trail i))
      → (t : ℕ) → t + length zs < 2 ^ 64
      → length zs < fuel
      → (sl' : SkipList S) × (delete_loop fuel trail end sl (first_of zs) t
          ≡ some (sl', take (suc end - t) (entries sl zs)))
        × IsShaped sl' (front ++ drop (suc end - t) zs)
        × ((ws : List ℕ) → entries sl' ws ≡ entries sl ws)
  unfolding delete_loop
  delete_loop-lem zero trail end sl front zs s found t small enough = absurd (omega (arith, enough))
  delete_loop-lem (suc fuel) trail end sl front [] s found t small enough = (
    sl,
    ap (λ l. some (sl, l)) (sym (take-nil (suc end - t))),
    rw (drop-nil {A = ℕ} (suc end - t)) s,
    λ ws. refl,
  )
  delete_loop-lem (suc fuel) trail end sl front (x ∷ zs) s found t small enough =
      elim (dec_lt end t) [
        | yes over ↦
            let done : suc end - t ≡ 0 = omega (arith, over) in
            (
              sl,
              rw (delete_loop, lt→leb t end over, done) refl,
              subst (λ (n : ℕ). IsShaped sl (front ++ drop n (x ∷ zs))) (sym done) s,
              λ ws. refl,
            )
        | no not_over ↦
            let more : suc end - t ≡ suc (end - t) = omega (arith, not_over) in
            let next : (sl.levels x 0).forward ≡ first_of zs =
              next_link sl front x zs s trail found in
            let (sl', run, s', kept) =
              delete_loop-lem fuel trail end (sl_delete_node sl x trail) front zs
                (sl_delete_node-IsShaped sl front x zs s trail found)
                (sl_delete_node-IsAt sl x trail (header ∷ front) found) (suc t)
                (omega (arith, small)) (omega (arith, enough)) in
            let same = sl_delete_node-entries sl front x zs s trail found in
            let step : u64 (t + 1) ≡ suc t = omega (arith, small) in
            let left : suc end - suc t ≡ end - t = omega arith in
            (
              sl',
              rw
                  (
                    delete_loop,
                    next,
                    le→leb t end (omega (arith, not_over)),
                    step,
                    run,
                    left,
                    more,
                    same zs,
                  )
                  refl,
              subst (λ (n : ℕ). IsShaped sl' (front ++ drop n (x ∷ zs))) (ap suc left ∙ sym more)
                  s',
              λ ws. kept ws ∙ same ws,
            )
      ]

  by_rank-loop :
      (sl : SkipList S) (start end : ℕ) (trail : Trail) (x r t : ℕ) (f : Option ℕ)
      → search_list (2 ^ 64) sl (λ a r. ltb r start) ≡ some (trail, x, r)
      → (sl.levels x 0).forward ≡ f
      → u64 (r + 1) ≡ t
      → sl_delete_by_rank sl start end ≡ delete_loop (suc sl.length) trail end sl f t
  unfolding sl_delete_by_rank
  by_rank-loop sl start end trail x r t f run next at = rw (sl_delete_by_rank, run, next, at) refl

  -- The ranks from `start` to `end`, or from the first one if `start` is 0; `front` has those below.
  sl_delete_by_rank-cut :
      (sl : SkipList S) (front zs : List ℕ) (start end : ℕ)
      → IsShaped sl (front ++ zs)
      → length front ≤ start - 1
      → (0 < length zs → length front ≡ start - 1)
      → (sl' : SkipList S) × (sl_delete_by_rank sl start end
          ≡ some (sl', take (end - (start - 1)) (entries sl zs)))
        × IsShaped sl' (front ++ drop (end - (start - 1)) zs)
        × ((ws : List ℕ) → entries sl' ws ≡ entries sl ws)
  sl_delete_by_rank-cut sl front zs start end s short exact =
      let size : length (front ++ zs) ≡ length front + length zs = length-append front zs in
      let (trail, x, r, run, found, here) =
        search_list-found (2 ^ 64) sl front zs s (omega arith) (λ a r. ltb r start)
          (ranks-Goes start 0 front (omega (arith, short)))
          (ranks-Stops start (length front) zs (λ more. omega (arith, exact more))) in
      let next : (sl.levels x 0).forward ≡ first_of zs =
        ap (λ (at : ℕ × ℕ). (sl.levels at.0 0).forward) (sym here)
        ∙ next_found sl front zs s (trail 0) (found 0 s.some_level) in
      let rank : r ≡ length front =
        omega (arith, end_rank sl front zs s trail found, ap (λ (at : ℕ × ℕ). at.1) here) in
      let t : u64 (r + 1) ≡ suc (length front) = omega (arith, rank, size, s.small) in
      let (sl', ends, after, kept) =
        delete_loop-lem (suc sl.length) trail end sl front zs s found (suc (length front))
          (omega (arith, size, s.small)) (omega (arith, size, s.count)) in
      let same_count : 0 < length zs → suc end - suc (length front) ≡ end - (start - 1) =
        λ more. omega (arith, exact more) in
      (
        sl',
        by_rank-loop sl start end trail x r (suc (length front)) (first_of zs) run next t
            ∙ ends
            ∙ ap (λ l. some (sl', l))
                (take-number (suc end - suc (length front)) (end - (start - 1)) (entries sl zs)
                  (λ more. same_count (omega (arith, more, length-map zs (entry_at sl.nodes))))),
        subst (λ l. IsShaped sl' (front ++ l))
            (drop-number (suc end - suc (length front)) (end - (start - 1)) zs same_count) after,
        kept,
      )

  sl_delete_by_rank-lem :
      (sl : SkipList S) (ns : List ℕ) (start end : ℕ)
      → IsShaped sl ns
      → (sl' : SkipList S) × (sl_delete_by_rank sl start end
          ≡ some (sl', take (end - (start - 1)) (entries sl (drop (start - 1) ns))))
        × IsShaped sl' (take (start - 1) ns ++ drop (end - (start - 1)) (drop (start - 1) ns))
        × ((ws : List ℕ) → entries sl' ws ≡ entries sl ws)
  sl_delete_by_rank-lem sl ns start end s =
      let short = length-take (start - 1) ns in
      let left = length-drop (start - 1) ns in
      sl_delete_by_rank-cut sl (take (start - 1) ns) (drop (start - 1) ns) start end
        (subst (IsShaped sl) (sym (take-append-drop (start - 1) ns)) s) (omega (arith, short))
        (λ more. omega (arith, short, left, more))

module _ {S : Type 0} ⦃o : Score S⦄ where
  -- slDeleteByRank ends; it gives the entries of the ranks to the callback in their order, and
  -- leaves the list without them.
  pub sl_delete_by_rank-Represents :
      (sl : SkipList S) (es : List (Entry S)) (start end : ℕ)
      → Represents sl es
      → (sl' : SkipList S) × (sl_delete_by_rank sl start end
          ≡ some (sl', take (end - (start - 1)) (drop (start - 1) es)))
        × Represents sl' (take (start - 1) es ++ drop (end - (start - 1)) (drop (start - 1) es))
  sl_delete_by_rank-Represents sl es start end (ns, s, holds, sorted) =
      let p : ℕ = start - 1 in
      let n : ℕ = end - p in
      let (sl', run, s', kept) = sl_delete_by_rank-lem sl ns start end s in
      let f = entry_at sl.nodes in
      let zs_hold : entries sl (drop p ns) ≡ drop p es = drop-map f p ns ∙ ap (drop p) holds in
      let whole : take p es ++ (take n (drop p es) ++ drop n (drop p es)) ≡ es =
        ap (λ l. take p es ++ l) (take-append-drop n (drop p es)) ∙ take-append-drop p es in
      (
        sl',
        run ∙ ap (λ l. some (sl', take n l)) zs_hold,
        (
          take p ns ++ drop n (drop p ns),
          s',
          kept (take p ns ++ drop n (drop p ns))
              ∙ map-append f (take p ns) (drop n (drop p ns))
              ∙ rw (take-map f p ns, holds, drop-map f n (drop p ns), zs_hold) refl,
          IsSorted-without (take p es) (take n (drop p es)) (drop n (drop p es))
              (subst IsSorted (sym whole) sorted),
        ),
      )

  -- _delete_by_rank on memory that stands for a sorted list ends; it gives the entries of the ranks
  -- from `start` to `end` (from 1 if `start` is 0) to the function in their order, and leaves memory
  -- that stands for the list without them. It does the same when it gets the ranks in the other
  -- order. The ranks are below 2^32.
  pub delete_by_rank-Represents :
      (sl : SkipList S) (es : List (Entry S)) (start end : ℕ)
      → Represents sl es
      → start ≤ end
      → end < 2 ^ 32
      → (sl' : SkipList S) × (delete_by_rank sl start end
          ≡ some (sl', take (end - (start - 1)) (drop (start - 1) es)))
        × (delete_by_rank sl end start ≡ some (sl', take (end - (start - 1)) (drop (start - 1) es)))
        × Represents sl' (take (start - 1) es ++ drop (end - (start - 1)) (drop (start - 1) es))
  unfolding delete_by_rank
  delete_by_rank-Represents sl es start end r le small =
      let (sl', run, after) = sl_delete_by_rank-Represents sl es start end r in
      let s32 : u32 start ≡ start = omega (arith, le, small) in
      let e32 : u32 end ≡ end = omega (arith, small) in
      (
        sl',
        rw (delete_by_rank, s32, e32, le→ltb end start le) run,
        swapped sl start end le s32 e32 ∙ run,
        after,
      )
    where
      swapped :
          (sl : SkipList S) (start end : ℕ)
          → start ≤ end
          → u32 start ≡ start
          → u32 end ≡ end
          → delete_by_rank sl end start ≡ sl_delete_by_rank sl start end
      swapped sl start end le s32 e32 = elim (dec_lt start end) [
        | yes less ↦ rw (delete_by_rank, s32, e32, lt→ltb start end less) refl
        | no not_less ↦
            let same : start ≡ end = omega (arith, le, not_less) in
            rw (delete_by_rank, s32, e32, le→ltb start end (omega (arith, not_less)), same) refl
      ]
