-- ===== src/SkipList/Refine.antt =====
-- The operations of the skip list do what the sorted list says.
pub mod ScoreLoop
pub mod Lists
pub mod Levels
pub mod ByRank
pub mod Ranks
pub mod RankOf
pub mod Ranges
pub mod NodeByRank
pub mod Scores
pub mod ScoresBack
pub mod Runs
use mathlib.Core.List.{append_assoc, map}
use mathlib.Core.Path.{subst}
use skynet_slg.Prelude.{
  ℕ, zero, suc, ◌+◌, ◌^◌, ◌≤◌, ◌<◌, ◌≡◌, ◌≢◌, refl, sym, ap, ◌∙◌, arith, List, [], ◌∷◌, ◌++◌,
  length, length-append, length-map, Bool, true, false, Bool-cases, inl, inr, Option, none, some,
  if◌then◌else◌, not, ◌||◌,
}
use skynet_slg.Prelude.Bytes.{All}
use skynet_slg.SkipList.{SkipList, Trail, header, sl_create, search_list, skiplist_maxlevel}
use skynet_slg.SkipList.Key.{Score, Entry, before, same}
use skynet_slg.SkipList.Key.Order.{same_lem}
use skynet_slg.SkipList.Links.{links, IsLinked, IsLinked-cons}
use skynet_slg.SkipList.Walk.{Goes, Stops, IsAt}
use skynet_slg.SkipList.Change.{
  sl_insert, sl_delete, delete_if_same, insert_at, sl_delete_node, entry_at, goes_before,
}
use skynet_slg.SkipList.Shape.{IsShaped, entries, heights}
use skynet_slg.SkipList.Shape.Place.{All-left, All-right}
use skynet_slg.SkipList.Shape.Chain.{first_of}
use skynet_slg.SkipList.Shape.Inserted.{insert_at-IsShaped, insert_at-entries}
use skynet_slg.SkipList.Shape.Maps.{map-append}
use skynet_slg.SkipList.Shape.Deleted.{sl_delete_node-IsShaped, sl_delete_node-entries, next_link}
use skynet_slg.SkipList.Shape.Search.{search_list-found, next_found}
use skynet_slg.SkipList.Sorted.{
  IsSorted, insert_sorted, is_in, remove_first, IsBefore, NotBefore, NotBefore-all,
  insert_sorted-at, insert_sorted-IsSorted, IsSorted-without, IsSorted-right, not_same_before,
  is_in-after, none_same,
}

-- Tests that do not read the rank.
module _ (P : ℕ → Bool) where
  pub all-Goes : (p : ℕ) (ns : List ℕ) → All (λ a. P a ≡ true) ns → Goes (λ a r. P a) p ns
  all-Goes p [] g = tt
  all-Goes p (a ∷ ns) g = (g.0, all-Goes (suc p) ns g.1)

  pub all-Stops : (p : ℕ) (ns : List ℕ) → All (λ a. P a ≡ false) ns → Stops (λ a r. P a) p ns
  all-Stops p [] g = tt
  all-Stops p (a ∷ ns) g = (g.0, all-Stops (suc p) ns g.1)

module _ {S : Type 0} ⦃o : Score S⦄ where
  -- The memory has the invariant, and its nodes hold the entries in their order.
  abbrev pub Represents : SkipList S → List (Entry S) → Type 0
  Represents sl es = (ns : List ℕ) × IsShaped sl ns × (entries sl ns ≡ es) × IsSorted es

  -- A new list holds nothing.
  pub sl_create-Represents : (zero_score : S) → Represents (sl_create zero_score) []
  unfolding sl_create
  sl_create-Represents zero_score = (
    [],
    record {
      linked = λ i below.
          IsLinked-cons (λ a j. record { forward = none; span = 0 }) (λ a. skiplist_maxlevel) i
            header [] (λ high. unfold links in refl) (unfold IsLinked in tt);
      all_nodes = tt;
      distinct = (tt, tt);
      above = λ i over. refl;
      top = refl;
      no_obj = refl;
      some_level = omega arith;
      max_level = omega arith;
      used = omega arith;
      backed = refl;
      count = refl;
      small = omega arith;
    },
    refl,
    tt,
  )

  -- Where a sorted list is cut by an entry.
  abbrev pub IsCut : SkipList S → Entry S → List ℕ → Type 0
  IsCut sl e ns =
      (front : List ℕ) × (zs : List ℕ) × (ns ≡ front ++ zs)
      × All (IsBefore e) (entries sl front)
      × All (NotBefore e) (entries sl zs)

  pub cut : (sl : SkipList S) (e : Entry S) (ns : List ℕ) → IsSorted (entries sl ns) → IsCut sl e ns
  cut sl e [] g = ([], [], refl, tt, tt)
  cut sl e (a ∷ ns) g = elim (Bool-cases (before (entry_at sl.nodes a) e)) [
    | inl p ↦
        let (front, zs, split, left, right) = cut sl e ns g.1 in
        (a ∷ front, zs, ap (λ l. a ∷ l) split, (p, left), right)
    | inr p ↦
        ([], a ∷ ns, refl, tt, (p, NotBefore-all e (entry_at sl.nodes a) (entries sl ns) p g.0))
  ]

  pub All-entries :
      (P : Entry S → Type 0) (sl : SkipList S) (ns : List ℕ)
      → All P (entries sl ns)
      → All (λ a. P (entry_at sl.nodes a)) ns
  All-entries P sl [] g = tt
  All-entries P sl (a ∷ ns) g = (g.0, All-entries P sl ns g.1)

  module _ (sl : SkipList S) (e : Entry S) (front zs : List ℕ) (s : IsShaped sl (front ++ zs))
      (left : All (IsBefore e) (entries sl front)) (right : All (NotBefore e) (entries sl zs)) where
    pub search-before :
        (trail : Trail) × (x : ℕ) × (r : ℕ) × (search_list (2 ^ 32) sl (goes_before sl.nodes e)
          ≡ some (trail, x, r))
        × ((i : ℕ) → i < sl.level → IsAt (heights sl) i (header ∷ front) (trail i))
        × (trail 0 ≡ (x, r))
    search-before =
        search_list-found (2 ^ 32) sl front zs s (omega arith) (goes_before sl.nodes e)
          (all-Goes (λ a. before (entry_at sl.nodes a) e) 0 front
            (All-entries (IsBefore e) sl front left))
          (all-Stops (λ a. before (entry_at sl.nodes a) e) (length front) zs
            (All-entries (NotBefore e) sl zs right))

  -- slInsert on memory that stands for a sorted list ends, and leaves memory that stands for the
  -- sorted list with the entry: behind all the entries before it, in front of the others. The new
  -- node may have any level from 1 to 32, and the list has fewer than 2^32 - 2 entries.
  pub sl_insert-Represents :
      (sl : SkipList S) (es : List (Entry S)) (level : ℕ) (e : Entry S)
      → Represents sl es
      → 0 < level
      → level ≤ skiplist_maxlevel
      → length es + 2 < 2 ^ 32
      → (sl' : SkipList S) × (sl_insert sl level e ≡ some sl') × Represents sl' (insert_sorted e es)
  unfolding sl_insert
  sl_insert-Represents sl es level e (ns, s, holds, sorted) some_levels tall room =
      let (front, zs, split, left, right) = cut sl e ns (subst IsSorted (sym holds) sorted) in
      let s' : IsShaped sl (front ++ zs) = subst (IsShaped sl) split s in
      let (trail, x, r, run, found, here) = search-before sl e front zs s' left right in
      let size : length (front ++ zs) ≡ length es =
        ap length (sym split) ∙ sym (length-map ns (entry_at sl.nodes)) ∙ ap length holds in
      let room' : suc (suc (length (front ++ zs))) < 2 ^ 32 = omega (arith, room, size) in
      let parts : es ≡ entries sl front ++ entries sl zs =
        sym holds ∙ ap (entries sl) split ∙ map-append (entry_at sl.nodes) front zs in
      let spec : insert_sorted e es ≡ entries sl front ++ (e ∷ entries sl zs) =
        ap (insert_sorted e) parts
        ∙ insert_sorted-at e (entries sl front) (entries sl zs) left right in
      (
        insert_at sl level e trail,
        rw (sl_insert, run),
        (
          front ++ (sl.fresh ∷ zs),
          insert_at-IsShaped sl front zs s' trail found e level some_levels tall room',
          insert_at-entries sl front zs s' trail found e level some_levels tall room' ∙ sym spec,
          insert_sorted-IsSorted e es sorted,
        ),
      )

  -- The end of slDelete at the node behind the place.
  delete_if_same-Represents :
      (sl : SkipList S) (e : Entry S) (front zs : List ℕ) (s : IsShaped sl (front ++ zs))
      (trail : Trail)
      → ((i : ℕ) → i < sl.level → IsAt (heights sl) i (header ∷ front) (trail i))
      → All (IsBefore e) (entries sl front)
      → All (NotBefore e) (entries sl zs)
      → IsSorted (entries sl front ++ entries sl zs)
      → (sl' : SkipList S) × (delete_if_same sl e trail (first_of zs)
          ≡ (sl', is_in e (entries sl front ++ entries sl zs)))
        × Represents sl' (remove_first e (entries sl front ++ entries sl zs))
  unfolding delete_if_same is_in remove_first
  delete_if_same-Represents sl e front [] s trail found left right sorted = (
    sl,
    rw (is_in-after e (entries sl front) [] left) refl,
    rw (not_same_before e (entries sl front) [] left)
        (front ++ [], s, map-append (entry_at sl.nodes) front [], sorted),
  )
  delete_if_same-Represents sl e front (x ∷ zs) s trail found left right sorted =
      let sorted_x : IsSorted (entries sl (x ∷ zs)) =
        IsSorted-right (entries sl front) (entries sl (x ∷ zs)) sorted in
      elim (Bool-cases (same e (entry_at sl.nodes x))) [
        | inl p ↦ (
          sl_delete_node sl x trail,
          rw (is_in-after e (entries sl front) (entries sl (x ∷ zs)) left, p) refl,
          rw (not_same_before e (entries sl front) (entries sl (x ∷ zs)) left, p)
              (
                front ++ zs,
                sl_delete_node-IsShaped sl front x zs s trail found,
                sl_delete_node-entries sl front x zs s trail found (front ++ zs)
                    ∙ map-append (entry_at sl.nodes) front zs,
                IsSorted-without (entries sl front) (entry_at sl.nodes x ∷ []) (entries sl zs)
                    sorted,
              ),
        )
        | inr p ↦
            let later : before e (entry_at sl.nodes x) ≡ true =
              ground (arith, same_lem e (entry_at sl.nodes x), p, right.0) in
            let (out, whole) = none_same e (entry_at sl.nodes x) (entries sl zs) later sorted_x.0 in
            (
              sl,
              rw (is_in-after e (entries sl front) (entries sl (x ∷ zs)) left, out, p) refl,
              rw (not_same_before e (entries sl front) (entries sl (x ∷ zs)) left, whole)
                  (front ++ (x ∷ zs), s, map-append (entry_at sl.nodes) front (x ∷ zs), sorted),
            )
      ]

  -- slDelete on memory that stands for a sorted list ends, says whether the list has an entry with
  -- the score and the object, and leaves memory that stands for the list without the first of them.
  pub sl_delete-Represents :
      (sl : SkipList S) (es : List (Entry S)) (e : Entry S)
      → Represents sl es
      → (sl' : SkipList S) × (sl_delete sl e ≡ some (sl', is_in e es))
        × Represents sl' (remove_first e es)
  unfolding sl_delete
  sl_delete-Represents sl es e (ns, s, holds, sorted) =
      let (front, zs, split, left, right) = cut sl e ns (subst IsSorted (sym holds) sorted) in
      let s' : IsShaped sl (front ++ zs) = subst (IsShaped sl) split s in
      let (trail, x, r, run, found, here) = search-before sl e front zs s' left right in
      let parts : entries sl front ++ entries sl zs ≡ es =
        sym (sym holds ∙ ap (entries sl) split ∙ map-append (entry_at sl.nodes) front zs) in
      let next : (sl.levels x 0).forward ≡ first_of zs =
        ap (λ (at : ℕ × ℕ). (sl.levels at.0 0).forward) (sym here)
        ∙ next_found sl front zs s' (trail 0) (found 0 s.some_level) in
      let (sl', ends, after) =
        delete_if_same-Represents sl e front zs s' trail found left right
          (subst IsSorted (sym parts) sorted) in
      (
        sl',
        rw (sl_delete, run, next, ends) (ap (λ (b : Bool). some (sl', b)) (ap (is_in e) parts)),
        subst (λ l. Represents sl' (remove_first e l)) parts after,
      )
