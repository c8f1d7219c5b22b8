-- ===== src/SkipList/Shape/Inserted.antt =====
-- The memory after slInsert has the invariant again, and the new entry in its place.
use skynet_slg.SkipList.Shape.Maps.{map-append, map-same, IsDistinct-right}
use mathlib.Core.List.{map}
use mathlib.Core.Path.{subst}
use skynet_slg.Prelude.{
  ℕ, suc, ◌+◌, ◌^◌, ◌≤◌, ◌<◌, ◌≡◌, ◌≢◌, refl, sym, ap, ◌∙◌, arith, List, [], ◌∷◌, ◌++◌, length,
  length-append, Option, none, some, ◌==◌, if◌then◌else◌, ltb,
}
use skynet_slg.Prelude.Word.{u64}
use skynet_slg.Prelude.Bytes.{All, All-append}
use skynet_slg.SkipList.{
  Levels, Node, SkipList, Trail, header, skiplist_maxlevel, create_node, set_backward,
}
use skynet_slg.SkipList.Key.{Entry}
use skynet_slg.SkipList.Links.{IsLinked, IsLinked-first, IsLinked-rest}
use skynet_slg.SkipList.Walk.{IsAt}
use skynet_slg.SkipList.Change.{insert_levels, insert_at, set_after, entry_at}
use skynet_slg.SkipList.Shape.{IsShaped, IsDistinct, IsNode, IsBacked, heights, entries}
use skynet_slg.SkipList.Shape.Place.{
  All-left, All-right, All-map, All-both, IsDistinct-insert, IsDistinct-around,
}
use skynet_slg.SkipList.Shape.Chain.{
  last_of, first_of, last_of-place, links-first, IsSameNode, set_backward_self, set_backward-other,
  set_backward-same, set_after-same, set_after-other, create_node_self, create_node-other,
  entry_at-same, SameBack, IsBacked-same, IsBacked-change, IsBacked-after,
}
use skynet_slg.SkipList.Shape.Insert.{at_end, no_back, inserted, inserted_above}

module _ {S : Type 0} (sl : SkipList S) (front zs : List ℕ) (s : IsShaped sl (front ++ zs))
    (trail : Trail)
    (found : (i : ℕ) → i < sl.level → IsAt (heights sl) i (header ∷ front) (trail i)) (e : Entry S)
    (level : ℕ) (some_levels : 0 < level) (tall : level ≤ skiplist_maxlevel)
    (room : suc (suc (length (front ++ zs))) < 2 ^ 32) where
  abbrev x : ℕ
  x = sl.fresh

  abbrev result : SkipList S
  result = insert_at sl level e trail

  abbrev levels' : Levels
  levels' = insert_levels sl.length x level sl.level sl.levels trail

  abbrev back : Option ℕ
  back = if (trail 0).0 == header then none else some (trail 0).0

  abbrev nodes2 : ℕ → Node S
  nodes2 = set_backward (create_node sl.nodes x level e.score (some e.obj)) x back

  abbrev nodes3 : ℕ → Node S
  nodes3 = (set_after nodes2 (levels' x 0).forward (some x) sl.tail).0

  is_result : result ≡ record {
    nodes = nodes3;
    levels = levels';
    fresh = suc sl.fresh;
    tail = (set_after nodes2 (levels' x 0).forward (some x) sl.tail).1;
    length = u64 (sl.length + 1);
    level = if ltb sl.level level then level else sl.level;
  }
  unfolding insert_at
  is_result = refl

  new_node :
      IsSameNode
        (nodes3 x)
        (record { obj = some e.obj; score = e.score; backward = none; height = level })
  new_node =
      let a = set_after-same nodes2 (levels' x 0).forward (some x) sl.tail x in
      let b = set_backward-same (create_node sl.nodes x level e.score (some e.obj)) x back x in
      let c = create_node_self sl.nodes x level e.score (some e.obj) in
      (
        a.0 ∙ b.0 ∙ ap (λ n. n.obj) c,
        a.1 ∙ b.1 ∙ ap (λ n. n.score) c,
        a.2 ∙ b.2 ∙ ap (λ n. n.height) c,
      )

  old_node2 : (a : ℕ) → a ≢ x → nodes2 a ≡ sl.nodes a
  old_node2 a ne =
      set_backward-other (create_node sl.nodes x level e.score (some e.obj)) x back a ne
      ∙ create_node-other sl.nodes x level e.score (some e.obj) a ne

  old_node : (a : ℕ) → a ≢ x → IsSameNode (nodes3 a) (sl.nodes a)
  old_node a ne =
      subst (IsSameNode (nodes3 a)) (old_node2 a ne)
        (set_after-same nodes2 (levels' x 0).forward (some x) sl.tail a)

  fresh_all : All (λ a. a ≢ x) (front ++ zs)
  fresh_all =
      All-map (IsNode sl sl.level) (λ a. a ≢ x) (λ a g r. omega (arith, g.2, r)) (front ++ zs)
        s.all_nodes

  header_old : header ≢ x
  header_old r = omega (arith, r, s.used)

  same_heights : All (λ a. (nodes3 a).height ≡ heights sl a) ((header ∷ front) ++ zs)
  same_heights = (
    (old_node header header_old).2,
    All-map (λ a. a ≢ x) (λ a. (nodes3 a).height ≡ heights sl a) (λ a ne. (old_node a ne).2)
        (front ++ zs) fresh_all,
  )

  linked' :
      (i : ℕ)
      → i < (if ltb sl.level level then level else sl.level)
      → IsLinked levels' (λ a. (nodes3 a).height) i ((header ∷ front) ++ (x ∷ zs))
  linked' =
      inserted sl front zs s trail found level some_levels tall room (λ a. (nodes3 a).height)
        new_node.2 same_heights

  -- The new node's link at level 0.
  next_is : (levels' x 0).forward ≡ first_of zs
  next_is =
      let at_x =
        IsLinked-first levels' (λ a. (nodes3 a).height) 0 x zs
          (IsLinked-rest levels' (λ a. (nodes3 a).height) 0 (header ∷ front) (x ∷ zs)
            (linked' 0 (ground (arith, some_levels, s.some_level))))
          (omega (arith, some_levels, new_node.2)) in
      ap (λ l. l.forward) at_x
      ∙ links-first (λ a. (nodes3 a).height) zs
          (All-map (λ a. IsNode sl sl.level a × ((nodes3 a).height ≡ heights sl a))
            (λ a. 0 < (nodes3 a).height) (λ a g. omega (arith, g.0.0, g.1)) zs
            (All-both (IsNode sl sl.level) (λ a. (nodes3 a).height ≡ heights sl a) zs
              (All-right (IsNode sl sl.level) front zs s.all_nodes)
              (All-right (λ a. (nodes3 a).height ≡ heights sl a) (header ∷ front) zs same_heights)))

  is_back : back ≡ last_of none front
  is_back =
      last_of-place front (at_end sl front zs s trail found).front (trail 0).0
        ((at_end sl front zs s trail found).split
          ∙ ap (λ l. (at_end sl front zs s trail found).front ++ ((trail 0).0 ∷ l))
              (no_back sl front zs s trail found))
        (All-left (λ a. a ≢ header) front zs s.distinct.0)

  not_next : (a : ℕ) (ws : List ℕ) → All (λ b. b ≢ a) ws → some a ≢ first_of ws
  not_next a [] g r = cc
  not_next a (w ∷ ws) g r = let same : a ≡ w = cc in g.0 (sym same)

  front_not_next : (ws : List ℕ) → IsDistinct (front ++ ws) → All (λ a. some a ≢ first_of ws) front
  front_not_next [] d =
      All-map (λ a. a ≢ x) (λ a. some a ≢ none) (λ a g r. cc) front
        (All-left (λ a. a ≢ x) front zs fresh_all)
  front_not_next (w ∷ ws) d =
      All-map (λ a. a ≢ w) (λ a. some a ≢ some w) (λ a ne r. let same : a ≡ w = cc in ne same) front
        (IsDistinct-around front w ws d).0

  same_back : All (SameBack sl.nodes nodes3) front
  same_back =
      All-map (λ a. (some a ≢ first_of zs) × (a ≢ x)) (SameBack sl.nodes nodes3)
        (λ a g.
          ap (λ n. n.backward)
            (set_after-other nodes2 (levels' x 0).forward (some x) sl.tail a
                (λ r. g.0 (r ∙ next_is))
              ∙ old_node2 a g.1))
        front
        (All-both (λ a. some a ≢ first_of zs) (λ a. a ≢ x) front (front_not_next zs s.distinct.1)
          (All-left (λ a. a ≢ x) front zs fresh_all))

  backed' :
      IsBacked nodes3 none
        (front ++ (x ∷ zs))
        (set_after nodes2 (levels' x 0).forward (some x) sl.tail).1
  backed' =
      let fresh_zs = All-right (λ a. a ≢ x) front zs fresh_all in
      IsBacked-change sl.nodes nodes3 none front zs (x ∷ zs) sl.tail
        (set_after nodes2 (levels' x 0).forward (some x) sl.tail).1 same_back
        (λ b. (
          ap (λ n. n.backward)
                (set_after-other nodes2 (levels' x 0).forward (some x) sl.tail x
                  (λ r. not_next x zs fresh_zs (r ∙ next_is)))
              ∙ set_backward_self (create_node sl.nodes x level e.score (some e.obj)) x back
              ∙ is_back,
          subst
              (λ (f : Option ℕ).
                IsBacked nodes3 (some x) zs (set_after nodes2 f (some x) sl.tail).1)
              (sym next_is)
              (IsBacked-after nodes2 nodes3 (last_of none front) (some x) zs sl.tail
                (ap (λ (f : Option ℕ). (set_after nodes2 f (some x) sl.tail).0) next_is)
                (IsDistinct-right front zs s.distinct.1)
                (IsBacked-same sl.nodes nodes2 (last_of none front) zs sl.tail
                  (All-map (λ a. a ≢ x) (SameBack sl.nodes nodes2)
                    (λ a ne. ap (λ n. n.backward) (old_node2 a ne)) zs fresh_zs)
                  b)),
        ))
        s.backed

  abbrev IsNode' : ℕ → Type 0
  IsNode' a =
      (0 < (nodes3 a).height)
      × ((nodes3 a).height ≤ (if ltb sl.level level then level else sl.level))
      × (a < suc sl.fresh)
      × ((nodes3 a).obj ≢ none)

  all_nodes' : All IsNode' (front ++ (x ∷ zs))
  all_nodes' =
      let old : All IsNode' (front ++ zs) =
        All-map (λ a. IsNode sl sl.level a × (a ≢ x)) IsNode'
          (λ a g.
            let n = old_node a g.1 in
            (
              omega (arith, n.2, g.0.0),
              ground (arith, n.2, g.0.1),
              omega (arith, g.0.2),
              (λ r. g.0.3 (sym n.0 ∙ r)),
            ))
          (front ++ zs)
          (All-both (IsNode sl sl.level) (λ a. a ≢ x) (front ++ zs) s.all_nodes fresh_all) in
      All-append IsNode' front (x ∷ zs) (All-left IsNode' front zs old) (
        (
          omega (arith, new_node.2, some_levels),
          ground (arith, new_node.2),
          omega arith,
          (λ r. let never : some e.obj ≡ none = sym new_node.0 ∙ r in cc),
        ),
        All-right IsNode' front zs old,
      )

  sizes : length (front ++ (x ∷ zs)) ≡ suc (length (front ++ zs))
  sizes = omega (arith, length-append front (x ∷ zs), length-append front zs)

  pub insert_at-IsShaped : IsShaped result (front ++ (x ∷ zs))
  unfolding insert_at
  insert_at-IsShaped = record {
    linked = linked';
    all_nodes = all_nodes';
    distinct = IsDistinct-insert (header ∷ front) x zs s.distinct (λ r. header_old r, fresh_all);
    above =
        inserted_above sl front zs s trail found level some_levels tall room
          (λ a. (nodes3 a).height) new_node.2 same_heights;
    top = (old_node header header_old).2 ∙ s.top;
    no_obj = (old_node header header_old).0 ∙ s.no_obj;
    some_level = ground (arith, s.some_level);
    max_level = ground (arith, s.max_level, tall);
    used = omega (arith, s.used);
    backed = backed';
    count = omega (arith, s.count, sizes, room);
    small = omega (arith, sizes, room);
  }

  pub insert_at-entries :
      entries result (front ++ (x ∷ zs)) ≡ entries sl front ++ (e ∷ entries sl zs)
  unfolding insert_at
  insert_at-entries =
      let kept : (ws : List ℕ)
          → All (λ a. a ≢ x) ws
          → map (entry_at nodes3) ws ≡ map (entry_at sl.nodes) ws =
        λ ws g. map-same (entry_at nodes3) (entry_at sl.nodes) ws (
          All-map (λ a. a ≢ x) (λ a. entry_at nodes3 a ≡ entry_at sl.nodes a)
            (λ a ne. entry_at-same sl.nodes nodes3 a (old_node a ne)) ws g) in
      let new_entry : entry_at nodes3 x ≡ e = unfold entry_at in rw (new_node.0, new_node.1) refl in
      map-append (entry_at nodes3) front (x ∷ zs)
      ∙ rw (
        kept front (All-left (λ a. a ≢ x) front zs fresh_all),
        new_entry,
        kept zs (All-right (λ a. a ≢ x) front zs fresh_all),
      )
