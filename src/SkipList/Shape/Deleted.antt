-- ===== src/SkipList/Shape/Deleted.antt =====
-- slDeleteNode keeps the invariant, of the list without the node.
use skynet_slg.SkipList.Shape.Drop.{drop_levels-le, drop_levels-some, drop_levels-none}
use mathlib.Core.Path.{subst}
use native.Mathlib.Decide.{dec_lt}
use skynet_slg.Prelude.{
  ℕ, suc, ◌≤◌, ◌<◌, ◌≡◌, ◌≢◌, refl, sym, ap, ◌∙◌, arith, List, [], ◌∷◌, ◌++◌, length, length-append,
  Option, none, some,
}
use skynet_slg.Prelude.Bytes.{All, All-append}
use skynet_slg.SkipList.{Levels, Node, SkipList, Trail, header}
use skynet_slg.SkipList.Links.{
  IsLinked, links-none, IsLinked-same, IsLinked-first, IsLinked-rest, IsLinked-agree, Agree,
}
use skynet_slg.SkipList.Walk.{IsAt}
use skynet_slg.SkipList.Change.{for_levels, unlink_level, set_after, sl_delete_node, drop_levels}
use skynet_slg.SkipList.Shape.{IsShaped, IsDistinct, IsNode, IsBacked, heights, entries}
use skynet_slg.SkipList.Shape.Loops.{
  for_levels-outside, for_levels-inside, unlink_level-IsLocal, unlink_level-other,
}
use skynet_slg.SkipList.Shape.Place.{
  All-left, All-right, All-map, All-both, IsDistinct-remove, IsDistinct-around,
}
use skynet_slg.SkipList.Shape.Steps.{unlink_level-IsLinked}
use skynet_slg.SkipList.Shape.Chain.{
  last_of, first_of, links-first, IsSameNode, set_after-same, set_after-other, entry_at-same,
  SameBack, IsBacked-change, IsBacked-after,
}
use skynet_slg.SkipList.Shape.Maps.{IsDistinct-right}

module _ {S : Type 0} (sl : SkipList S) (front : List ℕ) (x : ℕ) (zs : List ℕ)
    (s : IsShaped sl (front ++ (x ∷ zs))) (trail : Trail)
    (found : (i : ℕ) → i < sl.level → IsAt (heights sl) i (header ∷ front) (trail i)) where
  abbrev levels' : Levels
  levels' = for_levels (unlink_level x trail) sl.level 0 sl.levels

  abbrev result : SkipList S
  result = sl_delete_node sl x trail

  sizes : length (front ++ (x ∷ zs)) ≡ suc (length (front ++ zs))
  sizes = omega (arith, length-append front (x ∷ zs), length-append front zs)

  linked' : (i : ℕ) → i < sl.level → IsLinked levels' (heights sl) i ((header ∷ front) ++ zs)
  linked' i below =
      let (levels0, old, run) =
        for_levels-inside (unlink_level x trail) (unlink_level-IsLocal x trail) sl.level 0 sl.levels
          i (omega arith) (omega arith) in
      IsLinked-same (unlink_level x trail i levels0) levels' (heights sl) i ((header ∷ front) ++ zs)
        run
        (unlink_level-IsLinked levels0 (heights sl) i x (header ∷ front) zs trail (found i below)
          (IsLinked-same sl.levels levels0 (heights sl) i ((header ∷ front) ++ (x ∷ zs)) old
            (s.linked i below))
          s.distinct (omega (arith, s.small, length-append front (x ∷ zs))))

  all_nodes_old : All (IsNode sl sl.level) (front ++ zs)
  all_nodes_old =
      All-append (IsNode sl sl.level) front zs
        (All-left (IsNode sl sl.level) front (x ∷ zs) s.all_nodes)
        (All-right (IsNode sl sl.level) front (x ∷ zs) s.all_nodes).1

  other_first : All (λ a. a ≢ x) (header ∷ front)
  other_first = (IsDistinct-around (header ∷ front) x zs s.distinct).0

  IsAt-other : (i : ℕ) (at : ℕ × ℕ) → IsAt (heights sl) i (header ∷ front) at → x ≢ at.0
  IsAt-other i at p r =
      (All-right (λ a. a ≢ x) p.front (at.0 ∷ p.back)
          (subst (All (λ a. a ≢ x)) p.split other_first)).0
        (sym r)

  -- The removed node's own links stay.
  own_links : (i : ℕ) → i < sl.level → levels' x i ≡ sl.levels x i
  own_links i below =
      let (levels0, old, run) =
        for_levels-inside (unlink_level x trail) (unlink_level-IsLocal x trail) sl.level 0 sl.levels
          i (omega arith) (omega arith) in
      run x
      ∙ unlink_level-other x trail i levels0 x (IsAt-other i (trail i) (found i below))
      ∙ old x

  pub next_link : (sl.levels x 0).forward ≡ first_of zs
  next_link =
      let own : 0 < heights sl x =
        (All-right (IsNode sl sl.level) front (x ∷ zs) s.all_nodes).0.0 in
      ap (λ l. l.forward)
        (IsLinked-first sl.levels (heights sl) 0 x zs
          (IsLinked-rest sl.levels (heights sl) 0 (header ∷ front) (x ∷ zs)
            (s.linked 0 s.some_level))
          own)
      ∙ links-first (heights sl) zs (
          All-map (IsNode sl sl.level) (λ a. 0 < heights sl a) (λ a g. g.0) zs
            (All-right (IsNode sl sl.level) front zs all_nodes_old))

  next_is : (levels' x 0).forward ≡ first_of zs
  next_is = ap (λ l. l.forward) (own_links 0 s.some_level) ∙ next_link

  abbrev back : Option ℕ
  back = (sl.nodes x).backward

  abbrev nodes' : ℕ → Node S
  nodes' = (set_after sl.nodes (levels' x 0).forward back sl.tail).0

  old_node : (a : ℕ) → IsSameNode (nodes' a) (sl.nodes a)
  old_node a = set_after-same sl.nodes (levels' x 0).forward back sl.tail a

  all_same : (ws : List ℕ) → All (λ a. (nodes' a).height ≡ heights sl a) ws
  all_same [] = tt
  all_same (w ∷ ws) = ((old_node w).2, all_same ws)

  linked-Agree :
      (i : ℕ) (ws : List ℕ) → All (Agree levels' levels' (heights sl) (λ a. (nodes' a).height) i) ws
  linked-Agree i [] = tt
  linked-Agree i (w ∷ ws) = (((old_node w).2, refl), linked-Agree i ws)

  abbrev k : ℕ
  k = drop_levels levels' sl.level

  above' : (i : ℕ) → k ≤ i → (levels' header i).forward ≡ none
  above' i over = elim (dec_lt i sl.level) [
    | yes below ↦ drop_levels-none levels' sl.level i over below
    | no not_below ↦
        ap (λ l. l.forward)
          (for_levels-outside (unlink_level x trail) (unlink_level-IsLocal x trail) sl.level 0
            sl.levels header i (λ p q. omega (arith, q, not_below)))
        ∙ s.above i (omega arith)
  ]

  k_small : k ≤ sl.level
  k_small = drop_levels-le levels' sl.level

  low_nodes : All (λ a. heights sl a ≤ k) (front ++ zs)
  low_nodes = elim (dec_lt k sl.level) [
    | yes dropped ↦
        let at_header =
          IsLinked-first levels' (heights sl) k header (front ++ zs) (linked' k dropped)
            (omega (arith, s.top, s.max_level, dropped)) in
        (links-none (heights sl) k (front ++ zs)
          (sym (ap (λ l. l.forward) at_header) ∙ above' k (omega arith))).0
    | no not_dropped ↦
        All-map (IsNode sl sl.level) (λ a. heights sl a ≤ k) (λ a g. omega (arith, g.1))
          (front ++ zs) all_nodes_old
  ]

  abbrev IsNode' : ℕ → Type 0
  IsNode' a =
      (0 < (nodes' a).height) × ((nodes' a).height ≤ k) × (a < sl.fresh) × ((nodes' a).obj ≢ none)

  all_nodes' : All IsNode' (front ++ zs)
  all_nodes' =
      All-map (λ a. IsNode sl sl.level a × (heights sl a ≤ k)) IsNode'
        (λ a g.
          let n = old_node a in
          (omega (arith, n.2, g.0.0), omega (arith, n.2, g.1), g.0.2, (λ r. g.0.3 (sym n.0 ∙ r))))
        (front ++ zs)
        (All-both (IsNode sl sl.level) (λ a. heights sl a ≤ k) (front ++ zs) all_nodes_old
          low_nodes)

  front_not_next : (ws : List ℕ) → IsDistinct (front ++ ws) → All (λ a. some a ≢ first_of ws) front
  front_not_next [] d = All-map (λ a. a ≢ x) (λ a. some a ≢ none) (λ a g r. cc) front other_first.1
  front_not_next (w ∷ ws) d =
      All-map (λ a. a ≢ w) (λ a. some a ≢ some w) (λ a ne r. let same : a ≡ w = cc in ne same) front
        (IsDistinct-around front w ws d).0

  distinct' : IsDistinct ((header ∷ front) ++ zs)
  distinct' = IsDistinct-remove (header ∷ front) x zs s.distinct

  same_back : All (SameBack sl.nodes nodes') front
  same_back =
      All-map (λ a. some a ≢ first_of zs) (SameBack sl.nodes nodes')
        (λ a g.
          ap (λ n. n.backward)
            (set_after-other sl.nodes (levels' x 0).forward back sl.tail a (λ r. g (r ∙ next_is))))
        front (front_not_next zs distinct'.1)

  backed' :
      IsBacked nodes' none (front ++ zs) (set_after sl.nodes (levels' x 0).forward back sl.tail).1
  backed' =
      IsBacked-change sl.nodes nodes' none front (x ∷ zs) zs sl.tail
        (set_after sl.nodes (levels' x 0).forward back sl.tail).1 same_back
        (λ b.
          subst
            (λ (f : Option ℕ).
              IsBacked nodes' (last_of none front) zs (set_after sl.nodes f back sl.tail).1)
            (sym next_is)
            (subst
              (λ (q : Option ℕ).
                IsBacked nodes' q zs (set_after sl.nodes (first_of zs) back sl.tail).1)
              b.0
              (IsBacked-after sl.nodes nodes' (some x) back zs sl.tail
                (ap (λ (f : Option ℕ). (set_after sl.nodes f back sl.tail).0) next_is)
                (IsDistinct-right front zs distinct'.1) b.1)))
        s.backed

  pub sl_delete_node-IsShaped : IsShaped result (front ++ zs)
  unfolding sl_delete_node
  sl_delete_node-IsShaped = record {
    linked = λ i below.
        IsLinked-agree levels' levels' (heights sl) (λ a. (nodes' a).height) i
          ((header ∷ front) ++ zs) (linked-Agree i ((header ∷ front) ++ zs))
          (linked' i (omega (arith, below, k_small)));
    all_nodes = all_nodes';
    distinct = distinct';
    above = above';
    top = (old_node header).2 ∙ s.top;
    no_obj = (old_node header).0 ∙ s.no_obj;
    some_level = drop_levels-some levels' sl.level s.some_level;
    max_level = omega (arith, k_small, s.max_level);
    used = s.used;
    backed = backed';
    count = omega (arith, s.count, sizes, s.small);
    small = omega (arith, sizes, s.small);
  }

  -- All nodes hold what they held.
  pub sl_delete_node-entries : (ws : List ℕ) → entries result ws ≡ entries sl ws
  unfolding sl_delete_node
  sl_delete_node-entries [] = refl
  sl_delete_node-entries (w ∷ ws) =
      rw (entry_at-same sl.nodes nodes' w (old_node w), sl_delete_node-entries ws)
