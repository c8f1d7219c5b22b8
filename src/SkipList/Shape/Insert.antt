-- ===== src/SkipList/Shape/Insert.antt =====
-- slInsert after its search keeps the invariant: the new node is where the search ended.
use skynet_slg.SkipList.Shape.First.{IsLinked-all_low, back-empty, same-rest}
use mathlib.Core.Path.{subst}
use native.Mathlib.Decide.{dec_lt}
use skynet_slg.Prelude.{
  ℕ, suc, ◌+◌, ◌-◌, ◌^◌, ◌≤◌, ◌<◌, ◌≡◌, ◌≢◌, refl, sym, ap, ◌∙◌, arith, List, [], ◌∷◌, ◌++◌, length,
  length-append, none, if◌then◌else◌, inl, inr, ◌⊎◌, ltb,
}
use skynet_slg.Prelude.Bytes.{All}
use skynet_slg.SkipList.{Levels, SkipList, Trail, header, skiplist_maxlevel}
use skynet_slg.SkipList.Links.{
  links, IsLinked, IsLow, Level-ext, links-all_low, IsLinked-same, IsLinked-cons,
}
use skynet_slg.SkipList.Walk.{IsAt}
use skynet_slg.SkipList.Change.{
  for_levels, grow_level, grow_trail, link_level, widen_level, insert_levels,
}
use skynet_slg.SkipList.Shape.{IsShaped, IsNode, heights}
use skynet_slg.SkipList.Shape.Loops.{
  set_level_self, for_levels-outside, for_levels-inside, grow_level-IsLocal, link_level-IsLocal,
  widen_level-IsLocal, grow_trail-outside, grow_trail-inside,
}
use skynet_slg.SkipList.Shape.Place.{All-left, All-right, All-map}
use skynet_slg.SkipList.Shape.Steps.{link_level-IsLinked, widen_level-IsLinked}

module _ {S : Type 0} (sl : SkipList S) (front zs : List ℕ) (s : IsShaped sl (front ++ zs))
    (trail : Trail)
    (found : (i : ℕ) → i < sl.level → IsAt (heights sl) i (header ∷ front) (trail i)) where
  abbrev first : List ℕ
  first = header ∷ front

  -- The search ended at the last node of the front.
  abbrev pub at_end : IsAt (heights sl) 0 first (trail 0)
  at_end = found 0 s.some_level

  pub no_back : at_end.back ≡ []
  no_back =
      back-empty sl at_end.back at_end.low
        (same-rest sl front zs s at_end.front (trail 0).0 at_end.back at_end.split)

  pub end_rank : suc (trail 0).1 ≡ length first
  end_rank = omega (
    arith,
    at_end.rank,
    ap length at_end.split,
    length-append at_end.front ((trail 0).0 ∷ at_end.back),
    ap length no_back,
  )

  module _ (level : ℕ) (tall : level ≤ skiplist_maxlevel) where
    abbrev trail1 : Trail
    trail1 = for_levels grow_trail (level - sl.level) sl.level trail

    abbrev levels1 : Levels
    levels1 = for_levels (grow_level sl.length) (level - sl.level) sl.level sl.levels

    -- A level above those that the list has.
    abbrev IsNew : ℕ → Type 0
    IsNew i = (sl.level ≤ i) × (i < level)

    levels1-header : (i : ℕ) → IsNew i → levels1 header i ≡ links (heights sl) i (front ++ zs)
    levels1-header i new =
        let (levels0, same, run) =
          for_levels-inside (grow_level sl.length) (grow_level-IsLocal sl.length) (level - sl.level)
            sl.level sl.levels i new.0 (omega (arith, new)) in
        let low : All (IsLow (heights sl) i) (front ++ zs) =
          All-map (IsNode sl sl.level) (IsLow (heights sl) i) (λ a g. omega (arith, g.1, new))
            (front ++ zs) s.all_nodes in
        let grown_here : grow_level sl.length i levels0 header i
            ≡ record { forward = none; span = length (front ++ zs) } =
          unfold grow_level in
          set_level_self levels0 header i _
          ∙ Level-ext (ap (λ l. l.forward) (same header) ∙ s.above i new.0)
              (omega (arith, s.count, s.small)) in
        run header ∙ grown_here ∙ sym (links-all_low (heights sl) i (front ++ zs) low)

    pub grown :
        (i : ℕ)
        → (i < level) ⊎ (i < sl.level)
        → IsLinked (levels1) (heights sl) i (first ++ zs) × IsAt (heights sl) i first (trail1 i)
    grown i used = elim (dec_lt i sl.level) [
      | yes old ↦ (
        IsLinked-same sl.levels (levels1) (heights sl) i (first ++ zs)
            (λ a.
              for_levels-outside (grow_level sl.length) (grow_level-IsLocal sl.length)
                (level - sl.level) sl.level sl.levels a i (λ p q. omega (arith, p, old)))
            (s.linked i old),
        subst (IsAt (heights sl) i first)
            (sym (
              grow_trail-outside (level - sl.level) sl.level trail i
                (λ p q. omega (arith, p, old))))
            (found i old),
      )
      | no not_old ↦
          let new : (sl.level ≤ i) × (i < level) = elim used [
            | inl below ↦ (omega arith, below)
            | inr below ↦ absurd (omega arith)
          ] in
          let low : All (IsLow (heights sl) i) (front ++ zs) =
            All-map (IsNode sl sl.level) (IsLow (heights sl) i) (λ a g. omega (arith, g.1, new))
              (front ++ zs) s.all_nodes in
          (
            IsLinked-cons (levels1) (heights sl) i header (front ++ zs)
                (λ high. levels1-header i new)
                (IsLinked-all_low (levels1) (heights sl) i (front ++ zs) low),
            subst (IsAt (heights sl) i first)
                (sym (
                  grow_trail-inside (level - sl.level) sl.level trail i new.0 (omega (arith, new))))
                (record {
                  front = [];
                  back = front;
                  split = refl;
                  rank = refl;
                  high = omega (arith, new, tall, s.top);
                  low = All-left (IsLow (heights sl) i) front zs low;
                }),
          )
    ]

  module _ (level : ℕ) (some_levels : 0 < level) (tall : level ≤ skiplist_maxlevel)
      (room : suc (suc (length (front ++ zs))) < 2 ^ 32) (h' : ℕ → ℕ) (height : h' sl.fresh ≡ level)
      (same : All (λ a. h' a ≡ heights sl a) (first ++ zs)) where
    abbrev levels' : Levels
    levels' = insert_levels sl.length sl.fresh level sl.level sl.levels trail

    new : All (λ a. a ≢ sl.fresh) (first ++ zs)
    new = (
      (λ e. omega (arith, e, s.used)),
      All-map (IsNode sl sl.level) (λ a. a ≢ sl.fresh) (λ a g e. omega (arith, g.2, e))
          (front ++ zs) s.all_nodes,
    )

    IsAt-other : (i : ℕ) (at : ℕ × ℕ) → IsAt (heights sl) i first at → at.0 ≢ sl.fresh
    IsAt-other i at p =
        (All-right (λ a. a ≢ sl.fresh) p.front (at.0 ∷ p.back)
          (subst (All (λ a. a ≢ sl.fresh)) p.split (All-left (λ a. a ≢ sl.fresh) first zs new))).0

    abbrev linked1 : Levels
    linked1 = for_levels (link_level sl.fresh (trail1 level tall)) level 0 (levels1 level tall)

    fits : length first + length zs < 2 ^ 32
    fits = omega (arith, room, length-append front zs)

    grown_end : trail1 level tall 0 ≡ trail 0
    grown_end =
        grow_trail-outside (level - sl.level) sl.level trail 0
          (λ p q. omega (arith, p, s.some_level))

    end_rank1 : suc (trail1 level tall 0).1 ≡ length first
    end_rank1 = ap (λ t. suc t.1) grown_end ∙ end_rank

    inserted_low : (i : ℕ) → i < level → IsLinked levels' h' i (first ++ (sl.fresh ∷ zs))
    unfolding insert_levels
    inserted_low i below =
        let (levels0, old, run) =
          for_levels-inside (link_level sl.fresh (trail1 level tall))
            (link_level-IsLocal sl.fresh (trail1 level tall)) level 0 (levels1 level tall) i
            (omega arith) (omega arith) in
        let (linked, at) = grown level tall i (inl below) in
        IsLinked-same (link_level sl.fresh (trail1 level tall) i levels0) levels' h' i
          (first ++ (sl.fresh ∷ zs))
          (λ a.
            for_levels-outside (widen_level (trail1 level tall))
              (widen_level-IsLocal (trail1 level tall)) (sl.level - level) level linked1 a i
              (λ p q. omega (arith, p, below))
            ∙ run a)
          (link_level-IsLinked levels0 (heights sl) h' i sl.fresh first zs (trail1 level tall) at
            (IsLinked-same (levels1 level tall) levels0 (heights sl) i (first ++ zs) old linked)
            s.distinct new same end_rank1 fits (omega (arith, below, height))
            (IsAt-other i (trail1 level tall i) at))

    inserted_high :
        (i : ℕ) → level ≤ i → i < sl.level → IsLinked levels' h' i (first ++ (sl.fresh ∷ zs))
    unfolding insert_levels
    inserted_high i above below =
        let (levels0, old, run) =
          for_levels-inside (widen_level (trail1 level tall))
            (widen_level-IsLocal (trail1 level tall)) (sl.level - level) level linked1 i above
            (omega arith) in
        let (linked, at) = grown level tall i (inr below) in
        let old' : (a : ℕ) → levels0 a i ≡ levels1 level tall a i = λ a.
          old a
          ∙ for_levels-outside (link_level sl.fresh (trail1 level tall))
              (link_level-IsLocal sl.fresh (trail1 level tall)) level 0 (levels1 level tall) a i
              (λ p q. omega (arith, q, above)) in
        IsLinked-same (widen_level (trail1 level tall) i levels0) levels' h' i
          (first ++ (sl.fresh ∷ zs)) run
          (widen_level-IsLinked levels0 (heights sl) h' i sl.fresh first zs (trail1 level tall) at
            (IsLinked-same (levels1 level tall) levels0 (heights sl) i (first ++ zs) old' linked)
            s.distinct new same end_rank1 fits (omega (arith, above, height)))

    -- Every level after the insertion.
    pub inserted :
        (i : ℕ)
        → i < (if ltb sl.level level then level else sl.level)
        → IsLinked levels' h' i (first ++ (sl.fresh ∷ zs))
    inserted i below = elim (dec_lt i level) [
      | yes low ↦ inserted_low i low
      | no not_low ↦ inserted_high i (omega arith) (ground (arith, below))
    ]

    -- A level that the list still does not have.
    pub inserted_above :
        (i : ℕ)
        → (if ltb sl.level level then level else sl.level) ≤ i
        → (levels' header i).forward ≡ none
    unfolding insert_levels
    inserted_above i above =
        let over : (level ≤ i) × (sl.level ≤ i) = ground (arith, above) in
        ap (λ l. l.forward)
          (for_levels-outside (widen_level (trail1 level tall))
              (widen_level-IsLocal (trail1 level tall)) (sl.level - level) level linked1 header i
              (λ p q. omega (arith, q, over))
            ∙ for_levels-outside (link_level sl.fresh (trail1 level tall))
                (link_level-IsLocal sl.fresh (trail1 level tall)) level 0 (levels1 level tall)
                header i (λ p q. omega (arith, q, over))
            ∙ for_levels-outside (grow_level sl.length) (grow_level-IsLocal sl.length)
                (level - sl.level) sl.level sl.levels header i (λ p q. omega (arith, p, q, over)))
        ∙ s.above i over.1
