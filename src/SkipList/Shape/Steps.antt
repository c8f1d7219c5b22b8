-- ===== src/SkipList/Shape/Steps.antt =====
-- What the bodies of the loops over the levels do to the links of their level.
use mathlib.Core.Path.{subst}
use native.Mathlib.Decide.{dec_lt}
use skynet_slg.Prelude.{
  ℕ, suc, ◌+◌, ◌-◌, ◌^◌, ◌≤◌, ◌<◌, ◌≡◌, ◌≢◌, refl, sym, ap, ◌∙◌, arith, List, [], ◌∷◌, ◌++◌, length,
  false, Option, none, some, ==_iff, ==-eq_false,
}
use skynet_slg.Prelude.Word.{u32}
use skynet_slg.Prelude.Bytes.{All}
use skynet_slg.SkipList.{Level, Levels, Trail}
use skynet_slg.SkipList.Links.{
  links, IsLinked, lift, Level-ext, links-append, links-to, links-low, links-high, links-forward,
  links-Agree, IsLinked-agree, IsLinked-first, IsLinked-rest,
}
use skynet_slg.SkipList.Walk.{IsAt}
use skynet_slg.SkipList.Change.{link_level, widen_level, unlink_level, sub32, points_to}
use skynet_slg.SkipList.Shape.{IsDistinct}
use skynet_slg.SkipList.Shape.Loops.{set_level_self, set_level-node}
use skynet_slg.SkipList.Shape.Place.{
  All-right, All-map, All-both, link_at, linked_after, rank_back, Agree-after, low_back, relink,
  links-span, IsKept, IsDistinct-around,
}

pub sub32_lem : (a b : ℕ) → b ≤ a → a < 2 ^ 32 → sub32 a b ≡ a - b
sub32_lem a b le small = omega arith

u32_lem : (a : ℕ) → a < 2 ^ 32 → u32 a ≡ a
u32_lem a small = omega arith

module _ (levels : Levels) (h h' : ℕ → ℕ) (i x : ℕ) (first zs : List ℕ) (trail : Trail)
    (p : IsAt h i first (trail i)) (linked : IsLinked levels h i (first ++ zs))
    (distinct : IsDistinct (first ++ zs)) (new : All (λ a. a ≢ x) (first ++ zs))
    (same : All (λ a. h' a ≡ h a) (first ++ zs)) (place : suc (trail 0).1 ≡ length first)
    (small : length first + length zs < 2 ^ 32) where
  abbrev u : ℕ
  u = (trail i).0

  back_size : sub32 (trail 0).1 (trail i).1 ≡ length p.back
  back_size =
      let r = rank_back levels h i first zs (trail i) p linked in omega (arith, r, place, small)

  module _ (high : i < h' x) where
    abbrev linked_levels : Levels
    linked_levels = link_level x trail i levels

    link_x : (u ≢ x) → linked_levels x i ≡ links h i zs
    unfolding link_level
    link_x ne =
        set_level-node _ (trail i).0 i _ x i (λ e. ne (sym e))
        ∙ set_level_self levels x i _
        ∙ rw (link_at levels h i first zs (trail i) p linked, back_size)
            (Level-ext refl (
              omega (
                arith,
                links-span h i zs,
                small,
                rank_back levels h i first zs (trail i) p linked,
              )))

    link_u : linked_levels u i ≡ record { forward = some x; span = suc (length p.back) }
    unfolding link_level
    link_u =
        set_level_self _ (trail i).0 i _
        ∙ rw back_size (
            Level-ext refl (
              u32_lem (length p.back + 1)
                (omega (arith, small, rank_back levels h i first zs (trail i) p linked))
              ∙ omega arith))

    link_kept : (a : ℕ) → a ≢ u → a ≢ x → linked_levels a i ≡ levels a i
    unfolding link_level
    link_kept a ne ne' =
        set_level-node _ (trail i).0 i _ a i ne ∙ set_level-node levels x i _ a i ne'

    abbrev Kept : ℕ → Type 0
    Kept = IsKept levels h i first zs (trail i) p linked linked_levels h' distinct

    kept : All Kept (first ++ zs)
    kept =
        All-map (λ a. (h' a ≡ h a) × (a ≢ x)) Kept (λ a g. (g.0, λ ne. link_kept a ne g.1))
          (first ++ zs) (All-both (λ a. h' a ≡ h a) (λ a. a ≢ x) (first ++ zs) same new)

    -- A level that the new node has.
    pub link_level-IsLinked : u ≢ x → IsLinked linked_levels h' i (first ++ (x ∷ zs))
    unfolding IsLinked
    link_level-IsLinked ne =
        let after =
          Agree-after levels h i first zs (trail i) p linked linked_levels h' distinct kept in
        let low = low_back levels h i first zs (trail i) p linked linked_levels h' distinct kept in
        relink levels h i first zs (trail i) p linked linked_levels h' distinct kept (x ∷ zs)
          (link_u ∙ sym (links-to h' i p.back x zs low high))
          (
            (λ high'. link_x ne ∙ sym (links-Agree levels linked_levels h h' i zs after)),
            IsLinked-agree levels linked_levels h h' i zs after
                (linked_after levels h i first zs (trail i) p linked),
          )

  module _ (above : h' x ≤ i) where
    abbrev wide_levels : Levels
    wide_levels = widen_level trail i levels

    -- A level that the new node does not have.
    pub widen_level-IsLinked : IsLinked wide_levels h' i (first ++ (x ∷ zs))
    unfolding IsLinked widen_level
    widen_level-IsLinked =
        let kept : All (IsKept levels h i first zs (trail i) p linked wide_levels h' distinct)
            (first ++ zs) =
          All-map (λ a. h' a ≡ h a)
            (IsKept levels h i first zs (trail i) p linked wide_levels h' distinct)
            (λ a g. (g, λ ne. set_level-node levels (trail i).0 i _ a i ne)) (first ++ zs) same in
        let after =
          Agree-after levels h i first zs (trail i) p linked wide_levels h' distinct kept in
        let low = low_back levels h i first zs (trail i) p linked wide_levels h' distinct kept in
        let at_u = link_at levels h i first zs (trail i) p linked in
        let back = rank_back levels h i first zs (trail i) p linked in
        relink levels h i first zs (trail i) p linked wide_levels h' distinct kept (x ∷ zs)
          (set_level_self levels (trail i).0 i _
            ∙ rw
                (
                  at_u,
                  links-append h' i p.back (x ∷ zs) low,
                  links-low h' i x zs above,
                  links-Agree levels wide_levels h h' i zs after,
                )
                (Level-ext refl
                  (u32_lem _ (omega (arith, links-span h i zs, small, back)) ∙ omega arith)))
          (
            (λ high. absurd (omega (arith, high, above))),
            IsLinked-agree levels wide_levels h h' i zs after
                (linked_after levels h i first zs (trail i) p linked),
          )

module _ (levels : Levels) (h : ℕ → ℕ) (i x : ℕ) (first zs : List ℕ) (trail : Trail)
    (p : IsAt h i first (trail i)) (linked : IsLinked levels h i (first ++ (x ∷ zs)))
    (distinct : IsDistinct (first ++ (x ∷ zs)))
    (small : length first + suc (length zs) < 2 ^ 32) where
  abbrev gone_levels : Levels
  gone_levels = unlink_level x trail i levels

  at_place : levels (trail i).0 i ≡ lift (length p.back) (links h i (x ∷ zs))
  at_place = link_at levels h i first (x ∷ zs) (trail i) p linked

  others : All (λ a. a ≢ x) zs
  others = (IsDistinct-around first x zs distinct).1

  abbrev skipped : Level
  skipped = lift (length p.back) (links h i zs)

  back_small : length p.back < length first
  back_small = omega (arith, rank_back levels h i first (x ∷ zs) (trail i) p linked)

  points_away : (f : Option ℕ) → (f ≡ some x → ⊥) → points_to f x ≡ false
  points_away none ne = refl
  points_away (some b) ne = ==-eq_false b x (λ e. ne (ap some e))

  not_next : (links h i zs).forward ≡ some x → ⊥
  not_next e =
      let (us, vs, split, low, high) = links-forward h i zs x e in
      (All-right (λ a. a ≢ x) us (x ∷ vs) (subst (All (λ a. a ≢ x)) split others)).0 refl

  unlink_here : gone_levels (trail i).0 i ≡ skipped
  unfolding unlink_level
  unlink_here = elim (dec_lt i (h x)) [
    | yes high ↦
        let old : levels (trail i).0 i ≡ record { forward = some x; span = suc (length p.back) } =
          at_place ∙ rw (links-high h i x zs high) (Level-ext refl (omega arith)) in
        let gone : levels x i ≡ links h i zs =
          IsLinked-first levels h i x zs (IsLinked-rest levels h i first (x ∷ zs) linked) high in
        set_level_self levels (trail i).0 i _
        ∙ rw (old, gone, (==_iff x x).1 refl)
            (Level-ext refl (omega (arith, links-span h i zs, small, back_small)))
    | no not_high ↦
        let old : levels (trail i).0 i ≡ lift (suc (length p.back)) (links h i zs) =
          at_place ∙ rw (links-low h i x zs (omega arith)) (Level-ext refl (omega arith)) in
        set_level_self levels (trail i).0 i _
        ∙ rw (old, points_away (links h i zs).forward not_next)
            (Level-ext refl (omega (arith, links-span h i zs, small, back_small)))
  ]

  pub unlink_level-IsLinked : IsLinked gone_levels h i (first ++ zs)
  unfolding unlink_level
  unlink_level-IsLinked =
      let at_i = trail i in
      let kept : All (IsKept levels h i first (x ∷ zs) at_i p linked gone_levels h distinct)
          (first ++ (x ∷ zs)) =
        all_kept (first ++ (x ∷ zs)) in
      let after = Agree-after levels h i first (x ∷ zs) at_i p linked gone_levels h distinct kept in
      relink levels h i first (x ∷ zs) at_i p linked gone_levels h distinct kept zs
        (unlink_here ∙ sym (links-append h i p.back zs p.low))
        (IsLinked-agree levels gone_levels h h i zs after.1 (
          IsLinked-rest levels h i (x ∷ []) zs
            (linked_after levels h i first (x ∷ zs) at_i p linked)))
    where
      all_kept :
          (ws : List ℕ)
          → All (IsKept levels h i first (x ∷ zs) (trail i) p linked gone_levels h distinct) ws
      all_kept [] = tt
      all_kept (w ∷ ws) = ((refl, λ ne. set_level-node levels (trail i).0 i _ w i ne), all_kept ws)
