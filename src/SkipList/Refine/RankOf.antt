-- ===== src/SkipList/Refine/RankOf.antt =====
-- slGetRank finds the place of an entry, when no other entry has its object.
pub mod Cut
use skynet_slg.SkipList.Refine.RankOf.Cut.{
  unmap, place_or, last_is, holds_obj-entry, IsOther, not_same, obj_of_same, at_most_front,
  at_most_back,
}
use mathlib.Core.Path.{subst}
use skynet_slg.Prelude.{
  ℕ, suc, ◌≡◌, ◌≢◌, ◌⊎◌, inl, inr, refl, sym, ap, ◌∙◌, arith, List, [], ◌∷◌, ◌++◌, length,
  length-append, length-map, map, Bool, true, false, Option, none, some, ==-eq_false, Bool-cases,
}
use mathlib.Core.List.{append_assoc}
use skynet_slg.Prelude.Bytes.{All, All-append}
use skynet_slg.SkipList.{SkipList, header}
use skynet_slg.SkipList.Key.{Score, Entry, before, same, at_most, equal_sl_obj}
use skynet_slg.SkipList.Key.Order.{before_or, same_lem, at_most_lem, equal_sl_obj-sym}
use skynet_slg.SkipList.Change.{entry_at}
use skynet_slg.SkipList.Query.{find_level, sl_get_rank, holds_obj}
use skynet_slg.SkipList.Script.{get_rank}
use skynet_slg.SkipList.Shape.{IsShaped, IsNode, entries}
use skynet_slg.SkipList.Shape.Place.{All-left, All-right}
use skynet_slg.SkipList.Shape.Early.{early}
use skynet_slg.SkipList.Sorted.{IsSorted, NotBefore, IsSorted-right}
use skynet_slg.SkipList.Refine.{Represents, all-Goes, all-Stops, All-entries}

module _ {S : Type 0} ⦃o : Score S⦄ where
  module _ (sl : SkipList S) (e : Entry S) where
    -- The test at a node with an entry.
    holds_node :
        (n a : ℕ)
        → IsNode sl n a
        → holds_obj (sl.nodes a).obj e.obj ≡ equal_sl_obj (entry_at sl.nodes a).obj e.obj
    unfolding entry_at
    holds_node n a g = holds_obj-entry (sl.nodes a).obj e.obj g.3

    abbrev upto : ℕ → ℕ → Bool
    upto a r = at_most (entry_at sl.nodes a) e

    abbrev holds_test : ℕ → ℕ → Bool
    holds_test a r = holds_obj (sl.nodes a).obj e.obj

    abbrev finds : Option (Option (ℕ × ℕ))
    finds =
        find_level sl (λ a r. at_most (entry_at sl.nodes a) e)
          (λ a r. holds_obj (sl.nodes a).obj e.obj) sl.level header 0

    rank_found : (x r : ℕ) → finds ≡ some (some (x, r)) → sl_get_rank sl e ≡ some r
    unfolding sl_get_rank
    rank_found x r run = rw (sl_get_rank, run) refl

    rank_missing : finds ≡ some none → sl_get_rank sl e ≡ some 0
    unfolding sl_get_rank
    rank_missing run = rw (sl_get_rank, run) refl

    -- The rank of the entry, of which the node is behind `fn`.
    rank_at :
        (fn : List ℕ) (a : ℕ) (zs : List ℕ)
        → IsShaped sl ((fn ++ (a ∷ [])) ++ zs)
        → All (λ b. at_most (entry_at sl.nodes b) e ≡ true) (fn ++ (a ∷ []))
        → All (λ b. at_most (entry_at sl.nodes b) e ≡ false) zs
        → All (λ b. holds_obj (sl.nodes b).obj e.obj ≡ false) fn
        → holds_obj (sl.nodes a).obj e.obj ≡ true
        → sl_get_rank sl e ≡ some (suc (length fn))
    rank_at fn a zs s goes stops others own =
        elim (early sl upto holds_test (fn ++ (a ∷ [])) zs s
          (all-Stops (λ b. at_most (entry_at sl.nodes b) e) (length (fn ++ (a ∷ []))) zs stops)
          (all-Goes (λ b. at_most (entry_at sl.nodes b) e) 0 (fn ++ (a ∷ [])) goes)) [
            | inl ([], x, rest, split, here, run) ↦
                let at_header : x ≡ header = cc in
                let never : holds_obj none e.obj ≡ true =
                  ap (λ n. holds_obj n e.obj)
                    (sym (ap (λ (b : ℕ). (sl.nodes b).obj) at_header ∙ s.no_obj))
                  ∙ here in
                cc
            | inl (p ∷ pre, x, rest, split, here, run) ↦
                let later : fn ++ (a ∷ []) ≡ pre ++ (x ∷ rest) = cc in
                elim (place_or (λ b. holds_obj (sl.nodes b).obj e.obj ≡ false) fn a pre x rest
                  others later) [
                    | inl l ↦ rank_found x (suc (length pre)) run ∙ ap (λ (r : ℕ). some (suc r)) l
                    | inr h ↦ let never : true ≡ false = sym here ∙ h in cc
                  ]
            | inr ([], x, split, not_here, run) ↦
                absurd (omega (arith, ap length split, length-append fn (a ∷ [])))
            | inr (p ∷ pre, x, split, not_here, run) ↦
                let later : fn ++ (a ∷ []) ≡ pre ++ (x ∷ []) = cc in
                let never : true ≡ false =
                  sym (last_is (λ b. holds_obj (sl.nodes b).obj e.obj ≡ true) fn a pre x later own)
                  ∙ not_here in
                cc
          ]

    all_others :
        (n : ℕ) (ns : List ℕ)
        → All (IsNode sl n) ns
        → All (IsOther e.obj) (entries sl ns)
        → All (λ b. holds_obj (sl.nodes b).obj e.obj ≡ false) ns
    all_others n [] g k = tt
    all_others n (a ∷ ns) g k = (holds_node n a g.0 ∙ k.0, all_others n ns g.1 k.1)

  -- slGetRank ends and gives the place of an entry that is on the list, from 1 on, when no other
  -- entry on the list has the object.
  pub sl_get_rank-Represents :
      (sl : SkipList S) (e : Entry S) (us : List (Entry S)) (a : Entry S) (ws : List (Entry S))
      → Represents sl (us ++ (a ∷ ws))
      → same e a ≡ true
      → All (IsOther e.obj) us
      → All (IsOther e.obj) ws
      → sl_get_rank sl e ≡ some (suc (length us))
  sl_get_rank-Represents sl e us a ws (ns, s, holds, sorted) p left right =
      let (fn, wn, split, fn_is, wn_is) = unmap (entry_at sl.nodes) ns us (a ∷ ws) holds in
      rank_node sl e us a ws fn wn fn_is wn_is (subst (IsShaped sl) split s) sorted p left right
    where
      rank_node :
          (sl : SkipList S) (e : Entry S) (us : List (Entry S)) (a : Entry S) (ws : List (Entry S))
          (fn wn : List ℕ)
          → entries sl fn ≡ us
          → entries sl wn ≡ a ∷ ws
          → IsShaped sl (fn ++ wn)
          → IsSorted (us ++ (a ∷ ws))
          → same e a ≡ true
          → All (IsOther e.obj) us
          → All (IsOther e.obj) ws
          → sl_get_rank sl e ≡ some (suc (length us))
      rank_node sl e us a ws fn [] fn_is wn_is s sorted p left right =
          absurd (omega (arith, ap length wn_is))
      rank_node sl e us a ws fn (x ∷ wn) fn_is wn_is s sorted p left right =
          let x_is : entry_at sl.nodes x ≡ a = cc in
          let wn_rest : entries sl wn ≡ ws = cc in
          let nodes = s.all_nodes in
          let s' : IsShaped sl ((fn ++ (x ∷ [])) ++ wn) =
            subst (IsShaped sl) (sym (append_assoc fn (x ∷ []) wn)) s in
          let own : at_most (entry_at sl.nodes x) e ≡ true =
            ap (λ b. at_most b e) x_is ∙ ground (arith, at_most_lem a e, same_lem e a, p) in
          rank_at sl e fn x wn s'
            (All-append (λ b. at_most (entry_at sl.nodes b) e ≡ true) fn (x ∷ [])
              (All-entries (λ b. at_most b e ≡ true) sl fn
                (subst (All (λ b. at_most b e ≡ true)) (sym fn_is)
                  (at_most_front e a us ws p sorted)))
              (own, tt))
            (All-entries (λ b. at_most b e ≡ false) sl wn
              (subst (All (λ b. at_most b e ≡ false)) (sym wn_rest)
                (at_most_back e a ws p right (IsSorted-right us (a ∷ ws) sorted).0)))
            (all_others sl e sl.level fn (All-left (IsNode sl sl.level) fn (x ∷ wn) nodes)
              (subst (All (IsOther e.obj)) (sym fn_is) left))
            (holds_node sl e sl.level x (All-right (IsNode sl sl.level) fn (x ∷ wn) nodes).0
              ∙ ap (λ b. equal_sl_obj b.obj e.obj) x_is
              ∙ obj_of_same e a p)
          ∙ ap (λ (n : ℕ). some (suc n)) (sym (length-map fn (entry_at sl.nodes)) ∙ ap length fn_is)

  -- Where a sorted list is cut by the test of slGetRank.
  at_most_cut :
      (sl : SkipList S) (e : Entry S) (ns : List ℕ)
      → IsSorted (entries sl ns)
      → (front : List ℕ) × (zs : List ℕ) × (ns ≡ front ++ zs)
        × All (λ b. at_most (entry_at sl.nodes b) e ≡ true) front
        × All (λ b. at_most (entry_at sl.nodes b) e ≡ false) zs
  at_most_cut sl e [] g = ([], [], refl, tt, tt)
  at_most_cut sl e (a ∷ ns) g = elim (Bool-cases (at_most (entry_at sl.nodes a) e)) [
    | inl p ↦
        let (front, zs, split, left, right) = at_most_cut sl e ns g.1 in
        (a ∷ front, zs, ap (λ l. a ∷ l) split, (p, left), right)
    | inr p ↦ ([], a ∷ ns, refl, tt, (p, behind ns p g.0))
  ]
    where
      behind :
          (ms : List ℕ)
          → at_most (entry_at sl.nodes a) e ≡ false
          → All (NotBefore (entry_at sl.nodes a)) (entries sl ms)
          → All (λ b. at_most (entry_at sl.nodes b) e ≡ false) ms
      behind [] p k = tt
      behind (m ∷ ms) p k =
          let b = entry_at sl.nodes a in
          let c = entry_at sl.nodes m in
          let after : before e b ≡ true = ground (arith, at_most_lem b e, p) in
          let here : at_most c e ≡ false =
            ground (arith, at_most_lem c e, before_or e b c after, k.0) in
          (here, behind ms p k.1)

  -- slGetRank ends and gives 0, when no entry has the object.
  pub sl_get_rank-missing :
      (sl : SkipList S) (e : Entry S) (es : List (Entry S))
      → Represents sl es
      → All (IsOther e.obj) es
      → sl_get_rank sl e ≡ some 0
  sl_get_rank-missing sl e es (ns, s, holds, sorted) others =
      let (front, zs, split, goes, stops) =
        at_most_cut sl e ns (subst IsSorted (sym holds) sorted) in
      let out : All (λ b. holds_obj (sl.nodes b).obj e.obj ≡ false) ns =
        all_others sl e sl.level ns s.all_nodes (subst (All (IsOther e.obj)) (sym holds) others) in
      not_there front zs (subst (IsShaped sl) split s) goes stops (
        All-left (λ b. holds_obj (sl.nodes b).obj e.obj ≡ false) front zs
          (subst (All (λ b. holds_obj (sl.nodes b).obj e.obj ≡ false)) split out))
    where
      not_there :
          (front zs : List ℕ)
          → IsShaped sl (front ++ zs)
          → All (λ b. at_most (entry_at sl.nodes b) e ≡ true) front
          → All (λ b. at_most (entry_at sl.nodes b) e ≡ false) zs
          → All (λ b. holds_obj (sl.nodes b).obj e.obj ≡ false) front
          → sl_get_rank sl e ≡ some 0
      not_there front zs s goes stops others =
          elim (early sl (upto sl e) (holds_test sl e) front zs s
            (all-Stops (λ b. at_most (entry_at sl.nodes b) e) (length front) zs stops)
            (all-Goes (λ b. at_most (entry_at sl.nodes b) e) 0 front goes)) [
              | inl ([], x, rest, split, here, run) ↦
                  let at_header : x ≡ header = cc in
                  let never : holds_obj none e.obj ≡ true =
                    ap (λ n. holds_obj n e.obj)
                      (sym (ap (λ (b : ℕ). (sl.nodes b).obj) at_header ∙ s.no_obj))
                    ∙ here in
                  cc
              | inl (p ∷ pre, x, rest, split, here, run) ↦
                  let later : front ≡ pre ++ (x ∷ rest) = cc in
                  let out : All (λ b. holds_obj (sl.nodes b).obj e.obj ≡ false) (x ∷ rest) =
                    All-right (λ b. holds_obj (sl.nodes b).obj e.obj ≡ false) pre (x ∷ rest)
                      (subst (All (λ b. holds_obj (sl.nodes b).obj e.obj ≡ false)) later others) in
                  let never : true ≡ false = sym here ∙ out.0 in cc
              | inr (pre, x, split, not_here, run) ↦ rank_missing sl e run
            ]

  -- _get_rank on memory that stands for a sorted list ends and gives the place, from 1 on, of an
  -- entry with the score and the object, when no other entry on the list has the object.
  pub get_rank-found :
      (sl : SkipList S) (score : S) (obj : List ℕ) (us : List (Entry S)) (a : Entry S)
      (ws : List (Entry S))
      → Represents sl (us ++ (a ∷ ws))
      → same (record { score = score; obj = obj }) a ≡ true
      → All (IsOther obj) us
      → All (IsOther obj) ws
      → get_rank sl score obj ≡ some (some (suc (length us)))
  unfolding get_rank
  get_rank-found sl score obj us a ws r p left right =
      rw
        (
          get_rank,
          sl_get_rank-Represents sl (record { score = score; obj = obj }) us a ws r p left right,
          ==-eq_false (suc (length us)) 0 (λ e. absurd (omega (arith, e))),
        )
        refl

  -- _get_rank on memory that stands for a sorted list ends and gives nothing, when no entry on the
  -- list has the object.
  pub get_rank-missing :
      (sl : SkipList S) (score : S) (obj : List ℕ) (es : List (Entry S))
      → Represents sl es
      → All (IsOther obj) es
      → get_rank sl score obj ≡ some none
  unfolding get_rank
  get_rank-missing sl score obj es r others =
      rw (get_rank, sl_get_rank-missing sl (record { score = score; obj = obj }) es r others) refl
