-- ===== src/SkipList/Query.antt =====
-- slGetRank, slGetNodeByRank, slIsInRange, slFirstInRange and slLastInRange of skiplist.c. `none` is
-- a search that did not end within its fuel; `some none` is NULL.
use skynet_slg.Prelude.{
  ℕ, zero, suc, ◌^◌, List, Bool, true, false, not, ◌==◌, ◌||◌, ltb, leb, if◌then◌else◌, Option,
  none, some,
}
use skynet_slg.SkipList.{Node, SkipList, header, walk, search_list}
use skynet_slg.SkipList.Key.{Score, Entry, at_most, equal_sl_obj}
use skynet_slg.SkipList.Change.{entry_at}

-- A level is left at the node `x` with the object.
abbrev pub holds_obj : Option (List ℕ) → List ℕ → Bool
holds_obj none obj = false
holds_obj (some o) obj = equal_sl_obj o obj

-- The loop of slGetRank and slGetNodeByRank over the levels, from the one below `n` down to 0: it
-- returns at the first level that is left with `test` of the node and its rank.
unfoldable pub find_level :
    {S : Type 0}
    → SkipList S
    → (ℕ → ℕ → Bool)
    → (ℕ → ℕ → Bool)
    → ℕ
    → ℕ
    → ℕ
    → Option (Option (ℕ × ℕ))
find_level sl go test zero x r = some none
find_level sl go test (suc i) x r = elim (walk (2 ^ 64) sl.levels go (suc sl.length) i x r) [
  | none ↦ none
  | some (x', r') ↦
      let below = find_level sl go test i x' r' in
      if test x' r' then some (some (x', r')) else below
]

unfoldable pub sl_get_node_by_rank : {S : Type 0} → SkipList S → ℕ → Option (Option ℕ)
sl_get_node_by_rank sl rank =
    let found : Option (Option ℕ) =
      elim (find_level sl (λ a r. leb r rank) (λ a r. r == rank) sl.level header 0) [
        | none ↦ none
        | some none ↦ some none
        | some (some (x, r)) ↦ some (some x)
      ] in
    if rank == 0 || ltb sl.length rank then some none else found

module _ {S : Type 0} ⦃o : Score S⦄ where
  unfoldable pub sl_get_rank : SkipList S → Entry S → Option ℕ
  sl_get_rank sl e =
      elim (find_level sl (λ a r. at_most (entry_at sl.nodes a) e)
        (λ a r. holds_obj (sl.nodes a).obj e.obj) sl.level header 0) [
          | none ↦ none
          | some none ↦ some 0
          | some (some (x, r)) ↦ some r
        ]

  -- `score < min` and `score > max` of a node that there may not be.
  abbrev pub null_or_less : (ℕ → Node S) → Option ℕ → S → Bool
  null_or_less nodes none min = true
  null_or_less nodes (some x) min = o.less (nodes x).score min

  abbrev pub null_or_more : (ℕ → Node S) → Option ℕ → S → Bool
  null_or_more nodes none max = true
  null_or_more nodes (some x) max = o.less max (nodes x).score

  unfoldable pub sl_is_in_range : SkipList S → S → S → Bool
  sl_is_in_range sl min max =
      if o.less max min
      then false
      else if null_or_less sl.nodes sl.tail min
      then false
      else not (null_or_more sl.nodes (sl.levels header 0).forward max)

  unfoldable pub sl_first_in_range : SkipList S → S → S → Option (Option ℕ)
  sl_first_in_range sl min max =
      let found : Option (Option ℕ) =
        elim (search_list (2 ^ 64) sl (λ a r. o.less (sl.nodes a).score min)) [
          | none ↦ none
          | some (trail, x, r) ↦ some (sl.levels x 0).forward
        ] in
      if sl_is_in_range sl min max then found else some none

  unfoldable pub sl_last_in_range : SkipList S → S → S → Option (Option ℕ)
  sl_last_in_range sl min max =
      let found : Option (Option ℕ) =
        elim (search_list (2 ^ 64) sl
          (λ a r. o.less (sl.nodes a).score max || o.equal (sl.nodes a).score max)) [
            | none ↦ none
            | some (trail, x, r) ↦ some (some x)
          ] in
      if sl_is_in_range sl min max then found else some none
