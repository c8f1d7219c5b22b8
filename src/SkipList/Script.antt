-- ===== src/SkipList/Script.antt =====
-- The functions of lua-skiplist.c that a script calls, after the checks of their arguments: numbers
-- are as the C types take them. The table that a function returns is a list.
use skynet_slg.Prelude.{
  ℕ, zero, suc, ◌+◌, ◌-◌, ◌^◌, List, [], ◌∷◌, Bool, not, ◌==◌, ◌||◌, ltb, if◌then◌else◌, Option,
  none, some,
}
use skynet_slg.Prelude.Word.{u32, u64}
use skynet_slg.SkipList.{SkipList, sl_random_level}
use skynet_slg.SkipList.Key.{Score, Entry}
use skynet_slg.SkipList.Change.{entry_at, sl_insert, sl_delete, sl_delete_by_rank}
use skynet_slg.SkipList.Query.{
  sl_get_rank, sl_get_node_by_rank, sl_first_in_range, sl_last_in_range,
}

-- The rounds of the loop `while(n < rangelen)` of _get_rank_range for a number of ranks: it is an
-- unsigned long, and `rangelen` the int with its low 32 bits. A negative one gives no round.
abbrev pub rounds : ℕ → ℕ
rounds ranks = let rangelen = u32 (u64 ranks) in if ltb rangelen (2 ^ 31) then rangelen else 0

module _ {S : Type 0} where
  -- `_delete_by_rank`: the list, and the objects that the function of the script is called with.
  unfoldable pub delete_by_rank : SkipList S → ℕ → ℕ → Option (SkipList S × List (Entry S))
  delete_by_rank sl start end =
      let s = u32 start in
      let e = u32 end in if ltb e s then sl_delete_by_rank sl e s else sl_delete_by_rank sl s e

  abbrev pub get_count : SkipList S → ℕ
  get_count sl = sl.length

  -- `reverse? node->backward : node->level[0].forward`.
  abbrev pub next_node : SkipList S → Bool → ℕ → Option ℕ
  next_node sl reverse x = if reverse then (sl.nodes x).backward else (sl.levels x 0).forward

  -- The loop of `_get_rank_range`, for `rangelen - n` more objects.
  unfoldable pub range_loop : SkipList S → Bool → ℕ → Option ℕ → List (List ℕ)
  range_loop sl reverse zero at = []
  range_loop sl reverse (suc n) none = []
  range_loop sl reverse (suc n) (some x) =
      (entry_at sl.nodes x).obj ∷ range_loop sl reverse n (next_node sl reverse x)

  -- `_get_rank_range`.
  unfoldable pub get_rank_range : SkipList S → ℕ → ℕ → Option (List (List ℕ))
  get_rank_range sl r1 r2 =
      let reverse = ltb r2 r1 in
      let ranks = if reverse then r1 - r2 + 1 else r2 - r1 + 1 in
      elim (sl_get_node_by_rank sl r1) [
        | none ↦ none
        | some at ↦ some (range_loop sl reverse (rounds ranks) at)
      ]

module _ {S : Type 0} ⦃o : Score S⦄ where
  -- `_insert`, with what random() gives.
  unfoldable pub insert : SkipList S → List ℕ → S → List ℕ → Option (SkipList S)
  insert sl randoms score obj = elim (sl_random_level randoms) [
    | none ↦ none
    | some level ↦ sl_insert sl level (record { score = score; obj = obj })
  ]

  unfoldable pub delete : SkipList S → S → List ℕ → Option (SkipList S × Bool)
  delete sl score obj = sl_delete sl (record { score = score; obj = obj })

  -- `_get_rank`: nothing for the rank 0.
  unfoldable pub get_rank : SkipList S → S → List ℕ → Option (Option ℕ)
  get_rank sl score obj = elim (sl_get_rank sl (record { score = score; obj = obj })) [
    | none ↦ none
    | some rank ↦ some (if rank == 0 then none else some rank)
  ]

  -- The loop of `_get_score_range` up to the end `s` of the range; the fuel is for the nodes.
  unfoldable pub score_loop : SkipList S → Bool → S → ℕ → Option ℕ → Option (List (List ℕ))
  score_loop sl reverse s zero at = none
  score_loop sl reverse s (suc fuel) none = some []
  score_loop sl reverse s (suc fuel) (some x) =
      let score = (sl.nodes x).score in
      let rest = score_loop sl reverse s fuel (next_node sl reverse x) in
      if (if reverse then o.less score s else o.less s score)
      then some []
      else elim rest [ none ↦ none | some objs ↦ some ((entry_at sl.nodes x).obj ∷ objs) ]

  unfoldable pub get_score_range : SkipList S → S → S → Option (List (List ℕ))
  get_score_range sl s1 s2 =
      let reverse = not (o.less s1 s2 || o.equal s1 s2) in
      let at = if reverse then sl_last_in_range sl s2 s1 else sl_first_in_range sl s1 s2 in
      elim at [ none ↦ none | some x ↦ score_loop sl reverse s2 (suc (suc sl.length)) x ]
