-- ===== src/Examples/SkipList.antt =====
-- The skip list on numbers as scores: runs of its operations, and its theorems on lists that the
-- operations made.
use mathlib.Core.List.{reverse}
use mathlib.Core.Option
use skynet_slg.Prelude.{
  ℕ, ◌+◌, ◌-◌, ◌<◌, ◌≤◌, ◌≡◌, refl, arith, List, [], ◌∷◌, ◌++◌, take, drop, true, false, not, ◌||◌,
  if◌then◌else◌, ◌==◌, ltb, Option, none, some,
}
use skynet_slg.SkipList.{
  sl_create, sl_random_level, count_levels, search_list, descend, walk, set_trail, set_level,
  set_backward, create_node, SkipList, skiplist_maxlevel,
}
use skynet_slg.Prelude.Bytes.{All}
use skynet_slg.SkipList.Key.{
  same, Score, Entry, before, compare_sl_obj, memcmp, at_most, equal_sl_obj,
}
use skynet_slg.SkipList.Change.{
  sl_insert, sl_delete, entry_at, insert_at, insert_levels, for_levels, grow_level, link_level,
  widen_level, set_after,
}
use skynet_slg.SkipList.Query.{
  sl_get_rank, find_level, sl_get_node_by_rank, sl_last_in_range, sl_is_in_range,
}
use skynet_slg.SkipList.Script.{
  get_rank, get_rank_range, get_score_range, delete_by_rank, insert, range_loop, score_loop,
}
use skynet_slg.SkipList.Sorted.{insert_sorted, remove_first, is_in}
use skynet_slg.SkipList.Refine.{Represents, sl_insert-Represents, sl_delete-Represents}
use skynet_slg.SkipList.Refine.ByRank.{delete_by_rank-Represents}
use skynet_slg.SkipList.Refine.RankOf.{get_rank-found, get_rank-missing}
use skynet_slg.SkipList.Refine.RankOf.Cut.{IsOther}
use skynet_slg.SkipList.Refine.Scores.{scored}
use skynet_slg.SkipList.Refine.ScoresBack.{get_score_range_lem}
use skynet_slg.SkipList.Refine.Ranges.{get_rank_range-up, get_rank_range-down, objects}
use skynet_slg.SkipList.Refine.Ranks.{at_rank}
use skynet_slg.SkipList.Refine.NodeByRank.{get_node_by_rank-entry}
use skynet_slg.SkipList.Refine.Levels.{sl_random_level-bounds}
use skynet_slg.SkipList.Refine.Runs.{
  Op, Answer, run_op, run_ops, sorted_op, sorted_ops, IsFine, new_list-Represents,
}

nat-asymm : (a b : ℕ) → ltb a b ≡ true → ltb b a ≡ false
nat-asymm a b h = ground (arith, h)

nat-or : (a b c : ℕ) → ltb a b ≡ true → (ltb a c || ltb c b) ≡ true
nat-or a b c h = ground (arith, h)

nat-equal : (a b : ℕ) → (a == b) ≡ not (ltb a b || ltb b a)
nat-equal a b = ground arith

instance abbrev nat_score : Score ℕ
nat_score = record {
  less = ltb;
  equal = λ a b. a == b;
  less_asymm = nat-asymm;
  less_or = nat-or;
  equal_lem = nat-equal;
}

-- What random() gives for the levels 1 and 2.
abbrev low : List ℕ
low = 0xffff ∷ []

abbrev tall : List ℕ
tall = 0 ∷ 0xffff ∷ []

abbrev inserts : List (Op ℕ)
inserts =
    Op.insert_op low 5 (1 ∷ []) ∷ Op.insert_op tall 3 (2 ∷ []) ∷ Op.insert_op low 5 (0 ∷ []) ∷ []

abbrev made : Option (SkipList ℕ × List (Answer ℕ))
made = run_ops (sl_create 0) inserts

-- A query of the list that was made.
abbrev ask : {A : Type 0} → (SkipList ℕ → Option A) → Option A
ask {A} query = elim made as (λ m. Option A) [ none ↦ none | some (sl, answers) ↦ query sl ]

rank_of_last : ask (λ sl. get_rank sl 5 (1 ∷ [])) ≡ some (some 3)
unfolding run_ops run_op insert sl_random_level count_levels sl_insert search_list descend walk
    set_trail before compare_sl_obj memcmp entry_at insert_at insert_levels for_levels grow_level
    link_level widen_level set_level set_backward create_node set_after sl_create get_rank
    sl_get_rank find_level at_most equal_sl_obj get_rank_range sl_get_node_by_rank range_loop
    get_score_range sl_last_in_range sl_is_in_range score_loop
rank_of_last = refl

-- The object decides, not the score.
rank_of_other_score : ask (λ sl. get_rank sl 9 (1 ∷ [])) ≡ some (some 3)
unfolding run_ops run_op insert sl_random_level count_levels sl_insert search_list descend walk
    set_trail before compare_sl_obj memcmp entry_at insert_at insert_levels for_levels grow_level
    link_level widen_level set_level set_backward create_node set_after sl_create get_rank
    sl_get_rank find_level at_most equal_sl_obj get_rank_range sl_get_node_by_rank range_loop
    get_score_range sl_last_in_range sl_is_in_range score_loop
rank_of_other_score = refl

ranks_back : ask (λ sl. get_rank_range sl 3 2) ≡ some ((1 ∷ []) ∷ (0 ∷ []) ∷ [])
unfolding run_ops run_op insert sl_random_level count_levels sl_insert search_list descend walk
    set_trail before compare_sl_obj memcmp entry_at insert_at insert_levels for_levels grow_level
    link_level widen_level set_level set_backward create_node set_after sl_create get_rank
    sl_get_rank find_level at_most equal_sl_obj get_rank_range sl_get_node_by_rank range_loop
    get_score_range sl_last_in_range sl_is_in_range score_loop
ranks_back = refl

scores_back : ask (λ sl. get_score_range sl 9 4) ≡ some ((1 ∷ []) ∷ (0 ∷ []) ∷ [])
unfolding run_ops run_op insert sl_random_level count_levels sl_insert search_list descend walk
    set_trail before compare_sl_obj memcmp entry_at insert_at insert_levels for_levels grow_level
    link_level widen_level set_level set_backward create_node set_after sl_create get_rank
    sl_get_rank find_level at_most equal_sl_obj get_rank_range sl_get_node_by_rank range_loop
    get_score_range sl_last_in_range sl_is_in_range score_loop
scores_back = refl

inserts-IsFine : All IsFine inserts
unfolding sl_random_level count_levels
inserts-IsFine = ((1, refl), ((2, refl), ((1, refl), tt)))

abbrev three : List (Entry ℕ)
three =
    record { score = 3; obj = 2 ∷ [] }
    ∷ record { score = 5; obj = 0 ∷ [] }
    ∷ record { score = 5; obj = 1 ∷ [] }
    ∷ []

new_list-Represents_example :
    (sl : SkipList ℕ) × (run_ops (sl_create 0) inserts ≡ some (sl, (sorted_ops [] inserts).1))
    × Represents sl (sorted_ops [] inserts).0
new_list-Represents_example = new_list-Represents 0 inserts inserts-IsFine (omega arith)

-- The list that was made, and what it stands for.
made_three : (sl : SkipList ℕ) × Represents sl three
unfolding sorted_ops sorted_op insert_sorted before compare_sl_obj memcmp
made_three =
    let (sl, run, represents) = new_list-Represents 0 inserts inserts-IsFine (omega arith) in
    (sl, represents)

abbrev list : SkipList ℕ
list = made_three.0

abbrev represents : Represents list three
represents = made_three.1

abbrev fourth : Entry ℕ
fourth = record { score = 4; obj = 7 ∷ [] }

sl_insert-Represents_example :
    (sl' : SkipList ℕ) × (sl_insert list 3 fourth ≡ some sl')
    × Represents sl' (insert_sorted fourth three)
sl_insert-Represents_example =
    sl_insert-Represents list three 3 fourth represents (omega arith) (omega arith) (omega arith)

abbrev second : Entry ℕ
second = record { score = 5; obj = 0 ∷ [] }

sl_delete-Represents_example :
    (sl' : SkipList ℕ) × (sl_delete list second ≡ some (sl', is_in second three))
    × Represents sl' (remove_first second three)
sl_delete-Represents_example = sl_delete-Represents list three second represents

delete_by_rank-Represents_example :
    (sl' : SkipList ℕ) × (delete_by_rank list 2 3
      ≡ some (sl', take (3 - (2 - 1)) (drop (2 - 1) three)))
    × (delete_by_rank list 3 2 ≡ some (sl', take (3 - (2 - 1)) (drop (2 - 1) three)))
    × Represents sl' (take (2 - 1) three ++ drop (3 - (2 - 1)) (drop (2 - 1) three))
delete_by_rank-Represents_example =
    delete_by_rank-Represents list three 2 3 represents (omega arith) (omega arith)

second-same : same second second ≡ true
unfolding same equal_sl_obj compare_sl_obj memcmp
second-same = refl

two_other : equal_sl_obj (2 ∷ []) (0 ∷ []) ≡ false
unfolding equal_sl_obj compare_sl_obj memcmp
two_other = refl

one_other : equal_sl_obj (1 ∷ []) (0 ∷ []) ≡ false
unfolding equal_sl_obj compare_sl_obj memcmp
one_other = refl

get_rank-found_example : get_rank list 5 (0 ∷ []) ≡ some (some 2)
get_rank-found_example =
    get_rank-found list 5 (0 ∷ []) (record { score = 3; obj = 2 ∷ [] } ∷ []) second
      (record { score = 5; obj = 1 ∷ [] } ∷ []) represents second-same (two_other, tt)
      (one_other, tt)

no_seven : All (IsOther (7 ∷ [])) three
unfolding equal_sl_obj compare_sl_obj memcmp
no_seven = (refl, (refl, (refl, tt)))

get_rank-missing_example : get_rank list 5 (7 ∷ []) ≡ some none
get_rank-missing_example = get_rank-missing list 5 (7 ∷ []) three represents no_seven

get_rank_range-up_example :
    get_rank_range list 2 3 ≡ some (take (3 - 2 + 1) (drop (2 - 1) (objects three)))
get_rank_range-up_example =
    get_rank_range-up list three 2 3 represents (omega arith) (omega arith) (omega arith)

get_rank_range-down_example :
    get_rank_range list 3 2 ≡ some (take (3 - 2 + 1) (reverse (take 3 (objects three))))
get_rank_range-down_example =
    get_rank_range-down list three 3 2 represents (omega arith) (omega arith) (omega arith)

get_score_range_lem_example :
    get_score_range list 9 4
    ≡ some (if ltb 9 4 || (9 == 4) then scored 9 4 three else reverse (scored 4 9 three))
get_score_range_lem_example = get_score_range_lem list three 9 4 represents

get_node_by_rank-entry_example :
    (at : Option ℕ) × (sl_get_node_by_rank list 2 ≡ some at)
    × (Option.map (entry_at list.nodes) at ≡ at_rank three 2)
get_node_by_rank-entry_example = get_node_by_rank-entry list three 2 represents

abbrev randoms : List ℕ
randoms = 3 ∷ 0x7fff ∷ []

level_two : sl_random_level randoms ≡ some 2
unfolding sl_random_level count_levels
level_two = refl

sl_random_level-bounds_example : (0 < 2) × (2 ≤ skiplist_maxlevel)
sl_random_level-bounds_example = sl_random_level-bounds randoms 2 level_two
