-- ===== src/SkipList.antt =====
-- The skip list of 3rd/src-c/skiplist.c and skiplist.h: its data, and the search that all of its
-- operations make. The children have the operations and what they do to a sorted list.
pub mod Key
pub mod Links
pub mod Walk
pub mod Change
pub mod Shape
pub mod Query
pub mod Script
pub mod Sorted
pub mod Refine
use skynet_slg.Prelude.{
  ℕ, zero, suc, ◌+◌, ◌-◌, ◌%◌, List, [], ◌∷◌, length, Bool, true, false, not, ◌==◌, ◌&&◌, ltb, leb,
  if◌then◌else◌, Option, none, some, bit_and, min,
}
use skynet_slg.Prelude.Word.{u32, u64}

-- struct skiplistLevel; an address is a number, and `none` is NULL.
pub record Level : Type 0 where
  pub forward : Option ℕ
  pub span : ℕ

-- struct skiplistNode without its array `level[]`; `height` is the length of that.
pub record Node (S : Type 0) : Type 0 where
  pub obj : Option (List ℕ)
  pub score : S
  pub backward : Option ℕ
  pub height : ℕ

-- The arrays `level[]`, by the address of the node and the index.
abbrev pub Levels : Type 0
Levels = ℕ → ℕ → Level

-- struct skiplist, with the nodes in memory; the header is at address 0, and addresses from `fresh`
-- on are free. (Freed addresses are not used again.)
pub record SkipList (S : Type 0) : Type 0 where
  pub nodes : ℕ → Node S
  pub levels : Levels
  pub fresh : ℕ
  pub tail : Option ℕ
  pub length : ℕ
  pub level : ℕ

abbrev pub skiplist_maxlevel : ℕ
skiplist_maxlevel = 32

abbrev pub header : ℕ
header = 0

abbrev pub null_level : Level
null_level = record { forward = none; span = 0 }

-- A write to `level[i]` of the node at `a`.
unfoldable pub set_level : Levels → ℕ → ℕ → Level → Levels
set_level levels a i l = λ b j. if b == a && j == i then l else levels b j

-- A write to a node's `backward`.
unfoldable pub set_backward : {S : Type 0} → (ℕ → Node S) → ℕ → Option ℕ → ℕ → Node S
set_backward nodes a back = λ b. if b == a then record (nodes b) { backward = back } else nodes b

-- slCreateNode at an address; what it does not write, every caller writes before it is read.
unfoldable pub create_node : {S : Type 0} → (ℕ → Node S) → ℕ → ℕ → S → Option (List ℕ) → ℕ → Node S
create_node nodes a height score obj = λ b.
    if b == a
    then record { obj = obj; score = score; backward = none; height = height }
    else nodes b

-- slCreate; the header has the score 0.
unfoldable pub sl_create : {S : Type 0} → S → SkipList S
sl_create zero_score = record {
  nodes =
      λ a. record { obj = none; score = zero_score; backward = none; height = skiplist_maxlevel };
  levels = λ a i. null_level;
  fresh = 1;
  tail = none;
  length = 0;
  level = 1;
}

-- The loop of slRandomLevel on what random() gives; 0.25 * 0xffff is between 16383 and 16384.
unfoldable pub count_levels : List ℕ → ℕ → Option ℕ
count_levels [] level = none
count_levels (r ∷ randoms) level =
    let rest = count_levels randoms (level + 1) in
    if ltb (bit_and r 0xffff) 16384 then rest else some level

unfoldable pub sl_random_level : List ℕ → Option ℕ
sl_random_level randoms = elim (count_levels randoms 1) [
  | none ↦ none
  | some level ↦ some (if ltb level skiplist_maxlevel then level else skiplist_maxlevel)
]

-- The arrays `update` and `rank` of the operations. Until they are written, which is before they are
-- read, they are as `no_trail` says.
abbrev pub Trail : Type 0
Trail = ℕ → ℕ × ℕ

abbrev pub no_trail : Trail
no_trail i = (header, 0)

unfoldable pub set_trail : Trail → ℕ → ℕ × ℕ → Trail
set_trail trail i v = λ j. if j == i then v else trail j

-- The inner loop of every search, at level `i` from the node `x` with the rank `r`: it goes forward
-- while `go` holds of the next node and of the rank there. Ranks are modulo `w`; the fuel is for
-- the nodes.
unfoldable pub walk : (w : ℕ) → Levels → (ℕ → ℕ → Bool) → ℕ → ℕ → ℕ → ℕ → Option (ℕ × ℕ)
walk w levels go zero i x r = none
walk w levels go (suc fuel) i x r = elim (levels x i).forward [
  | none ↦ some (x, r)
  | some f ↦
      let r' = (r + (levels x i).span) % w in
      let rest = walk w levels go fuel i f r' in if go f r' then rest else some (x, r)
]

-- The outer loop, from the level below `n` down to 0, which notes where each level was left: the
-- arrays, the last node and its rank.
unfoldable pub descend :
    (w : ℕ) → Levels → (ℕ → ℕ → Bool) → ℕ → ℕ → ℕ → ℕ → Trail → Option (Trail × ℕ × ℕ)
descend w levels go fuel zero x r trail = some (trail, x, r)
descend w levels go fuel (suc i) x r trail = elim (walk w levels go fuel i x r) [
  | none ↦ none
  | some (x', r') ↦ descend w levels go fuel i x' r' (set_trail trail i (x', r'))
]

-- The search from the header. A level has at most `length` steps. (Where the source keeps no ranks,
-- the test does not read them.)
unfoldable pub search_list :
    {S : Type 0} → (w : ℕ) → SkipList S → (ℕ → ℕ → Bool) → Option (Trail × ℕ × ℕ)
search_list w sl go = descend w sl.levels go (suc sl.length) sl.level header 0 no_trail
