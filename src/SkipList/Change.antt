-- ===== src/SkipList/Change.antt =====
-- slInsert, slDeleteNode, slDelete and slDeleteByRank of skiplist.c. `none` is a search that did not
-- end within its fuel, or a NULL that is followed.
use skynet_slg.Prelude.{
  ℕ, zero, suc, ◌+◌, ◌-◌, ◌%◌, ◌^◌, List, [], ◌∷◌, Bool, true, false, ◌==◌, ltb, leb, if◌then◌else◌,
  Option, none, some,
}
use skynet_slg.Prelude.Word.{u32, u64}
use skynet_slg.SkipList.{
  Node, Levels, SkipList, header, set_level, set_backward, create_node, Trail, search_list,
  set_trail,
}
use skynet_slg.SkipList.Key.{Score, Entry, before, same}

-- `a - b` of unsigned ints.
abbrev pub sub32 : ℕ → ℕ → ℕ
sub32 a b = (a + 2 ^ 32 - b) % 2 ^ 32

-- An address is that of a pointer.
abbrev pub points_to : Option ℕ → ℕ → Bool
points_to none a = false
points_to (some b) a = b == a

-- What a node holds. Only the header's `obj` is NULL, and it is compared with nothing.
unfoldable pub entry_at : {S : Type 0} → (ℕ → Node S) → ℕ → Entry S
entry_at nodes a = record {
  score = (nodes a).score;
  obj = elim (nodes a).obj [ none ↦ [] | some o ↦ o ];
}

-- `for (i = from; i < from + n; i++)`.
unfoldable pub for_levels : {A : Type 0} → (ℕ → A → A) → ℕ → ℕ → A → A
for_levels step zero from s = s
for_levels step (suc n) from s = for_levels step n (suc from) (step from s)

-- The bodies of the loop of slInsert over the levels that the list gets, which is two loops here, as
-- it writes to the header and to the arrays.
unfoldable pub grow_level : ℕ → ℕ → Levels → Levels
grow_level len i levels = set_level levels header i (record (levels header i) { span = u32 len })

abbrev pub grow_trail : ℕ → Trail → Trail
grow_trail i trail = set_trail trail i (header, 0)

-- The links of the new node `x` and to it. The difference of the ranks is that of unsigned ints.
unfoldable pub link_level : ℕ → Trail → ℕ → Levels → Levels
link_level x trail i levels =
    let u = (trail i).0 in
    let d = sub32 (trail 0).1 (trail i).1 in
    let old = levels u i in
    let levels1 =
      set_level levels x i (record { forward = old.forward; span = sub32 old.span d }) in
    set_level levels1 u i (record { forward = some x; span = u32 (d + 1) })

-- `update[i]->level[i].span++;`
unfoldable pub widen_level : Trail → ℕ → Levels → Levels
widen_level trail i levels =
    let u = (trail i).0 in
    let old = levels u i in set_level levels u i (record old { span = u32 (old.span + 1) })

-- All that slInsert does to the arrays `level[]`.
unfoldable pub insert_levels : ℕ → ℕ → ℕ → ℕ → Levels → Trail → Levels
insert_levels len x level top levels trail =
    let trail1 = for_levels grow_trail (level - top) top trail in
    let levels1 = for_levels (grow_level len) (level - top) top levels in
    for_levels (widen_level trail1) (top - level) level
      (for_levels (link_level x trail1) level 0 levels1)

-- `x->level[0].forward` gets `x` for its `backward`, or the list gets it for its tail.
unfoldable pub set_after :
    {S : Type 0} → (ℕ → Node S) → Option ℕ → Option ℕ → Option ℕ → (ℕ → Node S) × Option ℕ
set_after nodes none back tail = (nodes, back)
set_after nodes (some f) back tail = (set_backward nodes f back, tail)

-- slInsert after its search, which left `trail`; `level` is what slRandomLevel gave.
unfoldable pub insert_at : {S : Type 0} → SkipList S → ℕ → Entry S → Trail → SkipList S
insert_at sl level e trail =
    let x = sl.fresh in
    let u = (trail 0).0 in
    let levels = insert_levels sl.length x level sl.level sl.levels trail in
    let nodes1 = create_node sl.nodes x level e.score (some e.obj) in
    let nodes2 = set_backward nodes1 x (if u == header then none else some u) in
    let (nodes3, tail) = set_after nodes2 (levels x 0).forward (some x) sl.tail in
    record {
      nodes = nodes3;
      levels = levels;
      fresh = suc sl.fresh;
      tail = tail;
      length = u64 (sl.length + 1);
      level = if ltb sl.level level then level else sl.level;
    }

-- `while(sl->level > 1 && sl->header->level[sl->level-1].forward == NULL) sl->level--;`
unfoldable pub drop_levels : Levels → ℕ → ℕ
drop_levels levels zero = zero
drop_levels levels (suc zero) = suc zero
drop_levels levels (suc (suc i)) =
    let lower = drop_levels levels (suc i) in
    elim (levels header (suc i)).forward [ none ↦ lower | some f ↦ suc (suc i) ]

-- The body of the loop of slDeleteNode over the levels.
unfoldable pub unlink_level : ℕ → Trail → ℕ → Levels → Levels
unlink_level x trail i levels =
    let u = (trail i).0 in
    let old = levels u i in
    let gone = levels x i in
    set_level levels u i (
      if points_to old.forward x
      then record { forward = gone.forward; span = (old.span + sub32 gone.span 1) % 2 ^ 32 }
      else record old { span = sub32 old.span 1 })

-- slDeleteNode.
unfoldable pub sl_delete_node : {S : Type 0} → SkipList S → ℕ → Trail → SkipList S
sl_delete_node sl x trail =
    let levels = for_levels (unlink_level x trail) sl.level 0 sl.levels in
    let (nodes, tail) = set_after sl.nodes (levels x 0).forward (sl.nodes x).backward sl.tail in
    record {
      nodes = nodes;
      levels = levels;
      fresh = sl.fresh;
      tail = tail;
      length = (sl.length + 2 ^ 64 - 1) % 2 ^ 64;
      level = drop_levels levels sl.level;
    }

module _ {S : Type 0} ⦃o : Score S⦄ where
  -- The test of the searches of slInsert and slDelete.
  abbrev pub goes_before : (ℕ → Node S) → Entry S → ℕ → ℕ → Bool
  goes_before nodes e a r = before (entry_at nodes a) e

  unfoldable pub sl_insert : SkipList S → ℕ → Entry S → Option (SkipList S)
  sl_insert sl level e = elim (search_list (2 ^ 32) sl (goes_before sl.nodes e)) [
    | none ↦ none
    | some (trail, x, r) ↦ some (insert_at sl level e trail)
  ]

  -- The end of slDelete, at the node behind where its search ended: whether it was found.
  unfoldable pub delete_if_same : SkipList S → Entry S → Trail → Option ℕ → SkipList S × Bool
  delete_if_same sl e trail none = (sl, false)
  delete_if_same sl e trail (some x) =
      if same e (entry_at sl.nodes x) then (sl_delete_node sl x trail, true) else (sl, false)

  unfoldable pub sl_delete : SkipList S → Entry S → Option (SkipList S × Bool)
  sl_delete sl e = elim (search_list (2 ^ 32) sl (goes_before sl.nodes e)) [
    | none ↦ none
    | some (trail, x, r) ↦ some (delete_if_same sl e trail (sl.levels x 0).forward)
  ]

-- The loop of slDeleteByRank from the node `x` on, with `traversed`: the objects that `cb` gets. The
-- fuel is for the nodes.
unfoldable pub delete_loop :
    {S : Type 0} → ℕ → Trail → ℕ → SkipList S → Option ℕ → ℕ → Option (SkipList S × List (Entry S))
delete_loop zero trail end sl x traversed = none
delete_loop (suc fuel) trail end sl none traversed = some (sl, [])
delete_loop (suc fuel) trail end sl (some x) traversed =
    let next = (sl.levels x 0).forward in
    let rest = delete_loop fuel trail end (sl_delete_node sl x trail) next (u64 (traversed + 1)) in
    if leb traversed end
    then elim rest [ none ↦ none | some (sl', gone) ↦ some (sl', entry_at sl.nodes x ∷ gone) ]
    else some (sl, [])

-- slDeleteByRank; its result `removed` is the number of the objects.
unfoldable pub sl_delete_by_rank :
    {S : Type 0} → SkipList S → ℕ → ℕ → Option (SkipList S × List (Entry S))
sl_delete_by_rank sl start end = elim (search_list (2 ^ 64) sl (λ a r. ltb r start)) [
  | none ↦ none
  | some (trail, x, r) ↦
      delete_loop (suc sl.length) trail end sl (sl.levels x 0).forward (u64 (r + 1))
]
