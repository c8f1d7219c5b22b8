-- ===== src/Crab/Table.antt =====
-- The hash table of 3rd/src-c/lua-crab.c: open addressing with chains, as in Lua's own tables.
use skynet_slg.Prelude.{
  ℕ, zero, suc, ◌-◌, ◌*◌, List, [], ◌∷◌, get_or, set, length, replicate, Bool, true, false, ◌==◌,
  if◌then◌else◌, Option, none, some, bit_and,
}

-- TableNode.flag: 0, 'n' and 'o'.
pub data Flag : Type 0 where
  empty inner terminal : Flag

-- `next` is an index, with `none` for -1; `value` the address of a table, with `none` for NULL.
pub record TableNode : Type 0 where
  pub key : ℕ
  pub next : Option ℕ
  pub flag : Flag
  pub value : Option ℕ

-- `lastfree` counts the nodes up to the one that the pointer names: 0 is a pointer before the
-- first node.
pub record Table : Type 0 where
  pub capacity : ℕ
  pub node : List TableNode
  pub lastfree : ℕ

-- What initnode makes of a node with this key.
abbrev pub initnode : ℕ → TableNode
initnode k = record { key = k; next = none; flag = empty; value = none }

abbrev pub tisnil : TableNode → Bool
tisnil n = elim n.flag [ empty ↦ true | _ ↦ false ]

abbrev pub tnode : Table → ℕ → TableNode
tnode t i = get_or t.node i (initnode 0)

abbrev pub put_node : Table → ℕ → TableNode → Table
put_node t i n = record t { node = set t.node i n }

unfoldable pub mainposition : Table → ℕ → ℕ
mainposition t key = bit_and key (t.capacity - 1)

-- getfreenode, going down from `lastfree`: the table with the pointer moved, and the node.
unfoldable pub find_free : Table → ℕ → Table × Option ℕ
find_free t zero = (record t { lastfree = 0 }, none)
find_free t (suc i) =
    let below = find_free t i in
    if tisnil (tnode t i) then (record t { lastfree = suc i }, some i) else below

unfoldable pub getfreenode : Table → Table × Option ℕ
getfreenode t = find_free t t.lastfree

-- `while(othern->next != mindex) othern = tnode(t, othern->next);`, with fuel.
unfoldable pub find_previous : Table → ℕ → ℕ → ℕ → Option ℕ
find_previous t mindex zero othern = none
find_previous t mindex (suc fuel) othern = elim (tnode t othern).next [
  | none ↦ none
  | some i ↦ let rest = find_previous t mindex fuel i in if i == mindex then some othern else rest
]

-- The last two assignments of table_newkey.
abbrev claim : Table → ℕ → ℕ → Table
claim t mp key = put_node t mp (record (tnode t mp) { key = key; flag = inner })

-- How table_newkey ends without an expansion: with the table and the index of the node, without a
-- free node, or by following a chain that does not lead to the node at the main position.
pub data Placed : Type 0 where
  placed : Table → ℕ → Placed
  full : Table → Placed
  broken : Placed

-- table_newkey up to its call of table_expand.
unfoldable pub place : Table → ℕ → Placed
place t key =
    let mp = mainposition t key in
    if tisnil (tnode t mp)
    then placed (claim t mp key) mp
    else (let (t1, free) = getfreenode t in
        elim free [
          | none ↦ full t1
          | some n ↦
              let othern = mainposition t1 (tnode t1 mp).key in
              if othern == mp
              then (let t2 = put_node t1 n (record (tnode t1 n) { next = (tnode t1 mp).next }) in
                  let t3 = put_node t2 mp (record (tnode t2 mp) { next = some n }) in
                  placed (claim t3 n key) n)
              else elim (find_previous t1 mp (length t1.node) othern) [
                | none ↦ broken
                | some p ↦
                    let t2 = put_node t1 p (record (tnode t1 p) { next = some n }) in
                    let t3 = put_node t2 n (tnode t2 mp) in
                    let t4 = put_node t3 mp (initnode (tnode t3 mp).key) in
                    placed (claim t4 mp key) mp
              ]
        ])

-- The table that table_expand allocates.
abbrev pub blank : ℕ → Table
blank capacity = record {
  capacity = capacity;
  node = replicate capacity (initnode 0);
  lastfree = capacity;
}

-- The loop of table_expand over the old nodes; `newkey` is table_newkey.
unfoldable pub reinsert : (Table → ℕ → Option (Table × ℕ)) → List TableNode → Table → Option Table
reinsert newkey [] t = some t
reinsert newkey (old ∷ nodes) t =
    if tisnil old then reinsert newkey nodes t else elim (newkey t old.key) [
      | none ↦ none
      | some (t', i) ↦
          reinsert newkey nodes
            (put_node t' i (record (tnode t' i) { flag = old.flag; value = old.value }))
    ]

-- table_newkey; an expansion makes calls of its own, hence the fuel.
unfoldable pub table_newkey : ℕ → Table → ℕ → Option (Table × ℕ)
table_newkey zero t key = none
table_newkey (suc fuel) t key = elim (place t key) [
  | placed t' i ↦ some (t', i)
  | full t' ↦ elim (reinsert (table_newkey fuel) t'.node (blank (t'.capacity * 2))) [
    | none ↦ none
    | some t'' ↦ table_newkey fuel t'' key
  ]
  | broken ↦ none
]

-- The loop of table_get, with fuel.
unfoldable pub get_loop : Table → ℕ → ℕ → ℕ → Option ℕ
get_loop t key zero n = none
get_loop t key (suc fuel) n =
    if tisnil (tnode t n)
    then none
    else if (tnode t n).key == key
    then some n
    else elim (tnode t n).next [ none ↦ none | some i ↦ get_loop t key fuel i ]

-- The index of the node of a key. A chain visits no node twice, so it ends within the fuel.
unfoldable pub table_get : Table → ℕ → Option ℕ
table_get t key = get_loop t key (length t.node) (mainposition t key)

-- The fuel of a new key: the expanded table is half empty, so there is no second expansion.
unfoldable pub table_insert : Table → ℕ → Option (Table × ℕ)
table_insert t key = elim (table_get t key) [ some i ↦ some (t, i) | none ↦ table_newkey 2 t key ]

unfoldable pub table_new : Table
table_new = blank 1
