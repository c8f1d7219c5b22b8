-- ===== src/Crab/Dict.antt =====
-- _dict_insert and dict_open of 3rd/src-c/lua-crab.c, on the store of tables.
use skynet_slg.Prelude.{
  ℕ, suc, List, [], ◌∷◌, ◌++◌, get_or, set, length, Bool, true, false, Option, none, some,
}
use skynet_slg.Prelude.Word.{u32}
use skynet_slg.Crab.Table.{Table, terminal, tnode, put_node, blank, table_insert, table_new}

-- The tables that were allocated, by address.
abbrev pub Store : Type 0
Store = List Table

abbrev pub table_at : Store → ℕ → Table
table_at st a = get_or st a (blank 0)

-- What a script passes for a word: a table of values, of which some are no integers, or no table.
pub data Word : Type 0 where
  runes : List (Option ℕ) → Word
  no_table : Word

-- A node of a table in the store.
pub record Place : Type 0 where
  pub table : ℕ
  pub index : ℕ

-- The table that a node leads to; it is made if there is none.
unfoldable pub child_of : Store → Place → Store × ℕ
child_of st p =
    let n = tnode (table_at st p.table) p.index in
    elim n.value [
      | some a ↦ (st, a)
      | none ↦ (
        set st p.table
              (put_node (table_at st p.table) p.index (record n { value = some (length st) }))
            ++ table_new ∷ [],
        length st,
      )
    ]

-- The result of inserting a word: the store, and 1 or 0.
pub data Inserted : Type 0 where
  inserted : Store → Bool → Inserted
  stuck : Inserted

-- `if(node) node->flag = 'o';`
unfoldable pub mark_terminal : Store → Option Place → Store
mark_terminal st none = st
mark_terminal st (some p) =
    let t = table_at st p.table in
    set st p.table (put_node t p.index (record (tnode t p.index) { flag = terminal }))

-- table_insert into the table at an address.
abbrev insert_at : Store → ℕ → ℕ → Option (Store × Place)
insert_at st a rune = elim (table_insert (table_at st a) rune) [
  | none ↦ none
  | some (t, i) ↦ some (set st a t, record { table = a; index = i })
]

-- The loop of _dict_insert; `last` is where the last rune was put.
unfoldable pub insert_runes : Store → ℕ → Option Place → List (Option ℕ) → Inserted
insert_runes st dict last [] = inserted (mark_terminal st last) true
insert_runes st dict last (none ∷ word) = inserted st false
insert_runes st dict last (some rune ∷ word) =
    let (st1, a) : Store × ℕ = elim last [ none ↦ (st, dict) | some p ↦ child_of st p ] in
    elim (insert_at st1 a (u32 rune)) [
      | none ↦ stuck
      | some (st2, p) ↦ insert_runes st2 dict (some p) word
    ]

unfoldable pub dict_insert : Store → ℕ → Word → Inserted
dict_insert st dict no_table = inserted st false
dict_insert st dict (runes word) = insert_runes st dict none word

-- How dict_open ends: with g_dict at an address, or with the error of the word at an index. On an
-- error g_dict keeps its value.
pub data Opened : Type 0 where
  opened : Store → ℕ → Opened
  illegal_parameters : ℕ → Opened
  diverged : Opened

unfoldable pub open_words : Store → ℕ → ℕ → List Word → Opened
open_words st dict i [] = opened st dict
open_words st dict i (w ∷ words) = elim (dict_insert st dict w) [
  | stuck ↦ diverged
  | inserted st' ok ↦ elim ok [
    | true ↦ open_words st' dict (suc i) words
    | false ↦ illegal_parameters i
  ]
]

unfoldable pub dict_open : Store → List Word → Opened
dict_open st words = open_words (st ++ table_new ∷ []) (length st) 1 words
