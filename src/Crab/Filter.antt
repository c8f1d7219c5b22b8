-- ===== src/Crab/Filter.antt =====
-- dict_filter of 3rd/src-c/lua-crab.c. The section's `get` is table_get at the table of an address:
-- whether the node's flag is 'o', and the node's value.
pub mod Longest
pub mod Result
use skynet_slg.Prelude.{
  ℕ, zero, suc, ◌+◌, List, [], ◌∷◌, ◌++◌, drop, length, replicate, Bool, true, false, ◌==◌,
  if◌then◌else◌, Option, none, some,
}
use skynet_slg.Prelude.Word.{u32}
use skynet_slg.Crab.Table.{Table, terminal, tnode, table_get}
use skynet_slg.Crab.Dict.{Store, table_at}

-- What the filter reads of a node.
pub record Entry : Type 0 where
  pub is_terminal : Bool
  pub value : Option ℕ

-- A Lua integer; the filter puts '*' in place of what it covers.
abbrev pub star : ℕ
star = b'*'

-- table_get in the store, as the filter uses it.
unfoldable pub get_entry : Store → ℕ → ℕ → Option Entry
get_entry st a rune =
    let t = table_at st a in
    elim (table_get t rune) [
      | none ↦ none
      | some i ↦
          let n = tnode t i in
          some
            (record { is_terminal = elim n.flag [ terminal ↦ true | _ ↦ false ]; value = n.value })
    ]

module _ (get : ℕ → ℕ → Option Entry) where
  -- The inner loop: `k` is j - i, `step` the length of the longest word so far.
  unfoldable pub scan : ℕ → List ℕ → ℕ → ℕ → ℕ
  scan a [] k step = step
  scan a (c ∷ cs) k step = elim (get a (u32 c)) [
    | none ↦ step
    | some e ↦
        let step' = if e.is_terminal then suc k else step in
        elim e.value [ none ↦ step' | some b ↦ scan b cs (suc k) step' ]
  ]

  -- The outer loop, with fuel for one round for each character: the characters, and `flag`.
  unfoldable pub filter_loop : ℕ → ℕ → List ℕ → List ℕ × Bool
  filter_loop zero dict cs = (cs, false)
  filter_loop (suc fuel) dict [] = ([], false)
  filter_loop (suc fuel) dict (c ∷ cs) =
      let step = scan dict (c ∷ cs) 0 0 in
      let next = filter_loop fuel dict cs in
      let later = filter_loop fuel dict (drop step (c ∷ cs)) in
      if step == 0 then (c ∷ next.0, next.1) else (replicate step star ++ later.0, true)

  unfoldable pub filter_text : ℕ → List ℕ → List ℕ × Bool
  filter_text dict cs = filter_loop (length cs) dict cs

-- dict_filter; `none` is the error "need open first".
unfoldable pub dict_filter : Store → Option ℕ → List ℕ → Option (List ℕ × Bool)
dict_filter st none cs = none
dict_filter st (some dict) cs = some (filter_text (get_entry st) dict cs)
