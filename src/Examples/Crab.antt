-- ===== src/Examples/Crab.antt =====
-- lua-crab.c: words are inserted and a text is filtered, and its theorems at that dictionary.
use skynet_slg.Prelude.{ℕ, ◌≡◌, refl, List, [], ◌∷◌, true, none, some, map}
use skynet_slg.Crab.Table.{
  table_get, get_loop, table_insert, table_newkey, reinsert, place, find_previous, getfreenode,
  find_free, mainposition, table_new,
}
use skynet_slg.Crab.Dict.{
  Store, Word, runes, dict_open, open_words, dict_insert, insert_runes, child_of, mark_terminal,
  Opened, opened, illegal_parameters, diverged,
}
use skynet_slg.Crab.Filter.{star, get_entry, scan, filter_loop, filter_text, dict_filter}
use skynet_slg.Crab.Filter.Result.{Filtered, filter_text-Filtered}

abbrev word : List ℕ → Word
word cs = runes (map some cs)

-- Words with common beginnings and colliding runes.
abbrev words : List Word
words =
    word (1 ∷ 2 ∷ [])
    ∷ word (1 ∷ 2 ∷ 3 ∷ 4 ∷ [])
    ∷ word (9 ∷ [])
    ∷ word (17 ∷ 5 ∷ [])
    ∷ word (25 ∷ 1 ∷ [])
    ∷ []

store_of : Opened → Store
store_of (opened st dict) = st
store_of (illegal_parameters i) = []
store_of diverged = []

abbrev text : List ℕ
text = 1 ∷ 2 ∷ 3 ∷ 9 ∷ 1 ∷ 17 ∷ 5 ∷ 25 ∷ 1 ∷ 2 ∷ 3 ∷ 4 ∷ 25 ∷ 1 ∷ []

abbrev words_store : Store
words_store = store_of (dict_open [] words)

filter_runs :
    dict_filter words_store (some 0) text
    ≡ some (
      star ∷ star ∷ 3 ∷ star ∷ 1 ∷ star ∷ star ∷ star ∷ star ∷ 2 ∷ 3 ∷ 4 ∷ star ∷ star ∷ [],
      true,
    )
unfolding dict_filter filter_text filter_loop scan get_entry table_get get_loop dict_open open_words
    dict_insert insert_runes child_of mark_terminal table_insert table_newkey reinsert place
    find_previous getfreenode find_free mainposition table_new store_of
filter_runs = refl

illegal_word : dict_open [] (word (1 ∷ []) ∷ runes (some 1 ∷ none ∷ []) ∷ []) ≡ illegal_parameters 2
unfolding dict_open open_words dict_insert insert_runes child_of mark_terminal table_insert
    table_newkey reinsert place find_previous getfreenode find_free mainposition table_new table_get
    get_loop
illegal_word = refl

filter_text-Filtered_example :
    Filtered
      (get_entry words_store)
      0
      text
      (filter_text (get_entry words_store) 0 text).0
      (filter_text (get_entry words_store) 0 text).1
filter_text-Filtered_example = filter_text-Filtered (get_entry words_store) 0 text
