-- ===== src/WordList.antt =====
-- 3rd/src-c/crab.c: the word filter as a program of its own, with a chain of words for each hash
-- of a first character. A message or a word is the list of its wchar_t without the closing zero; a
-- line of the word list is what getline gives, with its newline.
pub mod Chain
pub mod Built
pub mod Covered
use skynet_slg.Prelude.{
  ℕ, zero, suc, ◌+◌, ◌%◌, ◌^◌, ◌||◌, ltb, List, [], ◌∷◌, ◌++◌, drop, length, replicate, Bool, true,
  false, ◌==◌, leb, if◌then◌else◌, Option, none, some, bit_and, bit_xor,
}
use skynet_slg.Prelude.Word.{shr}

-- _hash.
unfoldable pub hash : ℕ → ℕ
hash c = bit_xor (bit_and (shr c 16) 0xffff) (bit_and c 0xffff)

-- The array `words`: its chain at each index.
abbrev pub Words : Type 0
Words = ℕ → List (List ℕ)

unfoldable pub no_words : Words
no_words h = []

-- The loop of add_word over a chain: the word goes before the first shorter one.
unfoldable pub add_to_chain : List ℕ → List (List ℕ) → List (List ℕ)
add_to_chain word [] = word ∷ []
add_to_chain word (node ∷ chain) =
    let behind = add_to_chain word chain in
    if leb (length word) (length node) then node ∷ behind else word ∷ node ∷ chain

-- add_word; `none` is the null pointer that utf82wc gives of a line that is not UTF-8.
unfoldable pub add_word : Words → Option (List ℕ) → Words
add_word words none = words
add_word words (some []) = words
add_word words (some (c ∷ cs)) =
    λ h. if h == hash c then add_to_chain (c ∷ cs) (words h) else words h

-- `utf8[len-1] = '\0'`.
unfoldable pub zero_last : List ℕ → List ℕ
zero_last [] = []
zero_last (b ∷ []) = 0 ∷ []
zero_last (b ∷ c ∷ bs) = b ∷ zero_last (c ∷ bs)

module _ (iconv : List ℕ → Option (List ℕ)) where
  -- utf82wc; `iconv` gives the wchar_t that iconv writes, up to the first zero, when its result is 0.
  unfoldable pub utf82wc : List ℕ → Option (List ℕ)
  utf82wc [] = none
  utf82wc (b ∷ bs) = iconv (b ∷ bs)

  -- The loop of main over the lines of the list.
  unfoldable pub add_all : Words → List (List ℕ) → Words
  add_all words [] = words
  add_all words (line ∷ lines) = add_all (add_word words (utf82wc (zero_last line))) lines

unfoldable pub find_word : Words → ℕ → List (List ℕ)
find_word words c = words (hash c)

-- What `memcmp(wmsg, w->word, n*sizeof(wchar_t)) == 0` compares: the zero behind the message is no
-- character of a word.
unfoldable pub starts_with : List ℕ → List ℕ → Bool
starts_with msg [] = true
starts_with [] (w ∷ ws) = false
starts_with (c ∷ cs) (w ∷ ws) = let rest = starts_with cs ws in if c == w then rest else false

-- The inner loop of _crab. `room` is the number of wchar_t behind the closing zero in the block of the
-- message; `none` is a memcmp of a word that is longer than what the block has.
unfoldable pub first_match : ℕ → List ℕ → List (List ℕ) → Option (Option (List ℕ))
first_match room msg [] = some none
first_match room msg (w ∷ chain) =
    let rest = first_match room msg chain in
    if ltb (length msg + 1 + room) (length w)
    then none
    else if starts_with msg w
    then some (some w)
    else rest

-- How _crab ends: with the message and `crabbed`, in a memcmp beyond the block, or not at all.
pub data Crabbed : Type 0 where
  done : List ℕ → Bool → Crabbed
  overrun : Crabbed
  out_of_fuel : Crabbed

-- What a round makes of the rest: the characters that it leaves, and whether it covered them.
abbrev pub put_before : List ℕ → Bool → Crabbed → Crabbed
put_before front covers (done out crabbed) = done (front ++ out) (covers || crabbed)
put_before front covers overrun = overrun
put_before front covers out_of_fuel = out_of_fuel

-- L '*'.
abbrev pub star : ℕ
star = b'*'

-- The outer loop of _crab. The fuel is for a round for each character.
unfoldable pub crab_loop : ℕ → ℕ → Words → List ℕ → Crabbed
crab_loop room fuel words [] = done [] false
crab_loop room zero words (c ∷ cs) = out_of_fuel
crab_loop room (suc fuel) words (c ∷ cs) = elim (first_match room (c ∷ cs) (find_word words c)) [
  | none ↦ overrun
  | some found ↦ elim found [
    | none ↦ put_before (c ∷ []) false (crab_loop room fuel words cs)
    | some w ↦
        put_before (replicate (length w) star) true
          (crab_loop room fuel words (drop (length w) (c ∷ cs)))
  ]
]

-- _crab.
unfoldable pub crab : ℕ → Words → List ℕ → Crabbed
crab room words msg = crab_loop room (length msg) words msg
