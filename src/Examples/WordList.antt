-- ===== src/Examples/WordList.antt =====
-- crab.c: a run, and its theorems at a concrete list of words.
use skynet_slg.Prelude.{ℕ, ◌≡◌, refl, List, [], ◌∷◌, Option, none, some, true, ◌==◌, if◌then◌else◌}
use skynet_slg.WordList.{
  hash, star, no_words, add_word, add_to_chain, add_all, find_word, first_match, starts_with, crab,
  crab_loop, zero_last, utf82wc, done, overrun,
}
use skynet_slg.WordList.Built.{Listed}
use skynet_slg.WordList.Covered.{Result, crab-Covered}

-- An iconv that gives each byte as it is, up to the first zero, and refuses what starts with 255.
abbrev up_to_zero : List ℕ → List ℕ
up_to_zero [] = []
up_to_zero (b ∷ bs) = let rest = up_to_zero bs in if b == 0 then [] else b ∷ rest

abbrev iconv : List ℕ → Option (List ℕ)
iconv [] = none
iconv (b ∷ bs) = if b == 255 then none else some (up_to_zero (b ∷ bs))

-- The last line has no newline, so that its last byte is lost.
abbrev lines : List (List ℕ)
lines = (1 ∷ 2 ∷ 10 ∷ []) ∷ (255 ∷ 10 ∷ []) ∷ (10 ∷ []) ∷ (1 ∷ 2 ∷ 3 ∷ 7 ∷ []) ∷ []

abbrev text : List ℕ
text = 1 ∷ 2 ∷ 3 ∷ 1 ∷ 2 ∷ 4 ∷ []

runs :
    crab 0 (add_all iconv no_words lines) text
    ≡ done (star ∷ star ∷ star ∷ star ∷ star ∷ 4 ∷ []) true
unfolding crab crab_loop add_all add_word add_to_chain no_words find_word first_match starts_with
    hash zero_last utf82wc
runs = refl

-- The first character of a word, alone and last in its block: memcmp reads a third wchar_t there.
beyond_block : crab 0 (add_all iconv no_words lines) (1 ∷ []) ≡ overrun
unfolding crab crab_loop add_all add_word add_to_chain no_words find_word first_match starts_with
    hash zero_last utf82wc
beyond_block = refl

crab-Covered_example :
    Result 0 (Listed iconv lines) text (crab 0 (add_all iconv no_words lines) text)
crab-Covered_example = crab-Covered iconv lines 0 text
