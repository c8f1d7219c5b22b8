-- ===== src/WordList/Covered.antt =====
-- crab.c as a whole: the program covers the longest words of its list.
use mathlib.Core.List.{Memᴰ, append_assoc, cons-ne-nil}
use mathlib.Core.Bool.{false≢true}
use mathlib.Core.Path.{subst}
use skynet_slg.Prelude.{
  ◌==◌, ==_iff, sym, ℕ, zero, suc, ◌+◌, ◌≤◌, ◌<◌, ◌≡◌, ◌⊎◌, inl, inr, refl, ap, arith, List, [],
  ◌∷◌, ◌++◌, take, drop, take-append-drop, ◌∙◌, length, length-drop, replicate, Bool, true, false,
  Option, none, some, get_or, Bool-cases,
}
use skynet_slg.WordList.{
  Words, no_words, hash, add_all, find_word, starts_with, first_match, star, crab_loop, crab,
  Crabbed, done, overrun, put_before,
}
use skynet_slg.WordList.Chain.{IsDescending, IsBest, first_match-Answers}
use skynet_slg.WordList.Built.{Holds, Listed, built-Holds}

-- The text begins with the word.
abbrev pub Begins : List ℕ → List ℕ → Type 0
Begins msg w = take (length w) msg ≡ w

same_first : {c d : ℕ} {cs ds : List ℕ} → c ∷ cs ≡ d ∷ ds → (c == d) ≡ true
same_first {c} {d} e = (==_iff c d).1 (ap (λ l. get_or l 0 0) e)

starts_with-Begins : (msg w : List ℕ) → starts_with msg w ≡ true → Begins msg w
unfolding starts_with
starts_with-Begins msg [] e = refl
starts_with-Begins [] (d ∷ ds) e = absurd (false≢true e)
starts_with-Begins (c ∷ cs) (d ∷ ds) e = elim (Bool-cases (c == d)) [
  | inl same ↦
      let rest : starts_with cs ds ≡ true = rw same at e in
      rw ((==_iff c d).0 same) (ap (λ l. d ∷ l) (starts_with-Begins cs ds rest))
  | inr differ ↦ absurd (false≢true (rw differ at e))
]

Begins-starts_with : (msg w : List ℕ) → Begins msg w → starts_with msg w ≡ true
unfolding starts_with
Begins-starts_with msg [] b = refl
Begins-starts_with [] (d ∷ ds) b = absurd (cons-ne-nil d ds (sym b))
Begins-starts_with (c ∷ cs) (d ∷ ds) b =
    rw (same_first b) (Begins-starts_with cs ds (ap (drop 1) b))

module _ (P : List ℕ → Type 0) where
  -- No nonempty word begins the text.
  abbrev pub NoneStarts : List ℕ → Type 0
  NoneStarts msg = (d : ℕ) (ds : List ℕ) → P (d ∷ ds) → Begins msg (d ∷ ds) → ⊥

  -- A word that begins the text, and no longer one does.
  pub record IsLongestWord (msg w : List ℕ) : Type 0 where
    pub nonempty : 0 < length w
    pub word : P w
    pub starts : Begins msg w
    pub longest :
        (d : ℕ) (ds : List ℕ) → P (d ∷ ds) → Begins msg (d ∷ ds) → suc (length ds) ≤ length w

  -- From the left, the longest word at a position is covered by stars; where no word begins, the
  -- character stays.
  pub data Covered : List ℕ → List ℕ → Bool → Type 0 where
    end : Covered [] [] false
    keep :
        {c : ℕ} {cs out : List ℕ} {crabbed : Bool}
        → NoneStarts (c ∷ cs)
        → Covered cs out crabbed
        → Covered (c ∷ cs) (c ∷ out) crabbed
    cover :
        {c : ℕ} {cs rest out : List ℕ} {crabbed : Bool} (w : List ℕ)
        → IsLongestWord (c ∷ cs) w
        → rest ≡ drop (length w) (c ∷ cs)
        → Covered rest out crabbed
        → Covered (c ∷ cs) (replicate (length w) star ++ out) true

starts-first : (c d : ℕ) (cs ds : List ℕ) → starts_with (c ∷ cs) (d ∷ ds) ≡ true → c ≡ d
unfolding starts_with
starts-first c d cs ds e = ground arith

module _ {words : Words} {P : List ℕ → Type 0} (t : Holds words P) (c : ℕ) (cs : List ℕ) where
  -- A word that begins the text is in the chain of the text's first character.
  in_chain :
      (d : ℕ) (ds : List ℕ)
      → P (d ∷ ds)
      → starts_with (c ∷ cs) (d ∷ ds) ≡ true
      → Memᴰ (d ∷ ds) (find_word words c)
  unfolding find_word
  in_chain d ds p s = rw (starts-first c d cs ds s) (t.listed d ds p)

  best-IsLongestWord :
      {w : List ℕ} → IsBest (c ∷ cs) (find_word words c) w → IsLongestWord P (c ∷ cs) w
  best-IsLongestWord {w} b =
      let (p, i, q) = t.only (hash c) w (unfold find_word in b.listed) in
      record {
        nonempty = p;
        word = q;
        starts = starts_with-Begins (c ∷ cs) w b.starts;
        longest = λ d ds l s.
            let starts = Begins-starts_with (c ∷ cs) (d ∷ ds) s in
            b.longest (d ∷ ds) (in_chain d ds l starts) starts;
      }

  none-NoneStarts :
      ((v : List ℕ) → Memᴰ v (find_word words c) → starts_with (c ∷ cs) v ≡ false)
      → NoneStarts P (c ∷ cs)
  none-NoneStarts none_there d ds l s =
      let starts = Begins-starts_with (c ∷ cs) (d ∷ ds) s in
      false≢true (sym (none_there (d ∷ ds) (in_chain d ds l starts)) ∙ starts)

module _ (room fuel : ℕ) (words : Words) (c : ℕ) (cs : List ℕ) where
  beyond_round :
      first_match room (c ∷ cs) (find_word words c) ≡ none
      → crab_loop room (suc fuel) words (c ∷ cs) ≡ overrun
  unfolding crab_loop
  beyond_round found = rw (crab_loop, found)

  keep_round :
      {run : Crabbed}
      → first_match room (c ∷ cs) (find_word words c) ≡ some none
      → crab_loop room fuel words cs ≡ run
      → crab_loop room (suc fuel) words (c ∷ cs) ≡ put_before (c ∷ []) false run
  unfolding crab_loop
  keep_round found e = rw (crab_loop, found, e)

  cover_round :
      {w : List ℕ} {run : Crabbed}
      → first_match room (c ∷ cs) (find_word words c) ≡ some (some w)
      → crab_loop room fuel words (drop (length w) (c ∷ cs)) ≡ run
      → crab_loop room (suc fuel) words (c ∷ cs) ≡ put_before (replicate (length w) star) true run
  unfolding crab_loop
  cover_round found e = rw (crab_loop, found, e)

-- A word of the chain for a character of the message is longer than what the block has from there.
pub record IsBeyond (room : ℕ) (P : List ℕ → Type 0) (msg : List ℕ) : Type 0 where
  pub before : List ℕ
  pub at : ℕ
  pub behind : List ℕ
  pub word : List ℕ
  pub place : before ++ at ∷ behind ≡ msg
  pub listed : P word
  pub same_chain : hash (get_or word 0 0) ≡ hash at
  pub beyond : length (at ∷ behind) + 1 + room < length word

IsBeyond-later :
    {room : ℕ} {P : List ℕ → Type 0} (front msg : List ℕ)
    → IsBeyond room P msg
    → IsBeyond room P (front ++ msg)
IsBeyond-later front msg b = record {
  before = front ++ b.before;
  at = b.at;
  behind = b.behind;
  word = b.word;
  place = append_assoc front b.before (b.at ∷ b.behind) ∙ ap (λ l. front ++ l) b.place;
  listed = b.listed;
  same_chain = b.same_chain;
  beyond = b.beyond;
}

-- The run gives a covered text, or compares a word beyond the block of the message.
abbrev pub Result : ℕ → (List ℕ → Type 0) → List ℕ → Crabbed → Type 0
Result room P msg run =
    ((out : List ℕ) × (crabbed : Bool) × (run ≡ done out crabbed) × Covered P msg out crabbed)
    ⊎ ((run ≡ overrun) × IsBeyond room P msg)

module _ {words : Words} {P : List ℕ → Type 0} (t : Holds words P) (room : ℕ) where
  kept :
      (fuel c : ℕ) (cs : List ℕ)
      → first_match room (c ∷ cs) (find_word words c) ≡ some none
      → NoneStarts P (c ∷ cs)
      → Result room P cs (crab_loop room fuel words cs)
      → Result room P (c ∷ cs) (crab_loop room (suc fuel) words (c ∷ cs))
  kept fuel c cs found others (inl (out, crabbed, run, covered)) =
      inl (c ∷ out, crabbed, keep_round room fuel words c cs found run, keep others covered)
  kept fuel c cs found others (inr (over, b)) =
      inr (keep_round room fuel words c cs found over, IsBeyond-later (c ∷ []) cs b)

  hidden :
      (fuel c : ℕ) (cs w : List ℕ)
      → first_match room (c ∷ cs) (find_word words c) ≡ some (some w)
      → IsLongestWord P (c ∷ cs) w
      → Result room P
          (drop (length w) (c ∷ cs))
          (crab_loop room fuel words (drop (length w) (c ∷ cs)))
      → Result room P (c ∷ cs) (crab_loop room (suc fuel) words (c ∷ cs))
  hidden fuel c cs w found l (inl (out, crabbed, run, covered)) = inl (
    replicate (length w) star ++ out,
    true,
    cover_round room fuel words c cs found run,
    cover w l refl covered,
  )
  hidden fuel c cs w found l (inr (over, b)) = inr (
    cover_round room fuel words c cs found over,
    subst (IsBeyond room P) (take-append-drop (length w) (c ∷ cs))
        (IsBeyond-later (take (length w) (c ∷ cs)) (drop (length w) (c ∷ cs)) b),
  )

  crab_loop-Result :
      (fuel : ℕ) (msg : List ℕ)
      → length msg ≤ fuel
      → Result room P msg (crab_loop room fuel words msg)
  crab_loop-Result fuel [] h = inl ([], false, unfold crab_loop in refl, end)
  crab_loop-Result zero (c ∷ cs) h = absurd (omega arith)
  crab_loop-Result (suc fuel) (c ∷ cs) h =
      elim (first_match-Answers room (c ∷ cs) (descending_at c)) [
        | inl (found, (v, m, long)) ↦
            let (some_first, chain, p) = t.only (hash c) v (unfold find_word in m) in
            inr (
              beyond_round room fuel words c cs found,
              record {
                before = [];
                at = c;
                behind = cs;
                word = v;
                place = refl;
                listed = p;
                same_chain = chain;
                beyond = long;
              },
            )
        | inr answer ↦ elim answer [
          | inl (found, others) ↦
              kept fuel c cs found (none-NoneStarts t c cs others)
                (crab_loop-Result fuel cs (omega arith))
          | inr (w, found, best) ↦
              let l = best-IsLongestWord t c cs best in
              hidden fuel c cs w found l (
                crab_loop-Result fuel (drop (length w) (c ∷ cs))
                  (omega (arith, length-drop (length w) (c ∷ cs), l.nonempty)))
        ]
      ]
    where
      descending_at : (c : ℕ) → IsDescending (find_word words c)
      descending_at c = unfold find_word in t.descending (hash c)

-- The program ends on every message and list of words. A word is a line whose last byte is replaced
-- by a zero, as iconv converts it; lines that are empty then or that iconv does not take are left
-- out. Either from the left the longest word at each position is covered, or memcmp is called with a
-- word that is longer than the rest of the message's block, of a chain that a character of the
-- message leads to.
pub crab-Covered :
    (iconv : List ℕ → Option (List ℕ)) (lines : List (List ℕ)) (room : ℕ) (msg : List ℕ)
    → Result room (Listed iconv lines) msg (crab room (add_all iconv no_words lines) msg)
unfolding crab
crab-Covered iconv lines room msg =
    crab_loop-Result (built-Holds iconv lines) room (length msg) msg (omega arith)
