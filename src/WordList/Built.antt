-- ===== src/WordList/Built.antt =====
-- The array of chains that crab.c builds from the lines of its list.
use mathlib.Core.List.{Memᴰ, cons-ne-nil}
use mathlib.Core.Option.{some-injective, some-ne-none}
use mathlib.Core.Path.{subst}
use mathlib.Core.List.Memᴰ.{head, tail, cases_cons, not-nil}
use skynet_slg.Prelude.{
  take, ◌++◌, ℕ, ◌+◌, ◌<◌, ◌≡◌, ◌⊎◌, inl, inr, refl, sym, ap, arith, List, [], ◌∷◌, map, ◌∙◌,
  length, true, false, ◌==◌, ==_iff, Option, none, some, get_or, Bool-cases, bit_and,
}
use skynet_slg.Prelude.Bits.{xor-lt, bit_and-le}
use skynet_slg.Prelude.Word.{shr}
use skynet_slg.WordList.{Words, no_words, hash, add_to_chain, add_word, add_all, zero_last, utf82wc}
use skynet_slg.WordList.Chain.{
  IsDescending, nil, added_or_old, added, still_there, add_to_chain-IsDescending,
}

-- The index of a chain is inside the array of 0xFFFF+1 chains, whatever the character.
pub hash-lt : (c : ℕ) → hash c < 0xffff + 1
unfolding hash
hash-lt c =
    xor-lt 16 (bit_and (shr c 16) 0xffff) (bit_and c 0xffff)
      (omega (arith, bit_and-le 0xffff (shr c 16))) (omega (arith, bit_and-le 0xffff c))

-- The array holds the words that `P` tells, each in the chain of its first character, longest
-- first.
pub record Holds (words : Words) (P : List ℕ → Type 0) : Type 0 where
  pub descending : (h : ℕ) → IsDescending (words h)
  pub listed : (c : ℕ) (cs : List ℕ) → P (c ∷ cs) → Memᴰ (c ∷ cs) (words (hash c))
  pub only :
      (h : ℕ) (w : List ℕ) → Memᴰ w (words h) → (0 < length w) × (hash (get_or w 0 0) ≡ h) × P w

Holds-ext :
    {words : Words} {P Q : List ℕ → Type 0}
    → ((w : List ℕ) → Q w → P w)
    → ((w : List ℕ) → P w → Q w)
    → Holds words P
    → Holds words Q
Holds-ext to from t = record {
  descending = t.descending;
  listed = λ c cs q. t.listed c cs (to (c ∷ cs) q);
  only = λ h w m. let (p, i, q) = t.only h w m in (p, i, from w q);
}

no_words-Holds : Holds no_words (λ w. ⊥)
unfolding no_words
no_words-Holds = record {
  descending = λ h. nil;
  listed = λ c cs p. absurd p;
  only = λ h w m. absurd (not-nil m);
}

module _ (words : Words) (c : ℕ) (cs : List ℕ) where
  add_word-same : add_word words (some (c ∷ cs)) (hash c) ≡ add_to_chain (c ∷ cs) (words (hash c))
  unfolding add_word
  add_word-same = rw ((==_iff (hash c) (hash c)).1 refl)

  module _ (h : ℕ) where
    add_word-at :
        (h == hash c) ≡ true → add_word words (some (c ∷ cs)) h ≡ add_to_chain (c ∷ cs) (words h)
    unfolding add_word
    add_word-at e = rw e

    add_word-away : (h == hash c) ≡ false → add_word words (some (c ∷ cs)) h ≡ words h
    unfolding add_word
    add_word-away e = rw e

  newly_listed : Memᴰ (c ∷ cs) (add_word words (some (c ∷ cs)) (hash c))
  newly_listed = rw add_word-same (added (c ∷ cs) (words (hash c)))

abbrev Also : (List ℕ → Type 0) → Option (List ℕ) → List ℕ → Type 0
Also P line w = (some w ≡ line) ⊎ P w

add_word-Holds :
    {words : Words} {P : List ℕ → Type 0} (line : Option (List ℕ))
    → Holds words P
    → Holds (add_word words line) (Also P line)
unfolding add_word
add_word-Holds none t =
    Holds-ext (λ w q. elim q [ inl e ↦ absurd (some-ne-none w e) | inr p ↦ p ]) (λ w p. inr p) t
add_word-Holds (some []) t = record {
  descending = t.descending;
  listed = λ c cs q. elim q [
    | inl e ↦ absurd (cons-ne-nil c cs (some-injective (c ∷ cs) [] e))
    | inr p ↦ t.listed c cs p
  ];
  only = λ h w m. let (p, i, q) = t.only h w m in (p, i, inr q);
}
add_word-Holds {words} (some (c ∷ cs)) t = record {
  descending = λ h. elim (Bool-cases (h == hash c)) [
    | inl e ↦ rw (add_word-at words c cs h e) (add_to_chain-IsDescending (c ∷ cs) (t.descending h))
    | inr e ↦ rw (add_word-away words c cs h e) (t.descending h)
  ];
  listed = λ d ds q. elim q [
    | inl e ↦
        subst (λ w. Memᴰ w (add_word words (some (c ∷ cs)) (hash (get_or w 0 0))))
          (sym (some-injective (d ∷ ds) (c ∷ cs) e)) (newly_listed words c cs)
    | inr p ↦ elim (Bool-cases (hash d == hash c)) [
      | inl e ↦
          rw (add_word-at words c cs (hash d) e)
            (still_there (c ∷ cs) (words (hash d)) (t.listed d ds p))
      | inr e ↦ rw (add_word-away words c cs (hash d) e) (t.listed d ds p)
    ]
  ];
  only = λ h w m. elim (Bool-cases (h == hash c)) [
    | inl e ↦ elim (added_or_old (c ∷ cs) w (words h) (rw (add_word-at words c cs h e) at m)) [
      | inl same ↦ (
        rw same (omega arith),
        ap (λ l. hash (get_or l 0 0)) same ∙ sym ((==_iff h (hash c)).0 e),
        inl (ap some same),
      )
      | inr old ↦ let (p, i, q) = t.only h w old in (p, i, inr q)
    ]
    | inr e ↦ let (p, i, q) = t.only h w (rw (add_word-away words c cs h e) at m) in (p, i, inr q)
  ];
}

-- The word of a line: all bytes but the last and a zero, as iconv converts them.
unfoldable pub word_of : (List ℕ → Option (List ℕ)) → List ℕ → Option (List ℕ)
word_of iconv [] = none
word_of iconv (b ∷ bs) = iconv (take (length bs) (b ∷ bs) ++ 0 ∷ [])

zero_last-front : (b : ℕ) (bs : List ℕ) → zero_last (b ∷ bs) ≡ take (length bs) (b ∷ bs) ++ 0 ∷ []
unfolding zero_last
zero_last-front b [] = refl
zero_last-front b (c ∷ bs) = ap (λ l. b ∷ l) (zero_last-front c bs)

utf82wc-whole :
    (iconv : List ℕ → Option (List ℕ)) (front : List ℕ)
    → utf82wc iconv (front ++ 0 ∷ []) ≡ iconv (front ++ 0 ∷ [])
unfolding utf82wc
utf82wc-whole iconv [] = refl
utf82wc-whole iconv (b ∷ front) = refl

utf82wc-word_of :
    (iconv : List ℕ → Option (List ℕ)) (line : List ℕ)
    → utf82wc iconv (zero_last line) ≡ word_of iconv line
unfolding word_of
utf82wc-word_of iconv [] = unfold zero_last utf82wc in refl
utf82wc-word_of iconv (b ∷ bs) =
    rw (zero_last-front b bs) (utf82wc-whole iconv (take (length bs) (b ∷ bs)))

-- The words of the list: those of its lines that iconv takes.
abbrev pub Listed : (List ℕ → Option (List ℕ)) → List (List ℕ) → List ℕ → Type 0
Listed iconv lines w = Memᴰ (some w) (map (word_of iconv) lines)

module _ (iconv : List ℕ → Option (List ℕ)) where
  add_all-Holds :
      {words : Words} {P : List ℕ → Type 0} (lines : List (List ℕ))
      → Holds words P
      → Holds (add_all iconv words lines) (λ w. Listed iconv lines w ⊎ P w)
  unfolding add_all
  add_all-Holds [] t =
      Holds-ext (λ w q. elim q [ inl m ↦ absurd (not-nil m) | inr p ↦ p ]) (λ w p. inr p) t
  add_all-Holds {words = words} {P = P} (line ∷ lines) t =
      let word : Option (List ℕ) = utf82wc iconv (zero_last line) in
      let same : word ≡ word_of iconv line = utf82wc-word_of iconv line in
      Holds-ext
        (λ w q. elim q [
          | inl m ↦ elim (cases_cons m) [ inl e ↦ inr (inl (e ∙ sym same)) | inr later ↦ inl later ]
          | inr p ↦ inr (inr p)
        ])
        (λ w q. elim q [
          | inl m ↦ inl (tail m)
          | inr a ↦ elim a [ inl e ↦ inl (head (e ∙ same)) | inr p ↦ inr p ]
        ])
        (add_all-Holds {words = add_word words word} {P = Also P word} lines
          (add_word-Holds word t))

  pub built-Holds :
      (lines : List (List ℕ)) → Holds (add_all iconv no_words lines) (Listed iconv lines)
  built-Holds lines =
      Holds-ext (λ w m. inl m) (λ w q. elim q [ inl m ↦ m | inr p ↦ absurd p ])
        (add_all-Holds lines no_words-Holds)
