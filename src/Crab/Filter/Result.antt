-- ===== src/Crab/Filter/Result.antt =====
-- What the filter makes of a text, against a description of it by longest words.
use skynet_slg.Prelude.{
  ℕ, zero, suc, ◌≤◌, ◌<◌, ◌≡◌, ◌↔◌, inl, inr, refl, ap, ◌∙◌, arith, List, [], ◌∷◌, ◌++◌, drop,
  length, length-append, length-drop, length-replicate, replicate, Bool, true, false, Option,
  ==-eq_false,
}
use skynet_slg.Crab.Filter.{Entry, star, scan, filter_loop, filter_text}
use skynet_slg.Crab.Filter.Longest.{accepts, NoWord, IsLongest, scan-Found}

module _ (get : ℕ → ℕ → Option Entry) (dict : ℕ) where
  -- `Filtered cs out flag`: the text is read from the left, the longest word that starts at a
  -- position is covered by stars, and where none starts the character stays.
  pub data Filtered : List ℕ → List ℕ → Bool → Type 0 where
    end : Filtered [] [] false
    keep :
        {c : ℕ} {cs out : List ℕ} {flag : Bool}
        → NoWord get dict (c ∷ cs) 1
        → Filtered cs out flag
        → Filtered (c ∷ cs) (c ∷ out) flag
    cover :
        {c : ℕ} {cs rest out : List ℕ} {flag : Bool} (n : ℕ)
        → IsLongest get dict (c ∷ cs) n
        → rest ≡ drop n (c ∷ cs)
        → Filtered rest out flag
        → Filtered (c ∷ cs) (replicate n star ++ out) true

  keep-round :
      (fuel c : ℕ) (cs : List ℕ)
      → scan get dict (c ∷ cs) 0 0 ≡ 0
      → filter_loop get (suc fuel) dict (c ∷ cs)
        ≡ (c ∷ (filter_loop get fuel dict cs).0, (filter_loop get fuel dict cs).1)
  unfolding filter_loop
  keep-round fuel c cs e = rw e

  cover-round :
      (fuel c n : ℕ) (cs : List ℕ)
      → scan get dict (c ∷ cs) 0 0 ≡ n
      → 0 < n
      → filter_loop get (suc fuel) dict (c ∷ cs)
        ≡ (replicate n star ++ (filter_loop get fuel dict (drop n (c ∷ cs))).0, true)
  unfolding filter_loop
  cover-round fuel c n cs e p = rw (e, ==-eq_false n 0 (omega arith))

  filter_loop-Filtered :
      (fuel : ℕ) (cs : List ℕ)
      → length cs ≤ fuel
      → Filtered cs (filter_loop get fuel dict cs).0 (filter_loop get fuel dict cs).1
  filter_loop-Filtered zero [] h = unfold filter_loop in end
  filter_loop-Filtered zero (c ∷ cs) h = absurd (omega arith)
  filter_loop-Filtered (suc fuel) [] h = unfold filter_loop in end
  filter_loop-Filtered (suc fuel) (c ∷ cs) h = elim (scan-Found get dict (c ∷ cs) 0 0) [
    | inl (same, no_word) ↦
        rw (keep-round fuel c cs same) (keep no_word (filter_loop-Filtered fuel cs (omega arith)))
    | inr (n, some_chars, same, longest) ↦
        rw (cover-round fuel c n cs (same ∙ omega arith) some_chars) (
          cover n longest refl
            (filter_loop-Filtered fuel (drop n (c ∷ cs)) (omega (arith, length-drop n (c ∷ cs)))))
  ]

  -- The filter reads the text from the left and covers the longest word at each position; a round
  -- for each character is enough.
  pub filter_text-Filtered :
      (cs : List ℕ) → Filtered cs (filter_text get dict cs).0 (filter_text get dict cs).1
  unfolding filter_text
  filter_text-Filtered cs = filter_loop-Filtered (length cs) cs (omega arith)

  -- The description determines the result.
  Filtered-length : {cs out : List ℕ} {flag : Bool} → Filtered cs out flag → length out ≡ length cs
  Filtered-length end = refl
  Filtered-length (keep no_word f) = ap suc (Filtered-length f)
  Filtered-length (cover {c} {cs} {rest} {out} n l e f) = omega (
    arith,
    length-append (replicate n star) out,
    length-replicate n star,
    Filtered-length f,
    ap length e,
    length-drop n (c ∷ cs),
    l.fits,
  )

  Filtered-clean : {cs out : List ℕ} {flag : Bool} → Filtered cs out flag → flag ≡ false → out ≡ cs
  Filtered-clean end e = refl
  Filtered-clean (keep {c} no_word f) e = ap (λ l. c ∷ l) (Filtered-clean f e)
  Filtered-clean (cover n l r f) e = cc

  -- No word starts at any position.
  pub Clean : List ℕ → Type 0
  Clean [] = Unit
  Clean (c ∷ cs) = NoWord get dict (c ∷ cs) 1 × Clean cs

  Filtered-Clean : {cs out : List ℕ} {flag : Bool} → Filtered cs out flag → flag ≡ false → Clean cs
  unfolding Clean
  Filtered-Clean end e = tt
  Filtered-Clean (keep no_word f) e = (no_word, Filtered-Clean f e)
  Filtered-Clean (cover n l r f) e = cc

  covered : (cs : List ℕ) (n : ℕ) → IsLongest get dict cs n → NoWord get dict cs 1 → ⊥
  covered cs zero l h = let none_there : accepts get dict [] ≡ true = l.word in unfold accepts in cc
  covered cs (suc n) l h =
      let none_there = h (suc n) (omega arith) l.fits in let there = l.word in cc

  Clean-Filtered : {cs out : List ℕ} {flag : Bool} → Filtered cs out flag → Clean cs → flag ≡ false
  unfolding Clean
  Clean-Filtered end h = refl
  Clean-Filtered (keep no_word f) h = Clean-Filtered f h.1
  Clean-Filtered (cover {c} {cs} n l r f) h = absurd (covered (c ∷ cs) n l h.0)

  -- The filtered text is as long as the text. `flag` is false exactly when no word starts anywhere
  -- in it and the text is unchanged.
  pub filter_text_flag :
      (cs : List ℕ)
      → (length (filter_text get dict cs).0 ≡ length cs)
        × (((filter_text get dict cs).1 ≡ false) ↔ (Clean cs × ((filter_text get dict cs).0 ≡ cs)))
  filter_text_flag cs =
      let f = filter_text-Filtered cs in
      (
        Filtered-length f,
        (λ e. (Filtered-Clean f e, Filtered-clean f e), λ h. Clean-Filtered f h.0),
      )
