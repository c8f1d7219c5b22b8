-- ===== src/Crab/Filter/Longest.antt =====
-- The inner loop of the filter finds the longest word at a position.
use skynet_slg.Prelude.{
  ℕ, zero, suc, ◌+◌, ◌≤◌, ◌<◌, ◌≡◌, ◌⊎◌, inl, inr, refl, arith, List, [], ◌∷◌, take, length, Bool,
  true, false, if◌then◌else◌, Option, none, some, Bool-cases, Option-cases, ap, ◌∙◌,
}
use native.Mathlib.Decide.{dec_lt}
use skynet_slg.Prelude.Word.{u32}
use skynet_slg.Crab.Filter.{Entry, scan}

module _ (get : ℕ → ℕ → Option Entry) where
  -- The trie below the table `a` holds the word.
  unfoldable pub accepts : ℕ → List ℕ → Bool
  accepts a [] = false
  accepts a (c ∷ cs) = elim (get a (u32 c)) [
    | none ↦ false
    | some e ↦ elim cs [
      | [] ↦ e.is_terminal
      | c' ∷ cs' ↦ elim e.value [ none ↦ false | some b ↦ accepts b cs ]
    ]
  ]

  -- No prefix of a length from `low` on is a word.
  abbrev pub NoWord : ℕ → List ℕ → ℕ → Type 0
  NoWord a cs low = (m : ℕ) → low ≤ m → m ≤ length cs → accepts a (take m cs) ≡ false

  -- `n` is the length of the longest word that `cs` begins with.
  pub record IsLongest (a : ℕ) (cs : List ℕ) (n : ℕ) : Type 0 where
    pub fits : n ≤ length cs
    pub word : accepts a (take n cs) ≡ true
    pub longest : NoWord a cs (suc n)

  abbrev pub Found : ℕ → List ℕ → ℕ → ℕ → ℕ → Type 0
  Found a cs k step result =
      ((result ≡ step) × NoWord a cs 1) ⊎ ((n : ℕ) × (0 < n) × (result ≡ k + n) × IsLongest a cs n)

  module _ (a c : ℕ) (cs : List ℕ) where
    accepts-absent : get a (u32 c) ≡ none → (w : List ℕ) → accepts a (c ∷ w) ≡ false
    unfolding accepts
    accepts-absent g w = rw (g, accepts)

    module _ (e : Entry) (g : get a (u32 c) ≡ some e) where
      accepts-single : accepts a (c ∷ []) ≡ e.is_terminal
      unfolding accepts
      accepts-single = rw (g, accepts)

      accepts-leaf : e.value ≡ none → (d : ℕ) (w : List ℕ) → accepts a (c ∷ d ∷ w) ≡ false
      unfolding accepts
      accepts-leaf v d w = rw (g, accepts, v)

      accepts-child :
          (b : ℕ)
          → e.value ≡ some b
          → (d : ℕ) (w : List ℕ) → accepts a (c ∷ d ∷ w) ≡ accepts b (d ∷ w)
      unfolding accepts
      accepts-child b v d w = rw (g, accepts, v)

  leaf-prefix :
      (a c : ℕ) (e : Entry)
      → get a (u32 c) ≡ some e
      → e.value ≡ none
      → (m : ℕ) (cs : List ℕ) → 0 < m
      → m ≤ length cs
      → accepts a (c ∷ take m cs) ≡ false
  leaf-prefix a c e g v zero cs p h = absurd (omega arith)
  leaf-prefix a c e g v (suc m) [] p h = absurd (omega arith)
  leaf-prefix a c e g v (suc m) (d ∷ cs) p h = accepts-leaf a c cs e g v d (take m cs)

  child-prefix :
      (a c : ℕ) (e : Entry)
      → get a (u32 c) ≡ some e
      → (b : ℕ) → e.value ≡ some b
      → (m : ℕ) (cs : List ℕ) → 0 < m
      → m ≤ length cs
      → accepts a (c ∷ take m cs) ≡ accepts b (take m cs)
  child-prefix a c e g b v zero cs p h = absurd (omega arith)
  child-prefix a c e g b v (suc m) [] p h = absurd (omega arith)
  child-prefix a c e g b v (suc m) (d ∷ cs) p h = accepts-child a c cs e g b v d (take m cs)

  -- No longer prefix of `c ∷ cs` is a word if the rest of it is none.
  NoWord-cons :
      (a c : ℕ) (cs : List ℕ) (low : ℕ)
      → ((m : ℕ) → low ≤ m → m ≤ length cs → accepts a (c ∷ take m cs) ≡ false)
      → NoWord a (c ∷ cs) (suc low)
  NoWord-cons a c cs low h zero l u = absurd (omega arith)
  NoWord-cons a c cs low h (suc m) l u = h m (omega arith) (omega arith)

  -- A node whose key is a word, with no longer word below it.
  single-Found :
      (a c : ℕ) (cs : List ℕ) (k step : ℕ) (e : Entry)
      → get a (u32 c) ≡ some e
      → ((m : ℕ) → 1 ≤ m → m ≤ length cs → accepts a (c ∷ take m cs) ≡ false)
      → Found a (c ∷ cs) k step (if e.is_terminal then suc k else step)
  single-Found a c cs k step e g below = elim (Bool-cases e.is_terminal) [
    | inl t ↦ inr (
      1,
      omega arith,
      rw t (omega arith),
      record {
        fits = omega arith;
        word = accepts-single a c cs e g ∙ t;
        longest = NoWord-cons a c cs 1 below;
      },
    )
    | inr t ↦ inl (
      rw t,
      NoWord-cons a c cs 0 (λ m l u. elim (dec_lt 0 m) [
        | yes more ↦ below m more u
        | no z ↦
            let e0 : m ≡ 0 = omega arith in
            ap (λ (j : ℕ). accepts a (c ∷ take j cs)) e0 ∙ accepts-single a c cs e g ∙ t
      ]),
    )
  ]

  scan-leaf :
      (a c : ℕ) (cs : List ℕ) (k step : ℕ) (e : Entry)
      → get a (u32 c) ≡ some e
      → e.value ≡ none
      → scan get a (c ∷ cs) k step ≡ (if e.is_terminal then suc k else step)
  unfolding scan
  scan-leaf a c cs k step e g v = rw (g, scan, v)

  scan-child :
      (a c : ℕ) (cs : List ℕ) (k step : ℕ) (e : Entry) (b : ℕ)
      → get a (u32 c) ≡ some e
      → e.value ≡ some b
      → scan get a (c ∷ cs) k step ≡ scan get b cs (suc k) (if e.is_terminal then suc k else step)
  unfolding scan
  scan-child a c cs k step e b g v = rw (g, scan, v)

  scan-absent :
      (a c : ℕ) (cs : List ℕ) (k step : ℕ)
      → get a (u32 c) ≡ none
      → scan get a (c ∷ cs) k step ≡ step
  unfolding scan
  scan-absent a c cs k step g = rw (g, scan)

  below-Found :
      (a c : ℕ) (cs : List ℕ) (k step : ℕ) (e : Entry) (b result : ℕ)
      → get a (u32 c) ≡ some e
      → e.value ≡ some b
      → Found b cs (suc k) (if e.is_terminal then suc k else step) result
      → Found a (c ∷ cs) k step result
  below-Found a c cs k step e b result g v (inl (same, none_below)) = rw same (
      single-Found a c cs k step e g
        (λ m l u. child-prefix a c e g b v m cs l u ∙ none_below m l u))
  below-Found a c cs k step e b result g v (inr (n, some_chars, same, found)) = inr (
    suc n,
    omega arith,
    omega arith,
    record {
      fits = omega (arith, found.fits);
      word = child-prefix a c e g b v n cs some_chars found.fits ∙ found.word;
      longest =
          NoWord-cons a c cs (suc n)
            (λ m l u. child-prefix a c e g b v m cs (omega arith) u ∙ found.longest m l u);
    },
  )

  -- From any table, and for any count and step so far, the scan keeps the step if no word starts
  -- here, and else adds the length of the longest one to the count.
  pub scan-Found : (a : ℕ) (cs : List ℕ) (k step : ℕ) → Found a cs k step (scan get a cs k step)
  scan-Found a [] k step = inl (unfold scan in refl, λ m l u. absurd (omega arith))
  scan-Found a (c ∷ cs) k step = elim (Option-cases (get a (u32 c))) [
    | inl g ↦
        rw (scan-absent a c cs k step g)
          (inl (refl, NoWord-cons a c cs 0 (λ m l u. accepts-absent a c cs g (take m cs))))
    | inr (e, g) ↦ elim (Option-cases e.value) [
      | inl v ↦
          rw (scan-leaf a c cs k step e g v)
            (single-Found a c cs k step e g (λ m l u. leaf-prefix a c e g v m cs l u))
      | inr (b, v) ↦ rw (scan-child a c cs k step e b g v) (
          below-Found a c cs k step e b _ g v
            (scan-Found b cs (suc k) (if e.is_terminal then suc k else step)))
    ]
  ]
