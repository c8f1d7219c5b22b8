-- ===== src/SkipList/Links.antt =====
-- What the links of one level are, of a list of addresses: `h` gives the height of each node.
use skynet_slg.Prelude.{
  ℕ, suc, ◌+◌, ◌≤◌, ◌<◌, ◌≡◌, refl, sym, ap, ◌∙◌, arith, List, [], ◌∷◌, ◌++◌, length, ltb, lt→ltb,
  le→ltb, if◌then◌else◌, none, some,
}
use native.Mathlib.Decide.{dec_lt}
use skynet_slg.Prelude.Bytes.{All}
use skynet_slg.SkipList.{Level, Levels, null_level}

-- The link of a node at level `i`, to the nodes that come after it: the next one that has that
-- level, and how far it is; without one, NULL and how many nodes there are.
unfoldable pub links : (ℕ → ℕ) → ℕ → List ℕ → Level
links h i [] = null_level
links h i (a ∷ rest) =
    let l = links h i rest in
    if ltb i (h a) then record { forward = some a; span = 1 } else record l { span = suc l.span }

-- Every node of the list that has level `i` has the right link there.
unfoldable pub IsLinked : Levels → (ℕ → ℕ) → ℕ → List ℕ → Type 0
IsLinked levels h i [] = Unit
IsLinked levels h i (a ∷ rest) = (i < h a → levels a i ≡ links h i rest) × IsLinked levels h i rest

-- Nodes without level `i`.
abbrev pub IsLow : (ℕ → ℕ) → ℕ → ℕ → Type 0
IsLow h i a = h a ≤ i

abbrev pub lift : ℕ → Level → Level
lift k l = record l { span = l.span + k }

pub Level-ext : {a b : Level} → a.forward ≡ b.forward → a.span ≡ b.span → a ≡ b
Level-ext p q = λ i. record { forward = p i; span = q i }

module _ (h : ℕ → ℕ) (i : ℕ) where
  pub links-high :
      (a : ℕ) (rest : List ℕ)
      → i < h a
      → links h i (a ∷ rest) ≡ record { forward = some a; span = 1 }
  unfolding links
  links-high a rest p = rw (lt→ltb i (h a) p)

  pub links-low : (a : ℕ) (rest : List ℕ) → h a ≤ i → links h i (a ∷ rest) ≡ lift 1 (links h i rest)
  unfolding links
  links-low a rest p = rw (le→ltb i (h a) p) (Level-ext refl (omega arith))

  pub links-append :
      (vs ws : List ℕ) → All (IsLow h i) vs → links h i (vs ++ ws) ≡ lift (length vs) (links h i ws)
  links-append [] ws low = Level-ext refl (omega arith)
  links-append (v ∷ vs) ws low =
      links-low v (vs ++ ws) low.0 ∙ rw (links-append vs ws low.1) (Level-ext refl (omega arith))

  -- The link that ends at a node that has the level.
  pub links-to :
      (vs : List ℕ) (a : ℕ) (ws : List ℕ)
      → All (IsLow h i) vs
      → i < h a
      → links h i (vs ++ (a ∷ ws)) ≡ record { forward = some a; span = suc (length vs) }
  links-to vs a ws low p =
      links-append vs (a ∷ ws) low ∙ rw (links-high a ws p) (Level-ext refl (omega arith))

  -- The target of a link is on the list, and has the level.
  pub links-forward :
      (ws : List ℕ) (a : ℕ)
      → (links h i ws).forward ≡ some a
      → (us : List ℕ) × (vs : List ℕ) × (ws ≡ us ++ (a ∷ vs)) × All (IsLow h i) us × (i < h a)
  links-forward [] a e = let never : none ≡ some a = unfold links in e in cc
  links-forward (w ∷ ws) a e = elim (dec_lt i (h w)) [
    | yes high ↦
        let found : some w ≡ some a = rw (links-high w ws high) at e in
        let same : w ≡ a = cc in ([], ws, rw same refl, tt, rw (sym same) high)
    | no not_high ↦
        let lower : h w ≤ i = omega arith in
        let later : (links h i ws).forward ≡ some a = rw (links-low w ws lower) at e in
        let (us, vs, split, low, high) = links-forward ws a later in
        (w ∷ us, vs, ap (λ l. w ∷ l) split, (lower, low), high)
  ]

  -- A link to nothing passes only nodes without the level.
  pub links-none :
      (ws : List ℕ)
      → (links h i ws).forward ≡ none
      → All (IsLow h i) ws × ((links h i ws).span ≡ length ws)
  links-none [] e = (tt, unfold links in refl)
  links-none (w ∷ ws) e = elim (dec_lt i (h w)) [
    | yes high ↦ let never : some w ≡ none = rw (links-high w ws high) at e in cc
    | no not_high ↦
        let lower : h w ≤ i = omega arith in
        let later : (links h i ws).forward ≡ none = rw (links-low w ws lower) at e in
        let (low, spans) = links-none ws later in
        ((lower, low), ap (λ l. l.span) (links-low w ws lower) ∙ omega (arith, spans))
  ]

  pub links-all_low :
      (ws : List ℕ)
      → All (IsLow h i) ws
      → links h i ws ≡ record { forward = none; span = length ws }
  links-all_low [] low = unfold links in refl
  links-all_low (w ∷ ws) low =
      links-low w ws low.0 ∙ rw (links-all_low ws low.1) (Level-ext refl (omega arith))

-- Up to a node that has the level, links do not depend on what comes behind it.
module _ (levels : Levels) (h : ℕ → ℕ) (i : ℕ) where
  pub IsLinked-low :
      (vs ws : List ℕ)
      → All (IsLow h i) vs
      → IsLinked levels h i ws
      → IsLinked levels h i (vs ++ ws)
  unfolding IsLinked
  IsLinked-low [] ws low l = l
  IsLinked-low (v ∷ vs) ws low l =
      ((λ high. absurd (omega (arith, high, low.0))), IsLinked-low vs ws low.1 l)

  pub IsLinked-first :
      (a : ℕ) (rest : List ℕ)
      → IsLinked levels h i (a ∷ rest)
      → i < h a
      → levels a i ≡ links h i rest
  unfolding IsLinked
  IsLinked-first a rest l high = l.0 high

  pub IsLinked-rest : (us ws : List ℕ) → IsLinked levels h i (us ++ ws) → IsLinked levels h i ws
  unfolding IsLinked
  IsLinked-rest [] ws l = l
  IsLinked-rest (u ∷ us) ws l = IsLinked-rest us ws l.1

module _ (levels levels' : Levels) (h h' : ℕ → ℕ) (i : ℕ) where
  -- The level `i` of a node is the same in both memories.
  abbrev pub Agree : ℕ → Type 0
  Agree a = (h' a ≡ h a) × (levels' a i ≡ levels a i)

  pub links-Agree : (ws : List ℕ) → All Agree ws → links h' i ws ≡ links h i ws
  unfolding links
  links-Agree [] g = refl
  links-Agree (w ∷ ws) g = rw (g.0.0, links-Agree ws g.1)

  pub IsLinked-agree :
      (ws : List ℕ) → All Agree ws → IsLinked levels h i ws → IsLinked levels' h' i ws
  unfolding IsLinked
  IsLinked-agree [] g l = tt
  IsLinked-agree (w ∷ ws) g l = (
    (λ high. g.0.1 ∙ l.0 (rw (sym g.0.0) high) ∙ sym (links-Agree ws g.1)),
    IsLinked-agree ws g.1 l.1,
  )

  links-front :
      (us : List ℕ) (u : ℕ) (ws ws' : List ℕ)
      → All Agree us
      → h' u ≡ h u
      → i < h u
      → links h' i (us ++ (u ∷ ws')) ≡ links h i (us ++ (u ∷ ws))
  unfolding links
  links-front [] u ws ws' g e high =
      links-high h' i u ws' (rw e high) ∙ sym (links-high h i u ws high)
  links-front (a ∷ us) u ws ws' g e high = rw (g.0.0, links-front us u ws ws' g.1 e high)

  -- Behind a node that has the level the list may change.
  pub IsLinked-relink :
      (us : List ℕ) (u : ℕ) (ws ws' : List ℕ)
      → All Agree us
      → h' u ≡ h u
      → i < h u
      → levels' u i ≡ links h' i ws'
      → IsLinked levels h i (us ++ (u ∷ ws))
      → IsLinked levels' h' i ws'
      → IsLinked levels' h' i (us ++ (u ∷ ws'))
  unfolding IsLinked
  IsLinked-relink [] u ws ws' g e high link l l' = ((λ p. link), l')
  IsLinked-relink (a ∷ us) u ws ws' g e high link l l' = (
    (λ p. g.0.1 ∙ l.0 (rw (sym g.0.0) p) ∙ sym (links-front us u ws ws' g.1 e high)),
    IsLinked-relink us u ws ws' g.1 e high link l.1 l',
  )

pub IsLinked-same :
    (levels levels' : Levels) (h : ℕ → ℕ) (i : ℕ) (ws : List ℕ)
    → ((a : ℕ) → levels' a i ≡ levels a i)
    → IsLinked levels h i ws
    → IsLinked levels' h i ws
unfolding IsLinked
IsLinked-same levels levels' h i [] same l = tt
IsLinked-same levels levels' h i (w ∷ ws) same l =
    ((λ high. same w ∙ l.0 high), IsLinked-same levels levels' h i ws same l.1)

pub IsLinked-cons :
    (levels : Levels) (h : ℕ → ℕ) (i a : ℕ) (rest : List ℕ)
    → (i < h a → levels a i ≡ links h i rest)
    → IsLinked levels h i rest
    → IsLinked levels h i (a ∷ rest)
unfolding IsLinked
IsLinked-cons levels h i a rest link l = (link, l)
