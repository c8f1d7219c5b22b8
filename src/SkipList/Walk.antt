-- ===== src/SkipList/Walk.antt =====
-- Where a search leaves the levels, when its test holds of the nodes up to some place and of none
-- after it.
pub mod Descend
use mathlib.Core.List.{append_assoc}
use mathlib.Core.Path.{subst}
use native.Mathlib.Decide.{dec_lt}
use native.Mathlib.Nat.{mod-eq_of_lt}
use skynet_slg.Prelude.{
  ℕ, zero, suc, ◌+◌, ◌*◌, ◌%◌, ◌^◌, ◌≤◌, ◌<◌, ◌≡◌, ◌≢◌, ◌⊎◌, inl, inr, refl, sym, ap, ◌∙◌, arith,
  List, [], ◌∷◌, ◌++◌, length, length-append, Bool, true, false, ltb, if◌then◌else◌, Option, none,
  some, Option-cases, ◌==◌, ==_iff, ==-eq_false,
}
use skynet_slg.Prelude.Bytes.{All}
use skynet_slg.SkipList.{Level, Levels, null_level, walk, descend, Trail, set_trail}
use skynet_slg.SkipList.Links.{
  links, IsLinked, IsLow, lift, links-append, links-to, links-forward, IsLinked-rest,
  IsLinked-first,
}

module _ (go : ℕ → ℕ → Bool) where
  -- The test holds of each of the nodes, where the one before the first has rank `p`.
  abbrev pub Goes : ℕ → List ℕ → Type 0
  Goes p [] = Unit
  Goes p (a ∷ rest) = (go a (suc p) ≡ true) × Goes (suc p) rest

  abbrev pub Stops : ℕ → List ℕ → Type 0
  Stops p [] = Unit
  Stops p (a ∷ rest) = (go a (suc p) ≡ false) × Stops (suc p) rest

  pub Goes-at :
      (p q : ℕ) (us : List ℕ) (a : ℕ) (vs : List ℕ)
      → Goes p (us ++ (a ∷ vs))
      → q ≡ suc (p + length us)
      → (go a q ≡ true) × Goes q vs
  Goes-at p q [] a vs g e = let same : q ≡ suc p = omega (arith, e) in rw same (g.0, g.1)
  Goes-at p q (u ∷ us) a vs g e = Goes-at (suc p) q us a vs g.1 (omega (arith, e))

  Stops-at :
      (p q : ℕ) (us : List ℕ) (a : ℕ) (vs : List ℕ)
      → Stops p (us ++ (a ∷ vs))
      → q ≡ suc (p + length us)
      → go a q ≡ false
  Stops-at p q [] a vs s e = let same : q ≡ suc p = omega (arith, e) in rw same s.0
  Stops-at p q (u ∷ us) a vs s e = Stops-at (suc p) q us a vs s.1 (omega (arith, e))

-- A level was left at this node with this rank: it is on the list, has the level, and no later node
-- on the list has it.
pub record IsAt (h : ℕ → ℕ) (i : ℕ) (first : List ℕ) (at : ℕ × ℕ) : Type 0 where
  pub front : List ℕ
  pub back : List ℕ
  pub split : first ≡ front ++ (at.0 ∷ back)
  pub rank : at.1 ≡ length front
  pub high : i < h at.0
  pub low : All (IsLow h i) back

module _ (h : ℕ → ℕ) (i : ℕ) where
  first_high :
      (ys : List ℕ)
      → All (IsLow h i) ys
        ⊎ ((us : List ℕ) × (a : ℕ) × (vs : List ℕ) × (ys ≡ us ++ (a ∷ vs))
            × All (IsLow h i) us
            × (i < h a))
  first_high [] = inl tt
  first_high (y ∷ ys) = elim (dec_lt i (h y)) [
    | yes high ↦ inr ([], y, ys, refl, tt, high)
    | no not_high ↦ elim (first_high ys) [
      | inl low ↦ inl (omega arith, low)
      | inr (us, a, vs, split, low, high) ↦
          inr (y ∷ us, a, vs, ap (λ l. y ∷ l) split, (omega arith, low), high)
    ]
  ]

module _ (w : ℕ) (levels : Levels) (go : ℕ → ℕ → Bool) (i x p fuel : ℕ) where
  walk-null : (levels x i).forward ≡ none → walk w levels go (suc fuel) i x p ≡ some (x, p)
  unfolding walk
  walk-null e = rw (walk, e)

  module _ (f s : ℕ) (link : levels x i ≡ record { forward = some f; span = s })
      (small : p + s < w) where
    here_rank : (p + s) % w ≡ p + s
    here_rank = mod-eq_of_lt small

    walk-stop : go f (p + s) ≡ false → walk w levels go (suc fuel) i x p ≡ some (x, p)
    unfolding walk
    walk-stop e = rw (walk, ap (λ l. l.forward) link, ap (λ l. l.span) link, here_rank, e)

    walk-go :
        go f (p + s) ≡ true → walk w levels go (suc fuel) i x p ≡ walk w levels go fuel i f (p + s)
    unfolding walk
    walk-go e = rw (walk, ap (λ l. l.forward) link, ap (λ l. l.span) link, here_rank, e)

-- What a walk from `x`, with the nodes `ys` ahead of which the test holds, ends with.
abbrev pub Walked : (ℕ → ℕ) → ℕ → ℕ → ℕ → List ℕ → Option (ℕ × ℕ) → Type 0
Walked h i x p ys run =
    (us : List ℕ) × (x' : ℕ) × (vs : List ℕ) × (x ∷ ys ≡ us ++ (x' ∷ vs))
    × (run ≡ some (x', p + length us))
    × (i < h x')
    × All (IsLow h i) vs

module _ (w : ℕ) (levels : Levels) (go : ℕ → ℕ → Bool) (h : ℕ → ℕ) (i : ℕ) (zs : List ℕ) where
  -- No node up to the place has the level: the link leads behind it, or nowhere.
  walk-last :
      (fuel x p : ℕ) (ys : List ℕ)
      → p + length ys + length zs < w
      → i < h x
      → levels x i ≡ links h i (ys ++ zs)
      → All (IsLow h i) ys
      → Stops go (p + length ys) zs
      → Walked h i x p ys (walk w levels go (suc fuel) i x p)
  walk-last fuel x p ys small high link low stops =
      let here : walk w levels go (suc fuel) i x p ≡ some (x, p) = stays in
      ([], x, ys, refl, here ∙ ap (λ (r : ℕ). some (x, r)) (omega arith), high, low)
    where
      link' : levels x i ≡ lift (length ys) (links h i zs)
      link' = link ∙ links-append h i ys zs low

      stays : walk w levels go (suc fuel) i x p ≡ some (x, p)
      stays = elim (Option-cases (links h i zs).forward) [
        | inl e ↦ walk-null w levels go i x p fuel (ap (λ l. l.forward) link' ∙ e)
        | inr (f, e) ↦
            let (us, vs, split, lower, higher) = links-forward h i zs f e in
            let to : links h i zs ≡ record { forward = some f; span = suc (length us) } =
              ap (links h i) split ∙ links-to h i us f vs lower higher in
            let total : length zs ≡ length us + suc (length vs) =
              ap length split ∙ length-append us (f ∷ vs) in
            let s : ℕ = suc (length us) + length ys in
            walk-stop w levels go i x p fuel f s (link' ∙ ap (lift (length ys)) to)
              (omega (arith, total))
              (Stops-at go (p + length ys) (p + s) us f vs
                (subst (Stops go (p + length ys)) split stops) (omega arith))
      ]

  pub walk-Walked :
      (fuel x p : ℕ) (ys : List ℕ)
      → length ys < fuel
      → p + length ys + length zs < w
      → i < h x
      → IsLinked levels h i (x ∷ (ys ++ zs))
      → Goes go p ys
      → Stops go (p + length ys) zs
      → Walked h i x p ys (walk w levels go fuel i x p)
  walk-Walked zero x p ys enough small high linked goes stops = absurd (omega arith)
  walk-Walked (suc fuel) x p ys enough small high linked goes stops = elim (first_high h i ys) [
    | inl low ↦
        walk-last fuel x p ys small high (IsLinked-first levels h i x (ys ++ zs) linked high) low
          stops
    | inr (us, a, vs, split, low, higher) ↦
        let total : length ys ≡ length us + suc (length vs) =
          ap length split ∙ length-append us (a ∷ vs) in
        let q : ℕ = p + suc (length us) in
        let whole : ys ++ zs ≡ us ++ (a ∷ (vs ++ zs)) =
          ap (λ l. l ++ zs) split ∙ append_assoc us (a ∷ vs) zs in
        let (yes_here, later) =
          Goes-at go p q us a vs (subst (Goes go p) split goes) (omega arith) in
        let link : levels x i ≡ record { forward = some a; span = suc (length us) } =
          IsLinked-first levels h i x (ys ++ zs) linked high
          ∙ ap (links h i) whole
          ∙ links-to h i us a (vs ++ zs) low higher in
        let linked' : IsLinked levels h i (a ∷ (vs ++ zs)) =
          IsLinked-rest levels h i us (a ∷ (vs ++ zs)) (
            subst (IsLinked levels h i) whole
              (IsLinked-rest levels h i (x ∷ []) (ys ++ zs) linked)) in
        let same : q + length vs ≡ p + length ys = omega (arith, total) in
        let (us', x', vs', split', run, high', low') =
          walk-Walked fuel a q vs (omega (arith, total)) (omega (arith, total)) higher linked' later
            (subst (λ (r : ℕ). Stops go r zs) (sym same) stops) in
        (
          (x ∷ us) ++ us',
          x',
          vs',
          ap (λ l. x ∷ l) split
              ∙ ap (λ l. (x ∷ us) ++ l) split'
              ∙ sym (append_assoc (x ∷ us) us' (x' ∷ vs')),
          walk-go w levels go i x p fuel a (suc (length us)) link (omega (arith, total)) yes_here
              ∙ run
              ∙ ap (λ (r : ℕ). some (x', r)) (omega (arith, length-append (x ∷ us) us')),
          high',
          low',
        )
  ]
