-- ===== src/SkipList/Walk/Descend.antt =====
-- The levels of a search one after the other.
use mathlib.Core.List.{append_assoc}
use mathlib.Core.Path.{subst}
use native.Mathlib.Decide.{dec_lt}
use skynet_slg.Prelude.{
  ℕ, zero, suc, ◌+◌, ◌≤◌, ◌<◌, ◌≡◌, ◌≢◌, refl, sym, ap, ◌∙◌, arith, List, [], ◌∷◌, ◌++◌, length,
  length-append, Bool, some, ==_iff, ==-eq_false,
}
use skynet_slg.SkipList.{Levels, walk, descend, Trail, set_trail}
use skynet_slg.SkipList.Links.{IsLinked, IsLinked-rest}
use skynet_slg.SkipList.Walk.{Goes, Stops, Goes-at, IsAt, walk-Walked}

same-tail : {x y : ℕ} {xs ys : List ℕ} → x ∷ xs ≡ y ∷ ys → xs ≡ ys
same-tail e = cc

module _ (go : ℕ → ℕ → Bool) where
  pub Goes-from :
      (p q : ℕ) (x x' : ℕ) (rest us vs : List ℕ)
      → x ∷ rest ≡ us ++ (x' ∷ vs)
      → q ≡ p + length us
      → Goes go p rest
      → Goes go q vs
  Goes-from p q x x' rest [] vs e r g =
      let same : q ≡ p = omega (arith, r) in rw same (subst (Goes go p) (same-tail e) g)
  Goes-from p q x x' rest (u ∷ us) vs e r g =
      (Goes-at go p q us x' vs (subst (Goes go p) (same-tail e) g) (omega (arith, r))).1

-- What a search of `n` levels from `start` leaves, over the nodes `first` of which its test holds.
pub record Searched (h : ℕ → ℕ) (first : List ℕ) (n : ℕ) (start : ℕ × ℕ) (before after : Trail)
    (end : ℕ × ℕ) : Type 0 where
  pub found : (i : ℕ) → i < n → IsAt h i first (after i)
  pub kept : (i : ℕ) → n ≤ i → after i ≡ before i
  pub last : 0 < n → after 0 ≡ end
  pub none_left : n ≡ 0 → end ≡ start

set_trail_self : (t : Trail) (i : ℕ) (v : ℕ × ℕ) → set_trail t i v i ≡ v
unfolding set_trail
set_trail_self t i v = rw ((==_iff i i).1 refl)

set_trail-other : (t : Trail) (i j : ℕ) (v : ℕ × ℕ) → j ≢ i → set_trail t i v j ≡ t j
unfolding set_trail
set_trail-other t i j v ne = rw (==-eq_false j i ne)

Searched-step :
    {h : ℕ → ℕ} {first : List ℕ} (i : ℕ) (start v : ℕ × ℕ) {before after : Trail} {end : ℕ × ℕ}
    → IsAt h i first v
    → Searched h first i v (set_trail before i v) after end
    → Searched h first (suc i) start before after end
Searched-step {h} {first} i start v {before} {after} {end} at s =
    let here : after i ≡ v = s.kept i (omega arith) ∙ set_trail_self before i v in
    record {
      found = λ j lt. elim (dec_lt j i) [
        | yes below ↦ s.found j below
        | no not_below ↦ let same : j ≡ i = omega arith in rw (same, here) at
      ];
      kept = λ j le. s.kept j (omega arith) ∙ set_trail-other before i j v (omega arith);
      last = λ lt. elim (dec_lt 0 i) [
        | yes some_left ↦ s.last some_left
        | no none_left ↦
            let zero_here : 0 ≡ i = omega arith in
            ap after zero_here ∙ here ∙ sym (s.none_left (sym zero_here))
      ];
      none_left = λ e. absurd (omega (arith, e));
    }

descend-step :
    (w : ℕ) (levels : Levels) (go : ℕ → ℕ → Bool) (fuel i x p x' q : ℕ) (trail : Trail)
    → walk w levels go fuel i x p ≡ some (x', q)
    → descend w levels go fuel (suc i) x p trail
      ≡ descend w levels go fuel i x' q (set_trail trail i (x', q))
unfolding descend
descend-step w levels go fuel i x p x' q trail e = rw (descend, e)

module _ (w : ℕ) (levels : Levels) (go : ℕ → ℕ → Bool) (h : ℕ → ℕ) (first zs : List ℕ) (fuel : ℕ)
    (small : length first + length zs < w) (enough : length first ≤ fuel) where
  pub descend-Searched :
      (n x p : ℕ) (trail : Trail) (pre rest : List ℕ)
      → first ≡ pre ++ (x ∷ rest)
      → p ≡ length pre
      → n ≤ h x
      → ((i : ℕ) → i < n → IsLinked levels h i (first ++ zs))
      → Goes go p rest
      → Stops go (p + length rest) zs
      → (trail' : Trail) × (x' : ℕ) × (r' : ℕ) × (descend w levels go fuel n x p trail
          ≡ some (trail', x', r'))
        × Searched h first n (x, p) trail trail' (x', r')
  descend-Searched zero x p trail pre rest split at_pre tall linked goes stops = (
    trail,
    x,
    p,
    unfold descend in refl,
    record {
      found = λ i lt. absurd (omega arith);
      kept = λ i le. refl;
      last = λ lt. absurd (omega arith);
      none_left = λ e. refl;
    },
  )
  descend-Searched (suc i) x p trail pre rest split at_pre tall linked goes stops =
      let total : length first ≡ length pre + suc (length rest) =
        ap length split ∙ length-append pre (x ∷ rest) in
      let whole : first ++ zs ≡ pre ++ (x ∷ (rest ++ zs)) =
        ap (λ l. l ++ zs) split ∙ append_assoc pre (x ∷ rest) zs in
      let from_x : IsLinked levels h i (x ∷ (rest ++ zs)) =
        IsLinked-rest levels h i pre (x ∷ (rest ++ zs))
          (subst (IsLinked levels h i) whole (linked i (omega arith))) in
      let (us, x', vs, here, run, high, low) =
        walk-Walked w levels go h i zs fuel x p rest (omega (arith, total))
          (omega (arith, total, at_pre)) (omega arith) from_x goes stops in
      let q : ℕ = p + length us in
      let split' : first ≡ (pre ++ us) ++ (x' ∷ vs) =
        split ∙ ap (λ l. pre ++ l) here ∙ sym (append_assoc pre us (x' ∷ vs)) in
      let sizes : suc (length rest) ≡ length us + suc (length vs) =
        ap length here ∙ length-append us (x' ∷ vs) in
      let rank : q ≡ length (pre ++ us) = omega (arith, at_pre, length-append pre us) in
      let same : q + length vs ≡ p + length rest = omega (arith, sizes) in
      let (trail', x'', r'', run', s) =
        descend-Searched i x' q (set_trail trail i (x', q)) (pre ++ us) vs split' rank (omega arith)
          (λ j lt. linked j (omega arith)) (Goes-from go p q x x' rest us vs here refl goes)
          (subst (λ (r : ℕ). Stops go r zs) (sym same) stops) in
      (
        trail',
        x'',
        r'',
        descend-step w levels go fuel i x p x' q trail run ∙ run',
        Searched-step i (x, p) (x', q)
            (record {
              front = pre ++ us;
              back = vs;
              split = split';
              rank = rank;
              high = high;
              low = low;
            })
            s,
      )
