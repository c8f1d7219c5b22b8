-- ===== src/SkipList/Refine/ScoreLoop.antt =====
-- The loop of _get_score_range along the `backward` pointers.
use mathlib.Core.List.{append_assoc, reverse, reverse-append}
use mathlib.Core.Path.{subst}
use skynet_slg.Prelude.{
  ℕ, zero, suc, ◌<◌, ◌≡◌, refl, sym, ap, ◌∙◌, arith, List, [], ◌∷◌, ◌++◌, length, length-append,
  true, false, ◌||◌, Bool-cases, inl, inr, Option, none, some,
}
use skynet_slg.Prelude.Bytes.{All}
use skynet_slg.SkipList.{SkipList}
use skynet_slg.SkipList.Key.{Score, Entry}
use skynet_slg.SkipList.Change.{entry_at}
use skynet_slg.SkipList.Script.{score_loop}
use skynet_slg.SkipList.Shape.{IsBacked, entries}
use skynet_slg.SkipList.Shape.Maps.{map-append}
use skynet_slg.SkipList.Shape.Chain.{last_of}
use skynet_slg.SkipList.Sorted.{IsSorted, NotBefore}
use skynet_slg.SkipList.Refine.Ranges.{last_or_nil, last_of-last, back_is}
use skynet_slg.SkipList.Refine.Scores.{scored, NotBefore-score, scored-all_low}

module _ {S : Type 0} ⦃o : Score S⦄ where
  pub scored-append :
      (min max : S) (us ws : List (Entry S))
      → scored min max (us ++ ws) ≡ scored min max us ++ scored min max ws
  unfolding scored
  scored-append min max [] ws = refl
  scored-append min max (u ∷ us) ws = elim (Bool-cases (o.less u.score min || o.less max u.score)) [
    | inl p ↦ rw (scored, p) (scored-append min max us ws)
    | inr p ↦ rw (scored, p) (ap (λ l. u.obj ∷ l) (scored-append min max us ws))
  ]

  pub scored-one :
      (min max : S) (e : Entry S)
      → o.less e.score min ≡ false
      → o.less max e.score ≡ false
      → scored min max (e ∷ []) ≡ e.obj ∷ []
  unfolding scored
  scored-one min max e p q = rw (p, q) refl

  -- In front of an entry below the range all are below it.
  pub low_before :
      (min : S) (us : List (Entry S)) (e : Entry S)
      → IsSorted (us ++ (e ∷ []))
      → o.less e.score min ≡ true
      → All (λ b. o.less b.score min ≡ true) (us ++ (e ∷ []))
  low_before min [] e sorted low = (low, tt)
  low_before min (u ∷ us) e sorted low =
      let here : o.less u.score min ≡ true =
        ground (arith, o.less_or e.score min u.score low, NotBefore-score u e (last us sorted.0)) in
      (here, low_before min us e sorted.1 low)
    where
      last : (vs : List (Entry S)) → All (NotBefore u) (vs ++ (e ∷ [])) → NotBefore u e
      last [] g = g.0
      last (v ∷ vs) g = last vs g.1

  pub loop_stop :
      (sl : SkipList S) (min : S) (fuel x : ℕ)
      → o.less (sl.nodes x).score min ≡ true
      → score_loop sl true min (suc fuel) (some x) ≡ some []
  unfolding score_loop
  loop_stop sl min fuel x p = rw p refl

  pub loop_step :
      (sl : SkipList S) (min : S) (fuel x : ℕ) (prev : Option ℕ) (found : List (List ℕ))
      → o.less (sl.nodes x).score min ≡ false
      → (sl.nodes x).backward ≡ prev
      → score_loop sl true min fuel prev ≡ some found
      → score_loop sl true min (suc fuel) (some x) ≡ some ((entry_at sl.nodes x).obj ∷ found)
  unfolding score_loop
  loop_step sl min fuel x prev found p back run = rw (p, back, run) refl

  pub loop_end :
      (sl : SkipList S) (min : S) (fuel : ℕ) → score_loop sl true min (suc fuel) none ≡ some []
  unfolding score_loop
  loop_end sl min fuel = refl

  pub left : (P : Entry S → Type 0) (us ws : List (Entry S)) → All P (us ++ ws) → All P us
  left P [] ws g = tt
  left P (u ∷ us) ws g = (g.0, left P us ws g.1)

  pub IsSorted-left : (us ws : List (Entry S)) → IsSorted (us ++ ws) → IsSorted us
  IsSorted-left [] ws g = tt
  IsSorted-left (u ∷ us) ws g = (left (NotBefore u) us ws g.0, IsSorted-left us ws g.1)

  pub last_top :
      (max : S) (us : List (Entry S)) (e : Entry S)
      → All (λ b. o.less max b.score ≡ false) (us ++ (e ∷ []))
      → o.less max e.score ≡ false
  last_top max [] e g = g.0
  last_top max (u ∷ us) e g = last_top max us e g.1

  pub score_loop-back :
      (sl : SkipList S) (min max : S) (fuel : ℕ) (us zs : List ℕ)
      → IsBacked sl.nodes none (us ++ zs) sl.tail
      → IsSorted (entries sl us)
      → All (λ e. o.less max e.score ≡ false) (entries sl us)
      → length us < fuel
      → score_loop sl true min fuel (last_of none us)
        ≡ some (reverse (scored min max (entries sl us)))
  unfolding entry_at
  score_loop-back sl min max zero us zs b sorted g enough = absurd (omega (arith, enough))
  score_loop-back sl min max (suc fuel) us zs b sorted g enough = elim (last_or_nil us) [
    | inl e ↦ rw e (loop_end sl min fuel ∙ unfold scored in refl)
    | inr (vs, x, e) ↦
        let parts : entries sl us ≡ entries sl vs ++ (entry_at sl.nodes x ∷ []) =
          ap (entries sl) e ∙ map-append (entry_at sl.nodes) vs (x ∷ []) in
        let sorted' : IsSorted (entries sl vs ++ (entry_at sl.nodes x ∷ [])) =
          subst IsSorted parts sorted in
        let top = subst (All (λ a. o.less max a.score ≡ false)) parts g in
        let whole : us ++ zs ≡ vs ++ (x ∷ zs) = ap (λ l. l ++ zs) e ∙ append_assoc vs (x ∷ []) zs in
        let b' : IsBacked sl.nodes none (vs ++ (x ∷ zs)) sl.tail =
          subst (λ l. IsBacked sl.nodes none l sl.tail) whole b in
        let at_x : last_of none us ≡ some x = ap (last_of none) e ∙ last_of-last none vs x in
        let turned : o.less (entry_at sl.nodes x).score min ≡ false
            → reverse (scored min max (entries sl us))
              ≡ (entry_at sl.nodes x).obj ∷ reverse (scored min max (entries sl vs)) =
          λ p.
            ap (λ l. reverse (scored min max l)) parts
            ∙ ap reverse (
                scored-append min max (entries sl vs) (entry_at sl.nodes x ∷ [])
                ∙ ap (λ l. scored min max (entries sl vs) ++ l)
                    (scored-one min max (entry_at sl.nodes x) p
                      (last_top max (entries sl vs) (entry_at sl.nodes x) top)))
            ∙ reverse-append (scored min max (entries sl vs)) ((entry_at sl.nodes x).obj ∷ []) in
        let before_x =
          score_loop-back sl min max fuel vs (x ∷ zs) b'
            (IsSorted-left (entries sl vs) (entry_at sl.nodes x ∷ []) sorted')
            (left (λ a. o.less max a.score ≡ false) (entries sl vs) (entry_at sl.nodes x ∷ []) top)
            (omega (arith, enough, ap length e, length-append vs (x ∷ []))) in
        ap (score_loop sl true min (suc fuel)) at_x
        ∙ elim (Bool-cases (o.less (entry_at sl.nodes x).score min)) [
          | inl p ↦
              loop_stop sl min fuel x p
              ∙ ap (λ l. some (reverse l))
                  (sym (
                    ap (scored min max) parts
                    ∙ scored-all_low min max (entries sl vs ++ (entry_at sl.nodes x ∷ []))
                        (low_before min (entries sl vs) (entry_at sl.nodes x) sorted' p)))
          | inr p ↦
              loop_step sl min fuel x (last_of none vs) (reverse (scored min max (entries sl vs))) p
                (back_is sl.nodes none vs x zs sl.tail b') before_x
              ∙ ap some (sym (turned p))
        ]
  ]
