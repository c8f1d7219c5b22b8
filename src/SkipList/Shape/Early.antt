-- ===== src/SkipList/Shape/Early.antt =====
-- The search that returns early: what it returns lies on the list, and if it returns nothing, its
-- test does not hold at the place.
use mathlib.Core.List.{append_assoc}
use mathlib.Core.Path.{subst}
use skynet_slg.Prelude.{
  ℕ, zero, suc, ◌+◌, ◌-◌, ◌^◌, ◌<◌, ◌≡◌, ◌⊎◌, inl, inr, refl, sym, ap, ◌∙◌, arith, List, [], ◌∷◌,
  ◌++◌, length, length-append, Option, none, some, Bool, true, false, Bool-cases,
}
use skynet_slg.Prelude.Bytes.{All}
use skynet_slg.SkipList.{SkipList, header, walk}
use skynet_slg.SkipList.Links.{IsLow, IsLinked, IsLinked-rest}
use skynet_slg.SkipList.Walk.{Goes, Stops, walk-Walked}
use skynet_slg.SkipList.Walk.Descend.{Goes-from}
use skynet_slg.SkipList.Query.{find_level}
use skynet_slg.SkipList.Shape.{IsShaped, heights}
use skynet_slg.SkipList.Shape.First.{back-empty, same-rest}

module _ {S : Type 0} (sl : SkipList S) (go test : ℕ → ℕ → Bool) where
  abbrev walks : ℕ → ℕ → ℕ → Option (ℕ × ℕ)
  walks i x r = walk (2 ^ 64) sl.levels go (suc sl.length) i x r

  find_level-return :
      (i x r x' r' : ℕ)
      → walks i x r ≡ some (x', r')
      → test x' r' ≡ true
      → find_level sl go test (suc i) x r ≡ some (some (x', r'))
  unfolding find_level
  find_level-return i x r x' r' run yes_here = rw (find_level, run, yes_here) refl

  find_level-below :
      (i x r x' r' : ℕ)
      → walks i x r ≡ some (x', r')
      → test x' r' ≡ false
      → find_level sl go test (suc i) x r ≡ find_level sl go test i x' r'
  unfolding find_level
  find_level-below i x r x' r' run no_here = rw (find_level, run, no_here) refl

  -- Level 0 is the last.
  ends :
      (x r x' r' : ℕ)
      → walks 0 x r ≡ some (x', r')
      → test x' r' ≡ false
      → find_level sl go test 1 x r ≡ some none
  unfolding find_level
  ends x r x' r' run no_here = find_level-below 0 x r x' r' run no_here

  module _ (front zs : List ℕ) (s : IsShaped sl (front ++ zs))
      (stops : Stops go (length front) zs) where
    -- A place on the list.
    abbrev pub Place : List ℕ → ℕ → List ℕ → Type 0
    Place pre x rest = header ∷ front ≡ pre ++ (x ∷ rest)

    abbrev pub Returned : Option (Option (ℕ × ℕ)) → Type 0
    Returned run =
        ((pre : List ℕ) × (x : ℕ) × (rest : List ℕ) × Place pre x rest
          × (test x (length pre) ≡ true)
          × (run ≡ some (some (x, length pre))))
        ⊎ ((pre : List ℕ) × (x : ℕ) × Place pre x []
            × (test x (length pre) ≡ false)
            × (run ≡ some none))

    level_walk :
        (i x : ℕ) (pre rest : List ℕ)
        → i < sl.level
        → Place pre x rest
        → i < heights sl x
        → Goes go (length pre) rest
        → (pre' : List ℕ) × (x' : ℕ) × (rest' : List ℕ) × Place pre' x' rest'
          × (walks i x (length pre) ≡ some (x', length pre'))
          × (i < heights sl x')
          × All (IsLow (heights sl) i) rest'
          × Goes go (length pre') rest'
    level_walk i x pre rest below split high goes =
        let total : suc (length front) ≡ length pre + suc (length rest) =
          ap length split ∙ length-append pre (x ∷ rest) in
        let size = length-append front zs in
        let whole : header ∷ (front ++ zs) ≡ pre ++ (x ∷ (rest ++ zs)) =
          ap (λ l. l ++ zs) split ∙ append_assoc pre (x ∷ rest) zs in
        let (us, x', vs, here, run, high', low) =
          walk-Walked (2 ^ 64) sl.levels go (heights sl) i zs (suc sl.length) x (length pre) rest
            (omega (arith, total, size, s.count)) (omega (arith, total, size, s.small)) high
            (IsLinked-rest sl.levels (heights sl) i pre (x ∷ (rest ++ zs))
              (subst (IsLinked sl.levels (heights sl) i) whole (s.linked i below)))
            goes (subst (λ (r : ℕ). Stops go r zs) (omega (arith, total)) stops) in
        let at : length pre + length us ≡ length (pre ++ us) = sym (length-append pre us) in
        (
          pre ++ us,
          x',
          vs,
          split ∙ ap (λ l. pre ++ l) here ∙ sym (append_assoc pre us (x' ∷ vs)),
          run ∙ ap (λ (r : ℕ). some (x', r)) at,
          high',
          low,
          Goes-from go (length pre) (length (pre ++ us)) x x' rest us vs here (sym at) goes,
        )

    pub find_level-Returned :
        (i x : ℕ) (pre rest : List ℕ)
        → i < sl.level
        → Place pre x rest
        → i < heights sl x
        → Goes go (length pre) rest
        → Returned (find_level sl go test (suc i) x (length pre))
    find_level-Returned zero x pre rest below split high goes =
        let (pre', x', rest', split', run, high', low, goes') =
          level_walk 0 x pre rest below split high goes in
        let nothing : rest' ≡ [] =
          back-empty sl rest' low (same-rest sl front zs s pre' x' rest' split') in
        elim (Bool-cases (test x' (length pre'))) [
          | inl e ↦ inl (
            pre',
            x',
            rest',
            split',
            e,
            find_level-return 0 x (length pre) x' (length pre') run e,
          )
          | inr e ↦ inr (
            pre',
            x',
            split' ∙ ap (λ l. pre' ++ (x' ∷ l)) nothing,
            e,
            ends x (length pre) x' (length pre') run e,
          )
        ]
    find_level-Returned (suc i) x pre rest below split high goes =
        let (pre', x', rest', split', run, high', low, goes') =
          level_walk (suc i) x pre rest below split high goes in
        let later =
          find_level-Returned i x' pre' rest' (omega (arith, below)) split' (omega (arith, high'))
            goes' in
        elim (Bool-cases (test x' (length pre'))) [
          | inl e ↦ inl (
            pre',
            x',
            rest',
            split',
            e,
            find_level-return (suc i) x (length pre) x' (length pre') run e,
          )
          | inr e ↦
              subst Returned (sym (find_level-below (suc i) x (length pre) x' (length pre') run e))
                later
        ]

    -- The whole loop, from the header.
    pub early : Goes go 0 front → Returned (find_level sl go test sl.level header 0)
    early goes =
        let same : suc (sl.level - 1) ≡ sl.level = omega (arith, s.some_level) in
        subst (λ (n : ℕ). Returned (find_level sl go test n header 0)) same
          (find_level-Returned (sl.level - 1) header [] front (omega (arith, same)) refl
            (omega (arith, same, s.top, s.max_level)) goes)
