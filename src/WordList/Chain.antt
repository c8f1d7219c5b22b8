-- ===== src/WordList/Chain.antt =====
-- The chains of crab.c: which words they hold, and that the first match is a longest one.
use mathlib.Core.List.{Memᴰ}
use mathlib.Core.List.Memᴰ.{head, tail, cases_cons, not-nil}
use native.Mathlib.Decide.{dec_lt}
use skynet_slg.Prelude.{
  ℕ, ◌+◌, ◌<◌, le→ltb, lt→ltb, ◌≤◌, ◌≡◌, ◌⊎◌, inl, inr, refl, sym, ◌∙◌, arith, List, [], ◌∷◌,
  length, true, false, leb, none, some, Bool-cases,
}
use skynet_slg.WordList.{add_to_chain, starts_with, first_match}

-- No word is longer than the one before it.
pub data IsDescending : List (List ℕ) → Type 0 where
  nil : IsDescending []
  cons :
      {w : List ℕ} {chain : List (List ℕ)}
      → ((v : List ℕ) → Memᴰ v chain → length v ≤ length w)
      → IsDescending chain
      → IsDescending (w ∷ chain)

module _ (word : List ℕ) where
  add_behind :
      (node : List ℕ) (chain : List (List ℕ))
      → leb (length word) (length node) ≡ true
      → add_to_chain word (node ∷ chain) ≡ node ∷ add_to_chain word chain
  unfolding add_to_chain
  add_behind node chain e = rw e

  add_before :
      (node : List ℕ) (chain : List (List ℕ))
      → leb (length word) (length node) ≡ false
      → add_to_chain word (node ∷ chain) ≡ word ∷ node ∷ chain
  unfolding add_to_chain
  add_before node chain e = rw e

  pub added_or_old :
      (v : List ℕ) (chain : List (List ℕ))
      → Memᴰ v (add_to_chain word chain)
      → (v ≡ word) ⊎ Memᴰ v chain
  added_or_old v [] m = unfold add_to_chain in cases_cons m
  added_or_old v (node ∷ chain) m = elim (Bool-cases (leb (length word) (length node))) [
    | inl e ↦ elim (cases_cons (rw (add_behind node chain e) at m)) [
      | inl same ↦ inr (head same)
      | inr later ↦ elim (added_or_old v chain later) [
        | inl same ↦ inl same
        | inr old ↦ inr (tail old)
      ]
    ]
    | inr e ↦ cases_cons (rw (add_before node chain e) at m)
  ]

  pub added : (chain : List (List ℕ)) → Memᴰ word (add_to_chain word chain)
  added [] = unfold add_to_chain in head refl
  added (node ∷ chain) = elim (Bool-cases (leb (length word) (length node))) [
    | inl e ↦ rw (add_behind node chain e) (tail (added chain))
    | inr e ↦ rw (add_before node chain e) (head refl)
  ]

  pub still_there :
      {v : List ℕ} (chain : List (List ℕ)) → Memᴰ v chain → Memᴰ v (add_to_chain word chain)
  still_there [] m = absurd (not-nil m)
  still_there (node ∷ chain) m = elim (Bool-cases (leb (length word) (length node))) [
    | inl e ↦
        rw (add_behind node chain e) (elim (cases_cons m) [
          | inl same ↦ head same
          | inr later ↦ tail (still_there chain later)
        ])
    | inr e ↦ rw (add_before node chain e) (tail m)
  ]

  pub add_to_chain-IsDescending :
      {chain : List (List ℕ)} → IsDescending chain → IsDescending (add_to_chain word chain)
  add_to_chain-IsDescending nil = unfold add_to_chain in cons (λ v m. absurd (not-nil m)) nil
  add_to_chain-IsDescending (cons {w = node} {chain = chain} below d) =
      elim (Bool-cases (leb (length word) (length node))) [
        | inl e ↦ rw (add_behind node chain e) (
            cons {w = node}
              (λ v m. elim (added_or_old v chain m) [
                | inl same ↦ rw same (ground arith)
                | inr old ↦ below v old
              ])
              (add_to_chain-IsDescending d))
        | inr e ↦
            let shorter : length node ≤ length word = ground arith in
            rw (add_before node chain e) (
              cons {w = word} {chain = node ∷ chain}
                (λ v m. elim (cases_cons m) [
                  | inl same ↦ rw same shorter
                  | inr old ↦ omega (arith, shorter, below v old)
                ])
                (cons below d))
      ]

-- `w` is in the chain, the message starts with it, and with no longer word of the chain.
pub record IsBest (msg : List ℕ) (chain : List (List ℕ)) (w : List ℕ) : Type 0 where
  pub listed : Memᴰ w chain
  pub starts : starts_with msg w ≡ true
  pub longest : (v : List ℕ) → Memᴰ v chain → starts_with msg v ≡ true → length v ≤ length w

-- How first_match ends: it compares a word that is longer than the block, or finds none, or a best
-- one.
abbrev pub Answers : ℕ → List ℕ → List (List ℕ) → Type 0
Answers room msg chain =
    ((first_match room msg chain ≡ none)
      × ((v : List ℕ) × Memᴰ v chain × (length msg + 1 + room < length v)))
    ⊎ (((first_match room msg chain ≡ some none)
          × ((v : List ℕ) → Memᴰ v chain → starts_with msg v ≡ false))
        ⊎ ((w : List ℕ) × (first_match room msg chain ≡ some (some w)) × IsBest msg chain w))

module _ (room : ℕ) (msg w : List ℕ) (chain : List (List ℕ)) where
  match_beyond : length msg + 1 + room < length w → first_match room msg (w ∷ chain) ≡ none
  unfolding first_match
  match_beyond long = rw (lt→ltb (length msg + 1 + room) (length w) long)

  module _ (fits : length w ≤ length msg + 1 + room) where
    match_here : starts_with msg w ≡ true → first_match room msg (w ∷ chain) ≡ some (some w)
    unfolding first_match
    match_here e = rw (le→ltb (length msg + 1 + room) (length w) fits, e)

    match_later :
        starts_with msg w ≡ false → first_match room msg (w ∷ chain) ≡ first_match room msg chain
    unfolding first_match
    match_later e = rw (le→ltb (length msg + 1 + room) (length w) fits, e)

pub first_match-Answers :
    (room : ℕ) (msg : List ℕ) {chain : List (List ℕ)} → IsDescending chain → Answers room msg chain
first_match-Answers room msg nil = inr (inl (unfold first_match in refl, λ v m. absurd (not-nil m)))
first_match-Answers room msg (cons {w} {chain} below d) =
    elim (dec_lt (length msg + 1 + room) (length w)) [
      | yes long ↦ inl (match_beyond room msg w chain long, (w, head refl, long))
      | no short ↦
          let fits : length w ≤ length msg + 1 + room = omega arith in
          elim (Bool-cases (starts_with msg w)) [
            | inl e ↦ inr (
                inr (
                  w,
                  match_here room msg w chain fits e,
                  record {
                    listed = head refl;
                    starts = e;
                    longest = λ v m s. elim (cases_cons m) [
                      | inl same ↦ rw same (omega arith)
                      | inr later ↦ below v later
                    ];
                  },
                ))
            | inr e ↦
                later_answers e (match_later room msg w chain fits e)
                  (first_match-Answers room msg d)
          ]
    ]
  where
    later_answers :
        starts_with msg w ≡ false
        → first_match room msg (w ∷ chain) ≡ first_match room msg chain
        → Answers room msg chain
        → Answers room msg (w ∷ chain)
    later_answers e step (inl (over, (v, m, long))) = inl (step ∙ over, (v, tail m, long))
    later_answers e step (inr (inl (not_found, others))) = inr (
        inl (
          step ∙ not_found,
          λ v m. elim (cases_cons m) [ inl same ↦ rw same e | inr later ↦ others v later ],
        ))
    later_answers e step (inr (inr (best, found, b))) = inr (
        inr (
          best,
          step ∙ found,
          record {
            listed = tail b.listed;
            starts = b.starts;
            longest = λ v m s. elim (cases_cons m) [
              | inl same ↦ let no_start : starts_with msg w ≡ true = rw (sym same) s in cc
              | inr later ↦ b.longest v later s
            ];
          },
        ))
