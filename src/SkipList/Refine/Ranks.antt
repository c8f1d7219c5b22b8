-- ===== src/SkipList/Refine/Ranks.antt =====
-- slGetNodeByRank and slGetRank: the node of a rank, and the rank of an entry.
use mathlib.Core.Path.{subst}
use native.Mathlib.Decide.{dec_lt}
use skynet_slg.Prelude.{
  ℕ, zero, suc, ◌+◌, ◌≤◌, ◌<◌, ◌≡◌, inl, inr, refl, sym, ap, ◌∙◌, arith, List, [], ◌∷◌, ◌++◌,
  length, length-append, length-take, take, drop, take-append-drop, true, Option, none, some, leb,
  lt→ltb, le→ltb, le→leb, lt→leb, ◌==◌, ==_iff, ==-eq_false, get_elem?,
}
use skynet_slg.SkipList.{SkipList, header}
use skynet_slg.SkipList.Walk.{Goes, Stops}
use skynet_slg.SkipList.Query.{find_level, sl_get_node_by_rank}
use skynet_slg.SkipList.Shape.{IsShaped}
use skynet_slg.SkipList.Shape.Early.{early}

pub get_elem?-middle :
    {A : Type 0} (pre : List A) (x : A) (rest : List A)
    → get_elem? (pre ++ (x ∷ rest)) (length pre) ≡ some x
get_elem?-middle [] x rest = refl
get_elem?-middle (p ∷ pre) x rest = get_elem?-middle pre x rest

pub get_elem?-none : {A : Type 0} (xs : List A) (i : ℕ) → length xs ≤ i → get_elem? xs i ≡ none
get_elem?-none [] i le = refl
get_elem?-none (x ∷ xs) zero le = absurd (omega (arith, le))
get_elem?-none (x ∷ xs) (suc i) le = get_elem?-none xs i (omega (arith, le))

-- The element of a rank.
abbrev pub at_rank : {A : Type 0} → List A → ℕ → Option A
at_rank xs zero = none
at_rank xs (suc k) = get_elem? xs k

module _ (rank : ℕ) where
  upto-Goes : (p : ℕ) (ns : List ℕ) → p + length ns ≤ rank → Goes (λ a r. leb r rank) p ns
  upto-Goes p [] small = tt
  upto-Goes p (a ∷ ns) small =
      (le→leb (suc p) rank (omega (arith, small)), upto-Goes (suc p) ns (omega (arith, small)))

  upto-Stops : (p : ℕ) (ns : List ℕ) → rank ≤ p → Stops (λ a r. leb r rank) p ns
  upto-Stops p [] large = tt
  upto-Stops p (a ∷ ns) large =
      (lt→leb (suc p) rank (omega (arith, large)), upto-Stops (suc p) ns (omega (arith, large)))

module _ {S : Type 0} (sl : SkipList S) where
  node_found :
      (k : ℕ) (x r : ℕ)
      → find_level sl (λ a r. leb r (suc k)) (λ a r. r == suc k) sl.level header 0
        ≡ some (some (x, r))
      → suc k ≤ sl.length
      → sl_get_node_by_rank sl (suc k) ≡ some (some x)
  unfolding sl_get_node_by_rank
  node_found k x r run le =
      rw
        (
          sl_get_node_by_rank,
          run,
          le→ltb sl.length (suc k) le,
          ==-eq_false (suc k) 0 (λ e. absurd (omega (arith, e))),
        )
        refl

  node_in :
      (front zs : List ℕ) (k : ℕ)
      → IsShaped sl (front ++ zs)
      → length front ≡ suc k
      → sl_get_node_by_rank sl (suc k) ≡ some (get_elem? (front ++ zs) k)
  node_in front zs k s size =
      elim (early sl (λ a r. leb r (suc k)) (λ a r. r == suc k) front zs s
        (upto-Stops (suc k) (length front) zs (omega (arith, size)))
        (upto-Goes (suc k) 0 front (omega (arith, size)))) [
          | inl (pre, x, rest, split, here, run) ↦
              let at : length pre ≡ suc k = (==_iff (length pre) (suc k)).0 here in
              let found : get_elem? (header ∷ front) (suc k) ≡ some x =
                ap (λ l. get_elem? l (suc k)) split
                ∙ ap (get_elem? (pre ++ (x ∷ rest))) (sym at)
                ∙ get_elem?-middle pre x rest in
              node_found k x (length pre) run (omega (arith, s.count, length-append front zs, size))
              ∙ ap some (sym (get_elem?-front front zs k (omega (arith, size)) ∙ found))
          | inr (pre, x, split, not_here, run) ↦
              let at : length pre ≡ suc k =
                omega (arith, size, ap length split, length-append pre (x ∷ [])) in
              let here : (length pre == suc k) ≡ true = (==_iff (length pre) (suc k)).1 at in cc
        ]
    where
      get_elem?-front :
          (xs ys : List ℕ) (i : ℕ) → i < length xs → get_elem? (xs ++ ys) i ≡ get_elem? xs i
      get_elem?-front [] ys i lt = absurd (omega (arith, lt))
      get_elem?-front (x ∷ xs) ys zero lt = refl
      get_elem?-front (x ∷ xs) ys (suc i) lt = get_elem?-front xs ys i (omega (arith, lt))

  -- The node of each rank, and NULL for those that no node has.
  pub sl_get_node_by_rank-node :
      (ns : List ℕ) (rank : ℕ)
      → IsShaped sl ns
      → sl_get_node_by_rank sl rank ≡ some (at_rank ns rank)
  unfolding sl_get_node_by_rank
  sl_get_node_by_rank-node ns zero s = refl
  sl_get_node_by_rank-node ns (suc k) s = elim (dec_lt k (length ns)) [
    | yes below ↦
        let whole : take (suc k) ns ++ drop (suc k) ns ≡ ns = take-append-drop (suc k) ns in
        node_in (take (suc k) ns) (drop (suc k) ns) k (subst (IsShaped sl) (sym whole) s)
          (omega (arith, length-take (suc k) ns, below))
        ∙ ap (λ l. some (get_elem? l k)) whole
    | no not_below ↦
        rw
          (
            sl_get_node_by_rank,
            lt→ltb sl.length (suc k) (omega (arith, s.count, not_below)),
            ==-eq_false (suc k) 0 (λ e. absurd (omega (arith, e))),
          )
          (ap some (sym (get_elem?-none ns k (omega (arith, not_below)))))
  ]
