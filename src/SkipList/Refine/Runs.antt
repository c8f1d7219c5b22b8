-- ===== src/SkipList/Refine/Runs.antt =====
-- Runs of the operations that a script makes on one list, from a new list on.
use skynet_slg.SkipList.Refine.Levels.{sl_random_level-bounds}
use native.Mathlib.Decide.{dec_lt}
use skynet_slg.Prelude.{
  lt→ltb, le→ltb, ℕ, suc, ◌+◌, ◌-◌, ◌^◌, ◌≤◌, ◌<◌, ◌≡◌, refl, arith, List, [], ◌∷◌, ◌++◌, length,
  length-append, length-take, length-drop, take, drop, Bool, Option, none, some, if◌then◌else◌, ltb,
}
use skynet_slg.Prelude.Bytes.{All}
use skynet_slg.SkipList.{SkipList, sl_create, sl_random_level}
use skynet_slg.SkipList.Key.{Score, Entry}
use skynet_slg.SkipList.Script.{insert, delete, delete_by_rank}
use skynet_slg.SkipList.Change.{sl_insert, sl_delete}
use skynet_slg.SkipList.Sorted.{insert_sorted, remove_first, is_in}
use skynet_slg.SkipList.Refine.{
  Represents, sl_create-Represents, sl_insert-Represents, sl_delete-Represents,
}
use skynet_slg.SkipList.Refine.ByRank.{delete_by_rank-Represents}

module _ (S : Type 0) where
  -- An operation of a script; the numbers of an insertion are what random() gives.
  pub data Op : Type 0 where
    insert_op : List ℕ → S → List ℕ → Op
    delete_op : S → List ℕ → Op
    by_rank_op : ℕ → ℕ → Op

  -- What it gives back.
  pub data Answer : Type 0 where
    inserted : Answer
    deleted : Bool → Answer
    removed : List (Entry S) → Answer

module _ {S : Type 0} ⦃o : Score S⦄ where
  unfoldable pub run_op : SkipList S → Op S → Option (SkipList S × Answer S)
  run_op sl (Op.insert_op randoms score obj) = elim (insert sl randoms score obj) [
    | none ↦ none
    | some sl' ↦ some (sl', Answer.inserted)
  ]
  run_op sl (Op.delete_op score obj) = elim (delete sl score obj) [
    | none ↦ none
    | some (sl', found) ↦ some (sl', Answer.deleted found)
  ]
  run_op sl (Op.by_rank_op start end) = elim (delete_by_rank sl start end) [
    | none ↦ none
    | some (sl', gone) ↦ some (sl', Answer.removed gone)
  ]

  -- The same on the sorted list; `low` and `high` are the ranks in their order.
  abbrev pub without_ranks : List (Entry S) → ℕ → ℕ → List (Entry S) × Answer S
  without_ranks es low high = (
    take (low - 1) es ++ drop (high - (low - 1)) (drop (low - 1) es),
    Answer.removed (take (high - (low - 1)) (drop (low - 1) es)),
  )

  unfoldable pub sorted_op : List (Entry S) → Op S → List (Entry S) × Answer S
  sorted_op es (Op.insert_op randoms score obj) =
      (insert_sorted (record { score = score; obj = obj }) es, Answer.inserted)
  sorted_op es (Op.delete_op score obj) =
      let e : Entry S = record { score = score; obj = obj } in
      (remove_first e es, Answer.deleted (is_in e es))
  sorted_op es (Op.by_rank_op start end) =
      if ltb end start then without_ranks es end start else without_ranks es start end

  unfoldable pub run_ops : SkipList S → List (Op S) → Option (SkipList S × List (Answer S))
  run_ops sl [] = some (sl, [])
  run_ops sl (op ∷ ops) = elim (run_op sl op) [
    | none ↦ none
    | some (sl1, answer) ↦ elim (run_ops sl1 ops) [
      | none ↦ none
      | some (sl2, answers) ↦ some (sl2, answer ∷ answers)
    ]
  ]

  unfoldable pub sorted_ops : List (Entry S) → List (Op S) → List (Entry S) × List (Answer S)
  sorted_ops es [] = (es, [])
  sorted_ops es (op ∷ ops) =
      let (es1, answer) = sorted_op es op in
      let (es2, answers) = sorted_ops es1 ops in (es2, answer ∷ answers)

  -- The loop of slRandomLevel ends, and the ranks are those of an unsigned int.
  abbrev pub IsFine : Op S → Type 0
  IsFine (Op.insert_op randoms score obj) = (level : ℕ) × (sl_random_level randoms ≡ some level)
  IsFine (Op.delete_op score obj) = Unit
  IsFine (Op.by_rank_op start end) = (start < 2 ^ 32) × (end < 2 ^ 32)

  run_op-insert :
      (sl sl' : SkipList S) (randoms : List ℕ) (score : S) (obj : List ℕ) (level : ℕ)
      → sl_random_level randoms ≡ some level
      → sl_insert sl level (record { score = score; obj = obj }) ≡ some sl'
      → run_op sl (Op.insert_op randoms score obj) ≡ some (sl', Answer.inserted)
  unfolding run_op insert
  run_op-insert sl sl' randoms score obj level e run = rw (run_op, insert, e, run) refl

  run_op-delete :
      (sl sl' : SkipList S) (score : S) (obj : List ℕ) (found : Bool)
      → sl_delete sl (record { score = score; obj = obj }) ≡ some (sl', found)
      → run_op sl (Op.delete_op score obj) ≡ some (sl', Answer.deleted found)
  unfolding run_op delete
  run_op-delete sl sl' score obj found run = rw (run_op, delete, run) refl

  run_op-by_rank :
      (sl sl' : SkipList S) (start end : ℕ) (gone : List (Entry S))
      → delete_by_rank sl start end ≡ some (sl', gone)
      → run_op sl (Op.by_rank_op start end) ≡ some (sl', Answer.removed gone)
  unfolding run_op
  run_op-by_rank sl sl' start end gone run = rw (run_op, run) refl

  length-insert_sorted :
      (e : Entry S) (es : List (Entry S)) → length (insert_sorted e es) ≡ suc (length es)
  unfolding insert_sorted
  length-insert_sorted e [] = omega arith
  length-insert_sorted e (a ∷ es) = ground (arith, length-insert_sorted e es)

  length-remove_first : (e : Entry S) (es : List (Entry S)) → length (remove_first e es) ≤ length es
  unfolding remove_first
  length-remove_first e [] = omega arith
  length-remove_first e (a ∷ es) = ground (arith, length-remove_first e es)

  -- One operation.
  abbrev Step : SkipList S → List (Entry S) → Op S → Type 0
  Step sl es op =
      (sl' : SkipList S) × (run_op sl op ≡ some (sl', (sorted_op es op).1))
      × Represents sl' (sorted_op es op).0
      × (length (sorted_op es op).0 ≤ suc (length es))

  length-without_ranks :
      (es : List (Entry S)) (low high : ℕ) → length (without_ranks es low high).0 ≤ suc (length es)
  length-without_ranks es low high = omega (
    arith,
    length-append (take (low - 1) es) (drop (high - (low - 1)) (drop (low - 1) es)),
    length-take (low - 1) es,
    length-drop (high - (low - 1)) (drop (low - 1) es),
    length-drop (low - 1) es,
  )

  by_rank-Step :
      (sl : SkipList S) (es : List (Entry S)) (start end : ℕ)
      → Represents sl es
      → start < 2 ^ 32
      → end < 2 ^ 32
      → Step sl es (Op.by_rank_op start end)
  unfolding sorted_op
  by_rank-Step sl es start end r small small' = elim (dec_lt end start) [
    | yes less ↦
        let (sl', run, swapped, after) =
          delete_by_rank-Represents sl es end start r (omega (arith, less)) small in
        rw (sorted_op, lt→ltb end start less)
          (sl', run_op-by_rank sl sl' start end _ swapped, after, length-without_ranks es end start)
    | no not_less ↦
        let le : start ≤ end = omega (arith, not_less) in
        let (sl', run, swapped, after) = delete_by_rank-Represents sl es start end r le small' in
        rw (sorted_op, le→ltb end start le)
          (sl', run_op-by_rank sl sl' start end _ run, after, length-without_ranks es start end)
  ]

  run_op-Step :
      (sl : SkipList S) (es : List (Entry S)) (op : Op S)
      → Represents sl es
      → IsFine op
      → length es + 2 < 2 ^ 32
      → Step sl es op
  unfolding sorted_op
  run_op-Step sl es (Op.insert_op randoms score obj) r (level, e) room =
      let (low, high) = sl_random_level-bounds randoms level e in
      let (sl', run, after) =
        sl_insert-Represents sl es level (record { score = score; obj = obj }) r low high room in
      (
        sl',
        run_op-insert sl sl' randoms score obj level e run,
        after,
        omega (arith, length-insert_sorted (record { score = score; obj = obj }) es),
      )
  run_op-Step sl es (Op.delete_op score obj) r fine room =
      let (sl', run, after) = sl_delete-Represents sl es (record { score = score; obj = obj }) r in
      (
        sl',
        run_op-delete sl sl' score obj (is_in (record { score = score; obj = obj }) es) run,
        after,
        omega (arith, length-remove_first (record { score = score; obj = obj }) es),
      )
  run_op-Step sl es (Op.by_rank_op start end) r fine room =
      by_rank-Step sl es start end r fine.0 fine.1

  run_ops-cons :
      (sl sl1 sl2 : SkipList S) (op : Op S) (ops : List (Op S)) (answer : Answer S)
      (answers : List (Answer S))
      → run_op sl op ≡ some (sl1, answer)
      → run_ops sl1 ops ≡ some (sl2, answers)
      → run_ops sl (op ∷ ops) ≡ some (sl2, answer ∷ answers)
  unfolding run_ops
  run_ops-cons sl sl1 sl2 op ops answer answers first rest = rw (run_ops, first, rest) refl

  -- A run from any list that stands for a sorted list.
  pub run_ops-Represents :
      (sl : SkipList S) (es : List (Entry S)) (ops : List (Op S))
      → Represents sl es
      → All IsFine ops
      → length es + length ops + 1 < 2 ^ 32
      → (sl' : SkipList S) × (run_ops sl ops ≡ some (sl', (sorted_ops es ops).1))
        × Represents sl' (sorted_ops es ops).0
  unfolding sorted_ops
  run_ops-Represents sl es [] r fine room = (sl, unfold run_ops in refl, r)
  run_ops-Represents sl es (op ∷ ops) r fine room =
      let (sl1, step, r1, size) = run_op-Step sl es op r fine.0 (omega (arith, room)) in
      let (sl2, rest, r2) =
        run_ops-Represents sl1 (sorted_op es op).0 ops r1 fine.1 (omega (arith, room, size)) in
      (
        sl2,
        run_ops-cons sl sl1 sl2 op ops (sorted_op es op).1 (sorted_ops (sorted_op es op).0 ops).1
            step rest,
        r2,
      )

  -- From a new list on, every run of insertions, deletions and deletions by rank ends, gives the
  -- answers that the sorted list gives, and leaves memory that has the invariant and stands for the
  -- sorted list. It has fewer than 2^32 - 1 operations, the loop of slRandomLevel ends at each
  -- insertion, and its ranks are below 2^32.
  pub new_list-Represents :
      (zero_score : S) (ops : List (Op S))
      → All IsFine ops
      → length ops + 1 < 2 ^ 32
      → (sl' : SkipList S) × (run_ops (sl_create zero_score) ops
          ≡ some (sl', (sorted_ops [] ops).1))
        × Represents sl' (sorted_ops [] ops).0
  new_list-Represents zero_score ops fine room =
      run_ops-Represents (sl_create zero_score) [] ops (sl_create-Represents zero_score) fine
        (omega (arith, room))
