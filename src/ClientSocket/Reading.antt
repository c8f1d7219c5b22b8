-- ===== src/ClientSocket/Reading.antt =====
-- read_n, and what goes wrong in it.
use skynet_slg.Prelude.{
  ℕ, zero, suc, ◌+◌, ◌-◌, ◌<◌, ◌≡◌, refl, ap, ◌∙◌, arith, List, [], ◌∷◌, ◌++◌, drop, length,
  replicate,
}
use skynet_slg.ClientSocket.{
  Received, stored, read_again, read_failed, read_waiting, overwrite, filled, fill_waiting,
  read_n_loop, read_n,
}

no_bytes_left : (answers : List Received) (s : List ℕ) → read_n_loop answers 0 s ≡ filled s
unfolding read_n_loop
no_bytes_left [] s = refl
no_bytes_left (stored b ∷ answers) s = refl
no_bytes_left (read_again ∷ answers) s = refl
no_bytes_left (read_failed e ∷ answers) s = refl

stored_round :
    (n : ℕ) (bytes s : List ℕ) (answers : List Received)
    → 0 < n
    → read_n_loop (stored bytes ∷ answers) n s
      ≡ read_n_loop answers (n - length bytes) (overwrite s bytes)
unfolding read_n_loop
stored_round zero bytes s answers h = absurd (omega arith)
stored_round (suc n) bytes s answers h = refl

left_over :
    (n m : ℕ) (s : List ℕ) (answers : List Received)
    → n ≡ m
    → read_n_loop answers n s ≡ read_n_loop answers m s
left_over n m s answers e = ap (λ (k : ℕ). read_n_loop answers k s) e

-- When the bytes that read_n wants come in two reads, the second overwrites the start of what the
-- first stored: the loop fills the array of n bytes with the second part, then the end of the first
-- or of the array as it was found.
pub read_n_split :
    (first second s : List ℕ) (answers : List Received)
    → 0 < length second
    → length s ≡ length first + length second
    → read_n_loop (stored first ∷ stored second ∷ answers) (length s) s
      ≡ filled (second ++ drop (length second) (first ++ drop (length first) s))
read_n_split first second s answers q size =
    let n = length first + length second in
    let s1 = overwrite s first in
    left_over (length s) n s (stored first ∷ stored second ∷ answers) size
    ∙ stored_round n first s (stored second ∷ answers) (omega arith)
    ∙ left_over (n - length first) (length second) s1 (stored second ∷ answers) (omega arith)
    ∙ stored_round (length second) second s1 answers q
    ∙ left_over (length second - length second) 0 (overwrite s1 second) answers (omega arith)
    ∙ no_bytes_left answers (overwrite s1 second)

-- At the end of the stream read stores nothing, and read_n calls it again without end.
pub read_n_eof :
    (k n : ℕ) (s : List ℕ) → 0 < n → read_n (replicate k (stored [])) n s ≡ read_waiting
unfolding read_n
read_n_eof k n s p = rw (eof_loop k n s p, read_n)
  where
    eof_loop :
        (k n : ℕ) (s : List ℕ) → 0 < n → read_n_loop (replicate k (stored [])) n s ≡ fill_waiting
    eof_loop zero zero s p = absurd (omega arith)
    eof_loop zero (suc n) s p = unfold read_n_loop in refl
    eof_loop (suc k) n s p =
        stored_round n [] s (replicate k (stored [])) p
        ∙ left_over (n - 0) n s (replicate k (stored [])) (omega arith)
        ∙ eof_loop k n s p
