-- ===== src/Des/Block/Feistel.antt =====
-- Running a block again under the schedule read backwards gives the block back.
use skynet_slg.Prelude.{ℕ, zero, suc, ◌+◌, ◌*◌, ◌≡◌, refl, ap, ◌∙◌, arith}
use skynet_slg.Prelude.{List, ◌++◌, get_or, length, bit_xor}
use skynet_slg.Prelude.Bytes.{IsByte, IsBytes, All-append}
use skynet_slg.Prelude.Bits.{xor_assoc, xor_comm, xor_cancel}
use skynet_slg.Des.Block.{
  Halves, halves, flip, get_uint32, put_uint32, des_ip, des_fp, even_boxes, odd_boxes, des_round,
  round_pair, round_pairs, des_crypt,
}
use skynet_slg.Des.Block.Words.{
  get_uint32-IsWord, put_uint32-IsBytes, get-put_fst, get-put_snd, put-get, des_round-IsWord,
}
use skynet_slg.Des.Block.Permutation.{IsWords, des_ip-IsWords, des_fp-IsWords, fp-ip, ip-fp}

-- Two schedules agree on the two words that a round uses.
abbrev SameRound : List ℕ → ℕ → List ℕ → ℕ → Type 0
SameRound sk i sk' j =
    (get_or sk i 0 ≡ get_or sk' j 0) × (get_or sk (i + 1) 0 ≡ get_or sk' (j + 1) 0)

-- `dk` holds the 16 pairs of words of `sk`, the last pair first.
abbrev pub Reverses : List ℕ → List ℕ → Type 0
Reverses sk dk = (k l : ℕ) → k + l ≡ 15 → SameRound sk (2 * k) dk (2 * l)

xor_four : (y a b : ℕ) → bit_xor (bit_xor (bit_xor (bit_xor y a) b) a) b ≡ y
xor_four y a b =
    rw
      (
        xor_assoc (bit_xor (bit_xor y a) b) a b,
        xor_comm a b,
        ← xor_assoc (bit_xor (bit_xor y a) b) b a,
        xor_cancel (bit_xor y a) b,
        xor_cancel y a,
      )
      refl

round_twice :
    (sk dk : List ℕ) (i j x y : ℕ) → SameRound sk i dk j → des_round dk j x (des_round sk i x y) ≡ y
unfolding des_round even_boxes odd_boxes
round_twice sk dk i j x y e = rw (e.0, e.1) (xor_four y _ _)

pair_undone :
    (sk dk : List ℕ) (i j : ℕ) (w : Halves)
    → SameRound sk i dk (j + 2)
    → SameRound sk (i + 2) dk j
    → round_pair dk j (flip (round_pair sk i w)) ≡ flip w
unfolding round_pair
pair_undone sk dk i j w a b =
    rw (round_twice sk dk (i + 2) j _ w.y b, round_twice sk dk i (j + 2) w.y w.x a) refl

round_pairs-snoc :
    (sk : List ℕ) (n i : ℕ) (w : Halves)
    → round_pairs sk (suc n) i w ≡ round_pair sk (i + 4 * n) (round_pairs sk n i w)
unfolding round_pairs
round_pairs-snoc sk zero i w = ap (λ (k : ℕ). round_pair sk k w) (omega arith)
round_pairs-snoc sk (suc n) i w =
    round_pairs-snoc sk n (i + 4) (round_pair sk i w)
    ∙ ap (λ (k : ℕ). round_pair sk k (round_pairs sk n (i + 4) (round_pair sk i w))) (omega arith)

SameRound-at :
    (sk dk : List ℕ) (k l i j : ℕ)
    → i ≡ 2 * k
    → j ≡ 2 * l
    → SameRound sk (2 * k) dk (2 * l)
    → SameRound sk i dk j
SameRound-at sk dk k l i j p q h = rw (p, q) h

module _ (sk dk : List ℕ) (rev : Reverses sk dk) where
  -- `n` lines from word 4a on are undone by as many lines from word 4b on.
  pairs_undone :
      (n a b : ℕ) (w : Halves)
      → a + n + b ≡ 8
      → round_pairs dk n (4 * b) (flip (round_pairs sk n (4 * a) w)) ≡ flip w
  pairs_undone zero a b w e = unfold round_pairs in refl
  pairs_undone (suc n) a b w e =
      let w' = round_pair sk (4 * a) w in
      round_pairs-snoc dk n (4 * b) (flip (round_pairs sk (suc n) (4 * a) w))
      ∙ ap (λ u. round_pair dk (4 * b + 4 * n) u) (step ∙ pairs_undone n (a + 1) b w' (omega arith))
      ∙ pair_undone sk dk (4 * a) (4 * b + 4 * n) w
          (SameRound-at sk dk (2 * a) (2 * b + 2 * n + 1) _ _ (omega arith) (omega arith)
            (rev _ _ (omega arith)))
          (SameRound-at sk dk (2 * a + 1) (2 * b + 2 * n) _ _ (omega arith) (omega arith)
            (rev _ _ (omega arith)))
    where
      step :
          round_pairs dk n (4 * b) (flip (round_pairs sk (suc n) (4 * a) w))
          ≡ round_pairs dk n
              (4 * b)
              (flip (round_pairs sk n (4 * (a + 1)) (round_pair sk (4 * a) w)))
      step =
          unfold round_pairs in
          ap
            (λ (k : ℕ).
              round_pairs dk n (4 * b) (flip (round_pairs sk n k (round_pair sk (4 * a) w))))
            (omega arith)

round_pair-IsWords : (sk : List ℕ) (i : ℕ) (w : Halves) → IsWords w → IsWords (round_pair sk i w)
unfolding round_pair
round_pair-IsWords sk i w h = (des_round-IsWord sk i _ _ h.0, des_round-IsWord sk (i + 2) _ _ h.1)

round_pairs-IsWords :
    (sk : List ℕ) (n i : ℕ) (w : Halves) → IsWords w → IsWords (round_pairs sk n i w)
unfolding round_pairs
round_pairs-IsWords sk zero i w h = h
round_pairs-IsWords sk (suc n) i w h =
    round_pairs-IsWords sk n (i + 4) (round_pair sk i w) (round_pair-IsWords sk i w h)

pub des_crypt-IsBytes : (sk bs : List ℕ) → IsBytes (des_crypt sk bs)
unfolding des_crypt
des_crypt-IsBytes sk bs =
    All-append IsByte (put_uint32 _) (put_uint32 _) (put_uint32-IsBytes _) (put_uint32-IsBytes _)

pub length-des_crypt : (sk bs : List ℕ) → length (des_crypt sk bs) ≡ 8
unfolding des_crypt put_uint32
length-des_crypt sk bs = refl

-- The halves of a block after its permutation.
entry : List ℕ → Halves
entry bs = des_ip (halves (get_uint32 bs 0) (get_uint32 bs 4))

exit : Halves → List ℕ
exit w = put_uint32 (des_fp w).x ++ put_uint32 (des_fp w).y

entry-IsWords : (bs : List ℕ) → IsBytes bs → IsWords (entry bs)
unfolding entry
entry-IsWords bs h = des_ip-IsWords _ (get_uint32-IsWord bs h 0, get_uint32-IsWord bs h 4)

entry-exit : (w : Halves) → IsWords w → entry (exit w) ≡ w
unfolding entry exit
entry-exit w h =
    let v = des_fp-IsWords w h in
    rw (get-put_fst (des_fp w).x (des_fp w).y v.0, get-put_snd (des_fp w).x (des_fp w).y v.1)
      (ip-fp w h)

exit-entry : (bs : List ℕ) → IsBytes bs → length bs ≡ 8 → exit (entry bs) ≡ bs
unfolding entry exit
exit-entry bs h n =
    rw
      (fp-ip (halves (get_uint32 bs 0) (get_uint32 bs 4))
        (get_uint32-IsWord bs h 0, get_uint32-IsWord bs h 4))
      (put-get bs h n)

crypt_parts : (sk bs : List ℕ) → des_crypt sk bs ≡ exit (flip (round_pairs sk 8 0 (entry bs)))
unfolding des_crypt entry exit
crypt_parts sk bs = refl

-- The block cipher under the reversed schedule undoes the cipher.
pub crypt_undone :
    (sk dk bs : List ℕ)
    → Reverses sk dk
    → IsBytes bs
    → length bs ≡ 8
    → des_crypt dk (des_crypt sk bs) ≡ bs
crypt_undone sk dk bs rev h n =
    let w = entry bs in
    let v = round_pairs-IsWords sk 8 0 w (entry-IsWords bs h) in
    crypt_parts dk (des_crypt sk bs)
    ∙ ap (λ e. exit (flip (round_pairs dk 8 0 e)))
        (ap entry (crypt_parts sk bs) ∙ entry-exit _ (v.1, v.0))
    ∙ ap (λ e. exit (flip e)) (pairs_undone sk dk rev 8 0 0 w (omega arith))
    ∙ exit-entry bs h n
