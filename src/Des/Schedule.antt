-- ===== src/Des/Schedule.antt =====
-- The key schedule of src_encrypt/lauxlib.c: des_main_ks, and the reversal of it that ldesdecode
-- makes.
use skynet_slg.Prelude.{ℕ, zero, suc, ◌+◌, ◌-◌, ◌*◌, ◌<◌, ◌≡◌, refl, sym, ap, ◌∙◌, arith}
use skynet_slg.Prelude.{List, [], ◌∷◌, get_or, length, ◌||◌, ltb, ◌==◌, if◌then◌else◌}
use skynet_slg.Prelude.{bit_and, bit_or}
use skynet_slg.Prelude.Word.{shl32, shr}
use skynet_slg.Des.Tables.{lhs, rhs}
use skynet_slg.Des.Block.{Halves, halves, exchange_y, get_uint32}
use skynet_slg.Des.Block.Feistel.{Reverses}

-- `a | b | c | ...`, from the left.
abbrev or_all : ℕ → List ℕ → ℕ
or_all acc [] = acc
or_all acc (x ∷ xs) = or_all (bit_or acc x) xs

-- A table at the four bits of `v` from bit `k`, shifted left by `s`.
unfoldable pub nibble : List ℕ → ℕ → ℕ → ℕ → ℕ
nibble table v k s = shl32 (get_or table (bit_and (shr v k) 0xf) 0) s

-- `(v << k) & m` and `(v >> k) & m`.
abbrev left : ℕ → ℕ → ℕ → ℕ
left v k m = bit_and (shl32 v k) m

abbrev right : ℕ → ℕ → ℕ → ℕ
right v k m = bit_and (shr v k) m

-- Permuted Choice 1.
unfoldable pub choose_key : List ℕ → Halves
unfolding exchange_y get_uint32 nibble
choose_key key =
    let w = exchange_y 4 0x0f0f0f0f (halves (get_uint32 key 0) (get_uint32 key 4)) in
    let v = exchange_y 0 0x10101010 w in
    let x = or_all (nibble lhs v.x 0 3) (
      nibble lhs v.x 8 2
      ∷ nibble lhs v.x 16 1
      ∷ nibble lhs v.x 24 0
      ∷ nibble lhs v.x 5 7
      ∷ nibble lhs v.x 13 6
      ∷ nibble lhs v.x 21 5
      ∷ nibble lhs v.x 29 4
      ∷ []) in
    let y = or_all (nibble rhs v.y 1 3) (
      nibble rhs v.y 9 2
      ∷ nibble rhs v.y 17 1
      ∷ nibble rhs v.y 25 0
      ∷ nibble rhs v.y 4 7
      ∷ nibble rhs v.y 12 6
      ∷ nibble rhs v.y 20 5
      ∷ nibble rhs v.y 28 4
      ∷ []) in
    halves (bit_and x 0x0fffffff) (bit_and y 0x0fffffff)

-- `((v << k) | (v >> (28 - k))) & 0x0FFFFFFF`.
unfoldable pub rotate28 : ℕ → ℕ → ℕ
rotate28 v k = bit_and (bit_or (shl32 v k) (shr v (28 - k))) 0x0fffffff

-- The rotation at the head of round `i`.
unfoldable pub rotate_halves : ℕ → Halves → Halves
unfolding rotate28
rotate_halves i w =
    let k : ℕ = if ltb i 2 || (i == 8) || (i == 15) then 1 else 2 in
    halves (rotate28 w.x k) (rotate28 w.y k)

-- The two words that one round of the schedule stores.
unfoldable pub first_subkey : Halves → ℕ
first_subkey w = or_all (left w.x 4 0x24000000) (
    left w.x 28 0x10000000
    ∷ left w.x 14 0x08000000
    ∷ left w.x 18 0x02080000
    ∷ left w.x 6 0x01000000
    ∷ left w.x 9 0x00200000
    ∷ right w.x 1 0x00100000
    ∷ left w.x 10 0x00040000
    ∷ left w.x 2 0x00020000
    ∷ right w.x 10 0x00010000
    ∷ right w.y 13 0x00002000
    ∷ right w.y 4 0x00001000
    ∷ left w.y 6 0x00000800
    ∷ right w.y 1 0x00000400
    ∷ right w.y 14 0x00000200
    ∷ bit_and w.y 0x00000100
    ∷ right w.y 5 0x00000020
    ∷ right w.y 10 0x00000010
    ∷ right w.y 3 0x00000008
    ∷ right w.y 18 0x00000004
    ∷ right w.y 26 0x00000002
    ∷ right w.y 24 0x00000001
    ∷ [])

unfoldable pub second_subkey : Halves → ℕ
second_subkey w = or_all (left w.x 15 0x20000000) (
    left w.x 17 0x10000000
    ∷ left w.x 10 0x08000000
    ∷ left w.x 22 0x04000000
    ∷ right w.x 2 0x02000000
    ∷ left w.x 1 0x01000000
    ∷ left w.x 16 0x00200000
    ∷ left w.x 11 0x00100000
    ∷ left w.x 3 0x00080000
    ∷ right w.x 6 0x00040000
    ∷ left w.x 15 0x00020000
    ∷ right w.x 4 0x00010000
    ∷ right w.y 2 0x00002000
    ∷ left w.y 8 0x00001000
    ∷ right w.y 14 0x00000808
    ∷ right w.y 9 0x00000400
    ∷ bit_and w.y 0x00000200
    ∷ left w.y 7 0x00000100
    ∷ right w.y 7 0x00000020
    ∷ right w.y 3 0x00000011
    ∷ left w.y 2 0x00000004
    ∷ right w.y 21 0x00000002
    ∷ [])

-- The loop over the rounds: `n` of them are left, and the next is number `i`.
unfoldable pub subkeys : ℕ → ℕ → Halves → List ℕ
unfolding rotate_halves first_subkey second_subkey
subkeys zero i w = []
subkeys (suc n) i w =
    let v = rotate_halves i w in first_subkey v ∷ second_subkey v ∷ subkeys n (i + 1) v

-- The 32 words of the schedule SK.
unfoldable pub des_main_ks : List ℕ → List ℕ
unfolding choose_key subkeys
des_main_ks key = subkeys 16 0 (choose_key key)

-- `SK[i] = ESK[30 - i]; SK[i + 1] = ESK[31 - i];`, with `n` rounds left.
unfoldable pub reverse_schedule : ℕ → ℕ → List ℕ → List ℕ
reverse_schedule zero i esk = []
reverse_schedule (suc n) i esk =
    get_or esk (30 - i) 0 ∷ get_or esk (31 - i) 0 ∷ reverse_schedule n (i + 2) esk

length-subkeys : (n i : ℕ) (w : Halves) → length (subkeys n i w) ≡ 2 * n
unfolding subkeys
length-subkeys zero i w = refl
length-subkeys (suc n) i w = omega (arith, length-subkeys n (i + 1) (rotate_halves i w))

pub length-des_main_ks : (key : List ℕ) → length (des_main_ks key) ≡ 32
unfolding des_main_ks
length-des_main_ks key = length-subkeys 16 0 (choose_key key)

-- Two words of the reversed schedule, found by position.
reversed_pair :
    (n i k : ℕ) (esk : List ℕ)
    → k < n
    → (get_or (reverse_schedule n i esk) (2 * k) 0 ≡ get_or esk (30 - (i + 2 * k)) 0)
      × (get_or (reverse_schedule n i esk) (2 * k + 1) 0 ≡ get_or esk (31 - (i + 2 * k)) 0)
unfolding reverse_schedule
reversed_pair zero i k esk h = absurd (omega arith)
reversed_pair (suc n) i zero esk h =
    let e : i ≡ i + 2 * 0 = omega arith in
    (ap (λ (j : ℕ). get_or esk (30 - j) 0) e, ap (λ (j : ℕ). get_or esk (31 - j) 0) e)
reversed_pair (suc n) i (suc k) esk h =
    let two : 2 * suc k ≡ suc (suc (2 * k)) = omega arith in
    let three : 2 * suc k + 1 ≡ suc (suc (2 * k + 1)) = omega arith in
    let e : i + 2 + 2 * k ≡ i + 2 * suc k = omega arith in
    let (p, q) = reversed_pair n (i + 2) k esk (omega arith) in
    (
      rw (two) (p ∙ ap (λ (j : ℕ). get_or esk (30 - j) 0) (e ∙ ap (λ (j : ℕ). i + j) two)),
      rw (three) (q ∙ ap (λ (j : ℕ). get_or esk (31 - j) 0) e),
    )

-- ldesdecode's schedule holds the pairs of words of the other in reverse order.
pub reverse_schedule-Reverses : (esk : List ℕ) → Reverses esk (reverse_schedule 16 0 esk)
reverse_schedule-Reverses esk k l e =
    let (p, q) = reversed_pair 16 0 l esk (omega arith) in
    (
      sym (p ∙ ap (λ (j : ℕ). get_or esk j 0) (omega arith)),
      sym (q ∙ ap (λ (j : ℕ). get_or esk j 0) (omega arith)),
    )
