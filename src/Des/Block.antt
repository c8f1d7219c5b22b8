-- ===== src/Des/Block.antt =====
-- The 64-bit block cipher of src_encrypt/lauxlib.c: GET_UINT32, PUT_UINT32, DES_IP, DES_FP,
-- DES_ROUND and des_crypt. A uint32_t is a number below 2 ^ 32; a block is a list of 8 bytes.
pub mod Words
pub mod Permutation
pub mod Feistel
use skynet_slg.Prelude.{ℕ, zero, suc, ◌+◌, List, [], ◌∷◌, ◌++◌, get_or, bit_and, bit_or, bit_xor}
use skynet_slg.Prelude.Word.{u8, u32, shl32, shr}
use skynet_slg.Des.Tables.{sb1, sb2, sb3, sb4, sb5, sb6, sb7, sb8}

-- The two words X and Y that the macros work on.
pub record Halves : Type 0 where
  pub x : ℕ
  pub y : ℕ

abbrev pub halves : ℕ → ℕ → Halves
halves a b = record { x = a; y = b }

abbrev pub flip : Halves → Halves
flip w = halves w.y w.x

-- Four bytes from index `i`, the highest first.
unfoldable pub get_uint32 : List ℕ → ℕ → ℕ
get_uint32 b i =
    bit_or
      (bit_or (bit_or (shl32 (get_or b i 0) 24) (shl32 (get_or b (i + 1) 0) 16))
        (shl32 (get_or b (i + 2) 0) 8))
      (get_or b (i + 3) 0)

unfoldable pub put_uint32 : ℕ → List ℕ
put_uint32 n = u8 (shr n 24) ∷ u8 (shr n 16) ∷ u8 (shr n 8) ∷ u8 n ∷ []

-- `T = ((X >> k) ^ Y) & m; Y ^= T; X ^= (T << k);`
unfoldable pub exchange : ℕ → ℕ → Halves → Halves
exchange k m w =
    let t = bit_and (bit_xor (shr w.x k) w.y) m in halves (bit_xor w.x (shl32 t k)) (bit_xor w.y t)

-- The same line with the parts of X and Y exchanged.
unfoldable pub exchange_y : ℕ → ℕ → Halves → Halves
unfolding exchange
exchange_y k m w = flip (exchange k m (flip w))

unfoldable pub rotate_left : ℕ → ℕ
rotate_left v = bit_and (bit_or (shl32 v 1) (shr v 31)) 0xffffffff

unfoldable pub rotate_right : ℕ → ℕ
rotate_right v = bit_and (bit_or (shl32 v 31) (shr v 1)) 0xffffffff

-- DES_IP, a line of the macro for each line here.
unfoldable pub des_ip : Halves → Halves
unfolding exchange exchange_y rotate_left
des_ip w =
    let a = exchange 4 0x0f0f0f0f w in
    let b = exchange 16 0x0000ffff a in
    let c = exchange_y 2 0x33333333 b in
    let d = exchange_y 8 0x00ff00ff c in
    let e = halves d.x (rotate_left d.y) in
    let f = exchange 0 0xaaaaaaaa e in halves (rotate_left f.x) f.y

-- DES_FP, a line of the macro for each line here.
unfoldable pub des_fp : Halves → Halves
unfolding exchange exchange_y rotate_right
des_fp w =
    let a = halves (rotate_right w.x) w.y in
    let b = exchange 0 0xaaaaaaaa a in
    let c = halves b.x (rotate_right b.y) in
    let d = exchange_y 8 0x00ff00ff c in
    let e = exchange_y 2 0x33333333 d in let f = exchange 16 0x0000ffff e in exchange 4 0x0f0f0f0f f

-- An S-box at six bits of `t`.
unfoldable pub s_box : List ℕ → ℕ → ℕ
s_box box t = get_or box (bit_and t 0x3f) 0

-- The two words that DES_ROUND xors into its second argument; `sk` is the schedule, `i` where SK
-- points.
unfoldable pub even_boxes : List ℕ → ℕ → ℕ → ℕ
unfolding s_box
even_boxes sk i x =
    let t = bit_xor (get_or sk i 0) x in
    bit_xor (bit_xor (bit_xor (s_box sb8 t) (s_box sb6 (shr t 8))) (s_box sb4 (shr t 16)))
      (s_box sb2 (shr t 24))

unfoldable pub odd_boxes : List ℕ → ℕ → ℕ → ℕ
unfolding s_box
odd_boxes sk i x =
    let t = bit_xor (get_or sk (i + 1) 0) (bit_or (shl32 x 28) (shr x 4)) in
    bit_xor (bit_xor (bit_xor (s_box sb7 t) (s_box sb5 (shr t 8))) (s_box sb3 (shr t 16)))
      (s_box sb1 (shr t 24))

-- `DES_ROUND( X, Y )`: the new Y.
unfoldable pub des_round : List ℕ → ℕ → ℕ → ℕ → ℕ
unfolding even_boxes odd_boxes
des_round sk i x y = bit_xor (bit_xor y (even_boxes sk i x)) (odd_boxes sk i x)

-- `DES_ROUND( Y, X ); DES_ROUND( X, Y );` with SK at `i`: four words of the schedule are used.
unfoldable pub round_pair : List ℕ → ℕ → Halves → Halves
unfolding des_round
round_pair sk i w = let x' = des_round sk i w.y w.x in halves x' (des_round sk (i + 2) x' w.y)

-- `n` such lines, with SK at `i`.
unfoldable pub round_pairs : List ℕ → ℕ → ℕ → Halves → Halves
unfolding round_pair
round_pairs sk zero i w = w
round_pairs sk (suc n) i w = round_pairs sk n (i + 4) (round_pair sk i w)

-- Eight lines of two rounds between the two permutations; the halves are put out exchanged.
unfoldable pub des_crypt : List ℕ → List ℕ → List ℕ
unfolding get_uint32 put_uint32 des_ip des_fp round_pairs
des_crypt sk input =
    let w = des_ip (halves (get_uint32 input 0) (get_uint32 input 4)) in
    let v = des_fp (flip (round_pairs sk 8 0 w)) in put_uint32 v.x ++ put_uint32 v.y
