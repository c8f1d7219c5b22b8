-- ===== src/Des/Block/Words.antt =====
-- GET_UINT32 and PUT_UINT32 are inverse, and what a round computes is a 32-bit word.
use skynet_slg.Prelude.{ℕ, ◌+◌, ◌*◌, ◌^◌, ◌<◌, ◌≡◌, arith}
use skynet_slg.Prelude.{List, [], ◌∷◌, ◌++◌, get_or, length, bit_and, bit_or, bit_xor}
use skynet_slg.Prelude.Bytes.{All, All-get_or, IsByte, IsBytes, bytes_as_sum}
use skynet_slg.Prelude.Bits.{xor-lt}
use skynet_slg.Prelude.Word.{shl32, shr}
use skynet_slg.Des.Tables.{sb1, sb2, sb3, sb4, sb5, sb6, sb7, sb8}
use skynet_slg.Des.Block.{get_uint32, put_uint32, s_box, even_boxes, odd_boxes, des_round}

abbrev pub IsWord : ℕ → Type 0
IsWord n = n < 2 ^ 32

module _ (bs : List ℕ) (h : IsBytes bs) (i : ℕ) where
  byte_lt : (j : ℕ) → get_or bs j 0 < 256
  byte_lt j = All-get_or IsByte bs j 0 h (omega arith)

  pub get_uint32_sum :
      get_uint32 bs i
      ≡ get_or bs i 0 * 2 ^ 24
        + get_or bs (i + 1) 0 * 2 ^ 16
        + get_or bs (i + 2) 0 * 2 ^ 8
        + get_or bs (i + 3) 0
  unfolding get_uint32
  get_uint32_sum =
      bytes_as_sum (get_or bs i 0) (get_or bs (i + 1) 0) (get_or bs (i + 2) 0) (get_or bs (i + 3) 0)
        (byte_lt i) (byte_lt (i + 1)) (byte_lt (i + 2)) (byte_lt (i + 3))

  pub get_uint32-IsWord : IsWord (get_uint32 bs i)
  get_uint32-IsWord =
      omega (arith, get_uint32_sum, byte_lt i, byte_lt (i + 1), byte_lt (i + 2), byte_lt (i + 3))

pub put_uint32-IsBytes : (n : ℕ) → IsBytes (put_uint32 n)
unfolding put_uint32
put_uint32-IsBytes n = omega arith

-- Reading the words of a block back after writing them.
pub get-put_fst : (m n : ℕ) → IsWord m → get_uint32 (put_uint32 m ++ put_uint32 n) 0 ≡ m
unfolding put_uint32
get-put_fst m n h = omega (arith, get_uint32_sum (put_uint32 m ++ put_uint32 n) (omega arith) 0)

pub get-put_snd : (m n : ℕ) → IsWord n → get_uint32 (put_uint32 m ++ put_uint32 n) 4 ≡ n
unfolding put_uint32
get-put_snd m n h = omega (arith, get_uint32_sum (put_uint32 m ++ put_uint32 n) (omega arith) 4)

put-sum :
    (a b c d : ℕ)
    → a < 256
    → b < 256
    → c < 256
    → d < 256
    → put_uint32 (a * 2 ^ 24 + b * 2 ^ 16 + c * 2 ^ 8 + d) ≡ a ∷ b ∷ c ∷ d ∷ []
unfolding put_uint32
put-sum a b c d ha hb hc hd = ground arith

-- Writing the words of a block back after reading them.
pub put-get :
    (bs : List ℕ)
    → IsBytes bs
    → length bs ≡ 8
    → put_uint32 (get_uint32 bs 0) ++ put_uint32 (get_uint32 bs 4) ≡ bs
put-get (a ∷ b ∷ c ∷ d ∷ e ∷ f ∷ g ∷ h ∷ []) hs n = rw (front, back)
  where
    front : put_uint32 (get_uint32 (a ∷ b ∷ c ∷ d ∷ e ∷ f ∷ g ∷ h ∷ []) 0) ≡ a ∷ b ∷ c ∷ d ∷ []
    front =
        rw (get_uint32_sum _ hs 0)
          (put-sum a b c d (omega arith) (omega arith) (omega arith) (omega arith))

    back : put_uint32 (get_uint32 (a ∷ b ∷ c ∷ d ∷ e ∷ f ∷ g ∷ h ∷ []) 4) ≡ e ∷ f ∷ g ∷ h ∷ []
    back =
        rw (get_uint32_sum _ hs 4)
          (put-sum e f g h (omega arith) (omega arith) (omega arith) (omega arith))
put-get _ hs n = absurd (omega arith)

S_IsWords :
    All IsWord sb1
    × All IsWord sb2
    × All IsWord sb3
    × All IsWord sb4
    × All IsWord sb5
    × All IsWord sb6
    × All IsWord sb7
    × All IsWord sb8
S_IsWords = omega arith

s_box-IsWord : (box : List ℕ) → All IsWord box → (t : ℕ) → IsWord (s_box box t)
unfolding s_box
s_box-IsWord box h t = All-get_or IsWord box (bit_and t 0x3f) 0 h (omega arith)

xor-IsWord : (a b : ℕ) → IsWord a → IsWord b → IsWord (bit_xor a b)
xor-IsWord a b = xor-lt 32 a b

boxes-IsWord :
    (p q r s : List ℕ)
    → All IsWord p
    → All IsWord q
    → All IsWord r
    → All IsWord s
    → (t u v w : ℕ)
    → IsWord (bit_xor (bit_xor (bit_xor (s_box p t) (s_box q u)) (s_box r v)) (s_box s w))
boxes-IsWord p q r s hp hq hr hs t u v w =
    xor-IsWord _ _
      (xor-IsWord _ _ (xor-IsWord _ _ (s_box-IsWord p hp t) (s_box-IsWord q hq u))
        (s_box-IsWord r hr v))
      (s_box-IsWord s hs w)

pub even_boxes-IsWord : (sk : List ℕ) (i x : ℕ) → IsWord (even_boxes sk i x)
unfolding even_boxes
even_boxes-IsWord sk i x =
    let t = bit_xor (get_or sk i 0) x in
    boxes-IsWord sb8 sb6 sb4 sb2 S_IsWords.7 S_IsWords.5 S_IsWords.3 S_IsWords.1 t (shr t 8)
      (shr t 16) (shr t 24)

pub odd_boxes-IsWord : (sk : List ℕ) (i x : ℕ) → IsWord (odd_boxes sk i x)
unfolding odd_boxes
odd_boxes-IsWord sk i x =
    let t = bit_xor (get_or sk (i + 1) 0) (bit_or (shl32 x 28) (shr x 4)) in
    boxes-IsWord sb7 sb5 sb3 sb1 S_IsWords.6 S_IsWords.4 S_IsWords.2 S_IsWords.0 t (shr t 8)
      (shr t 16) (shr t 24)

pub des_round-IsWord : (sk : List ℕ) (i x y : ℕ) → IsWord y → IsWord (des_round sk i x y)
unfolding des_round
des_round-IsWord sk i x y h =
    xor-IsWord _ _ (xor-IsWord _ _ h (even_boxes-IsWord sk i x)) (odd_boxes-IsWord sk i x)
