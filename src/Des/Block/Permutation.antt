-- ===== src/Des/Block/Permutation.antt =====
-- DES_IP and DES_FP are inverse permutations of a pair of 32-bit words.
use native.Mathlib.Nat.{
  pow-suc, one-le-pow, div-one, div-div-eq-div-mul, mul-div_cancel, mod-eq_of_lt,
}
use mathlib.Core.Path.{ap₂}
use skynet_slg.Prelude.{
  ℕ, zero, suc, ◌+◌, ◌*◌, ◌/◌, ◌%◌, ◌^◌, ◌≤◌, ◌<◌, ◌≡◌, refl, sym, ap, ◌∙◌, arith,
}
use skynet_slg.Prelude.{bit_and, bit_or, bit_xor}
use skynet_slg.Prelude.Bits.{
  bit_or_fields, bit_and-le, bit_and_mask, xor-half, xor-lt, xor_assoc, xor_comm, xor_cancel,
}
use skynet_slg.Prelude.Word.{shl32, shr}
use skynet_slg.Des.Block.{
  Halves, halves, flip, exchange, exchange_y, rotate_left, rotate_right, des_ip, des_fp,
}
use skynet_slg.Des.Block.Words.{IsWord}

abbrev pub IsWords : Halves → Type 0
IsWords w = IsWord w.x × IsWord w.y

pub rotate_left-IsWord : (v : ℕ) → IsWord (rotate_left v)
unfolding rotate_left
rotate_left-IsWord v = omega (arith, bit_and-le 0xffffffff (bit_or (shl32 v 1) (shr v 31)))

pub rotate_right-IsWord : (v : ℕ) → IsWord (rotate_right v)
unfolding rotate_right
rotate_right-IsWord v = omega (arith, bit_and-le 0xffffffff (bit_or (shl32 v 31) (shr v 1)))

rotate_left_sum : (v : ℕ) → IsWord v → rotate_left v ≡ v % 2 ^ 31 * 2 + v / 2 ^ 31
unfolding rotate_left
rotate_left_sum v h = ground (
  arith,
  bit_and_mask 32 (bit_or (shl32 v 1) (shr v 31)),
  bit_or_fields 1 (v % 2 ^ 31) (v / 2 ^ 31) (omega arith),
)

rotate_right_sum : (v : ℕ) → IsWord v → rotate_right v ≡ v % 2 * 2 ^ 31 + v / 2
unfolding rotate_right
rotate_right_sum v h = ground (
  arith,
  bit_and_mask 32 (bit_or (shl32 v 31) (shr v 1)),
  bit_or_fields 31 (v % 2) (v / 2) (omega arith),
)

pub right-left : (v : ℕ) → IsWord v → rotate_right (rotate_left v) ≡ v
right-left v h =
    omega (arith, rotate_left_sum v h, rotate_right_sum (rotate_left v) (rotate_left-IsWord v))

pub left-right : (v : ℕ) → IsWord v → rotate_left (rotate_right v) ≡ v
left-right v h =
    omega (arith, rotate_right_sum v h, rotate_left_sum (rotate_right v) (rotate_right-IsWord v))

shr-suc : (a k : ℕ) → shr a (suc k) ≡ shr (a / 2) k
shr-suc a k = ground (arith, pow-suc 2 k, div-div-eq-div-mul a 2 (2 ^ k))

-- `(a ^ b) >> k` is `(a >> k) ^ (b >> k)`.
shr-xor : (k a b : ℕ) → shr (bit_xor a b) k ≡ bit_xor (shr a k) (shr b k)
shr-xor zero a b = div-one (bit_xor a b) ∙ ap₂ bit_xor (sym (div-one a)) (sym (div-one b))
shr-xor (suc k) a b =
    rw (shr-suc (bit_xor a b) k, xor-half a b, shr-suc a k, shr-suc b k) (shr-xor k (a / 2) (b / 2))

-- Xoring `t` into both sides changes nothing.
xor_both : (a b t : ℕ) → bit_xor (bit_xor a t) (bit_xor b t) ≡ bit_xor a b
xor_both a b t = rw (xor_comm b t, ← xor_assoc (bit_xor a t) t b, xor_cancel a t)

shr-shl32 : (k m t : ℕ) → m * 2 ^ k < 2 ^ 32 → t ≤ m → shr (shl32 t k) k ≡ t
shr-shl32 k m t fits le =
    let small : t * 2 ^ k < 2 ^ 32 = grind arith in
    rw (mod-eq_of_lt small) (mul-div_cancel t (one-le-pow k 2 (omega arith)))

same_mask :
    (k m x y t : ℕ)
    → m * 2 ^ k < 2 ^ 32
    → t ≤ m
    → bit_xor (shr (bit_xor x (shl32 t k)) k) (bit_xor y t) ≡ bit_xor (shr x k) y
same_mask k m x y t fits le =
    rw (shr-xor k x (shl32 t k), shr-shl32 k m t fits le) (xor_both (shr x k) y t)

-- A line of the macros undoes itself, when the mask shifted by `k` still fits the word.
pub exchange_twice : (k m : ℕ) (w : Halves) → m * 2 ^ k < 2 ^ 32 → exchange k m (exchange k m w) ≡ w
unfolding exchange
exchange_twice k m w fits =
    let t = bit_and (bit_xor (shr w.x k) w.y) m in
    rw
      (
        same_mask k m w.x w.y t fits (bit_and-le m (bit_xor (shr w.x k) w.y)),
        xor_cancel w.x (shl32 t k),
        xor_cancel w.y t,
      )
      refl

pub exchange_y_twice :
    (k m : ℕ) (w : Halves) → m * 2 ^ k < 2 ^ 32 → exchange_y k m (exchange_y k m w) ≡ w
unfolding exchange_y
exchange_y_twice k m w fits = ap flip (exchange_twice k m (flip w) fits)

exchange-IsWords :
    (k m : ℕ) (w : Halves) → m * 2 ^ k < 2 ^ 32 → IsWords w → IsWords (exchange k m w)
unfolding exchange
exchange-IsWords k m w fits h = (
  xor-lt 32 _ _ h.0 (omega arith),
  xor-lt 32 _ _ h.1
      (grind (arith, one-le-pow k 2 (omega arith), bit_and-le m (bit_xor (shr w.x k) w.y))),
)

exchange_y-IsWords :
    (k m : ℕ) (w : Halves) → m * 2 ^ k < 2 ^ 32 → IsWords w → IsWords (exchange_y k m w)
unfolding exchange_y
exchange_y-IsWords k m w fits h =
    let r = exchange-IsWords k m (flip w) fits (h.1, h.0) in (r.1, r.0)

-- The four lines of the macros that exchange bits without a rotation, in the order of DES_IP.
spread : Halves → Halves
spread w =
    exchange_y 8 0x00ff00ff
      (exchange_y 2 0x33333333 (exchange 16 0x0000ffff (exchange 4 0x0f0f0f0f w)))

gather : Halves → Halves
gather w =
    exchange 4 0x0f0f0f0f
      (exchange 16 0x0000ffff (exchange_y 2 0x33333333 (exchange_y 8 0x00ff00ff w)))

spread-IsWords : (w : Halves) → IsWords w → IsWords (spread w)
unfolding spread
spread-IsWords w h = exchange_y-IsWords 8 0x00ff00ff _ (omega arith) (
    exchange_y-IsWords 2 0x33333333 _ (omega arith) (
      exchange-IsWords 16 0x0000ffff _ (omega arith)
        (exchange-IsWords 4 0x0f0f0f0f w (omega arith) h)))

gather-IsWords : (w : Halves) → IsWords w → IsWords (gather w)
unfolding gather
gather-IsWords w h = exchange-IsWords 4 0x0f0f0f0f _ (omega arith) (
    exchange-IsWords 16 0x0000ffff _ (omega arith) (
      exchange_y-IsWords 2 0x33333333 _ (omega arith)
        (exchange_y-IsWords 8 0x00ff00ff w (omega arith) h)))

gather-spread : (w : Halves) → gather (spread w) ≡ w
unfolding gather spread
gather-spread w =
    rw
      (
        exchange_y_twice 8 0x00ff00ff _ (omega arith),
        exchange_y_twice 2 0x33333333 _ (omega arith),
        exchange_twice 16 0x0000ffff _ (omega arith),
      )
      (exchange_twice 4 0x0f0f0f0f w (omega arith))

spread-gather : (w : Halves) → spread (gather w) ≡ w
unfolding gather spread
spread-gather w =
    rw
      (
        exchange_twice 4 0x0f0f0f0f _ (omega arith),
        exchange_twice 16 0x0000ffff _ (omega arith),
        exchange_y_twice 2 0x33333333 _ (omega arith),
      )
      (exchange_y_twice 8 0x00ff00ff w (omega arith))

-- The last three lines of DES_IP, and the first three of DES_FP.
twist : Halves → Halves
twist d =
    let f = exchange 0 0xaaaaaaaa (halves d.x (rotate_left d.y)) in halves (rotate_left f.x) f.y

untwist : Halves → Halves
untwist w =
    let b = exchange 0 0xaaaaaaaa (halves (rotate_right w.x) w.y) in halves b.x (rotate_right b.y)

twist-IsWords : (d : Halves) → IsWords d → IsWords (twist d)
unfolding twist
twist-IsWords d h = (
  rotate_left-IsWord _,
  (exchange-IsWords 0 0xaaaaaaaa (halves d.x (rotate_left d.y)) (omega arith)
      (h.0, rotate_left-IsWord d.y)).1,
)

untwist-IsWords : (w : Halves) → IsWords w → IsWords (untwist w)
unfolding untwist
untwist-IsWords w h = (
  (exchange-IsWords 0 0xaaaaaaaa (halves (rotate_right w.x) w.y) (omega arith)
      (rotate_right-IsWord w.x, h.1)).0,
  rotate_right-IsWord _,
)

untwist-twist : (d : Halves) → IsWords d → untwist (twist d) ≡ d
unfolding twist untwist
untwist-twist d h =
    let e : Halves = halves d.x (rotate_left d.y) in
    let f = exchange-IsWords 0 0xaaaaaaaa e (omega arith) (h.0, rotate_left-IsWord d.y) in
    rw (right-left _ f.0, exchange_twice 0 0xaaaaaaaa e (omega arith), right-left d.y h.1) refl

twist-untwist : (w : Halves) → IsWords w → twist (untwist w) ≡ w
unfolding twist untwist
twist-untwist w h =
    let a : Halves = halves (rotate_right w.x) w.y in
    let b = exchange-IsWords 0 0xaaaaaaaa a (omega arith) (rotate_right-IsWord w.x, h.1) in
    rw (left-right _ b.1, exchange_twice 0 0xaaaaaaaa a (omega arith), left-right w.x h.0) refl

ip_parts : (w : Halves) → des_ip w ≡ twist (spread w)
unfolding des_ip twist spread
ip_parts w = refl

fp_parts : (w : Halves) → des_fp w ≡ gather (untwist w)
unfolding des_fp gather untwist
fp_parts w = refl

pub des_ip-IsWords : (w : Halves) → IsWords w → IsWords (des_ip w)
des_ip-IsWords w h = rw (ip_parts w) (twist-IsWords _ (spread-IsWords w h))

pub des_fp-IsWords : (w : Halves) → IsWords w → IsWords (des_fp w)
des_fp-IsWords w h = rw (fp_parts w) (gather-IsWords _ (untwist-IsWords w h))

-- DES_FP undoes DES_IP.
pub fp-ip : (w : Halves) → IsWords w → des_fp (des_ip w) ≡ w
fp-ip w h =
    rw (fp_parts (des_ip w), ip_parts w, untwist-twist (spread w) (spread-IsWords w h))
      (gather-spread w)

-- DES_IP undoes DES_FP.
pub ip-fp : (w : Halves) → IsWords w → des_ip (des_fp w) ≡ w
ip-fp w h = rw (ip_parts (des_fp w), fp_parts w, spread-gather (untwist w)) (twist-untwist w h)
