-- ===== src/Utf8/Encode.antt =====
-- One rune: what _encode stores as sums, and _decode reading it back.
use skynet_slg.Prelude.{
  ℕ, ◌+◌, ◌*◌, ◌/◌, ◌%◌, ◌^◌, ◌≤◌, ◌<◌, ◌≡◌, refl, ◌∙◌, arith, List, [], ◌∷◌, ◌++◌, length, bit_and,
  bit_or,
}
use native.Mathlib.Decide.{dec_lt}
use skynet_slg.Prelude.Bits.{bit_or_fields, bit_or_fields_high, bit_and_mask}
use skynet_slg.Utf8.{steps, bytes, decode_loop, decode, low_bits, encode}

-- `x | 0x80` for six bits x is a sum.
low_bits_sum : (r : ℕ) → low_bits r ≡ 0x80 + r % 64
unfolding low_bits
low_bits_sum r = ground (arith, bit_and_mask 6 r, bit_or_fields_high 6 2 (r % 64) (omega arith))

first_two : (r : ℕ) → r < 0x800 → bit_or (r / 2 ^ 6) 0xc0 % 256 ≡ 0xc0 + r / 64
first_two r h = omega (arith, bit_or_fields_high 5 6 (r / 2 ^ 6) (omega arith))

first_three : (r : ℕ) → r < 0x10000 → bit_or (r / 2 ^ 12) 0xe0 % 256 ≡ 0xe0 + r / 4096
first_three r h = omega (arith, bit_or_fields_high 4 14 (r / 2 ^ 12) (omega arith))

first_four : (r : ℕ) → r < 0x200000 → bit_or (r / 2 ^ 18) 0xf0 % 256 ≡ 0xf0 + r / 262144
first_four r h = omega (arith, bit_or_fields_high 3 30 (r / 2 ^ 18) (omega arith))

-- The four shapes of a rune's bytes.
pub encode_one : (r : ℕ) → r < 0x80 → encode r (bytes r) ≡ r ∷ []
unfolding encode bytes
encode_one r h = ground (arith, bit_and_mask 7 r)

pub encode_two :
    (r : ℕ) → 0x80 ≤ r → r < 0x800 → encode r (bytes r) ≡ (0xc0 + r / 64) ∷ (0x80 + r % 64) ∷ []
unfolding encode bytes
encode_two r l h = ground (arith, first_two r h, low_bits_sum r)

pub encode_three :
    (r : ℕ)
    → 0x800 ≤ r
    → r < 0x10000
    → encode r (bytes r) ≡ (0xe0 + r / 4096) ∷ (0x80 + r / 64 % 64) ∷ (0x80 + r % 64) ∷ []
unfolding encode bytes
encode_three r l h = ground (arith, first_three r h, low_bits_sum (r / 2 ^ 6), low_bits_sum r)

pub encode_four :
    (r : ℕ)
    → 0x10000 ≤ r
    → r < 0x110000
    → encode r (bytes r)
      ≡ (0xf0 + r / 262144) ∷ (0x80 + r / 4096 % 64) ∷ (0x80 + r / 64 % 64) ∷ (0x80 + r % 64) ∷ []
unfolding encode bytes
encode_four r l h = ground (
  arith,
  first_four r (omega arith),
  low_bits_sum (r / 2 ^ 12),
  low_bits_sum (r / 2 ^ 6),
  low_bits_sum r,
)

-- A round of _decode takes six bits in.
take_six : (v b : ℕ) → v < 2 ^ 26 → bit_or (v * 2 ^ 6 % 2 ^ 32) (bit_and b 0x3f) ≡ v * 64 + b % 64
take_six v b h = ground (arith, bit_and_mask 6 b, bit_or_fields 6 v (b % 64) (omega arith))

decode_one : (a : ℕ) (rest : List ℕ) → a < 0x80 → decode (a ∷ rest) 1 ≡ a
unfolding decode decode_loop
decode_one a rest h = omega (arith, bit_and_mask 7 a)

decode_two : (a b : ℕ) (rest : List ℕ) → decode (a ∷ b ∷ rest) 2 ≡ a % 64 * 64 + b % 64
unfolding decode decode_loop
decode_two a b rest = rw (bit_and_mask 6 a) (take_six (a % 64) b (omega arith))

decode_three :
    (a b c : ℕ) (rest : List ℕ) → decode (a ∷ b ∷ c ∷ rest) 3 ≡ (a % 32 * 64 + b % 64) * 64 + c % 64
unfolding decode decode_loop
decode_three a b c rest =
    rw (bit_and_mask 5 a, take_six (a % 32) b (omega arith))
      (take_six (a % 32 * 64 + b % 64) c (omega arith))

decode_four :
    (a b c d : ℕ) (rest : List ℕ)
    → decode (a ∷ b ∷ c ∷ d ∷ rest) 4 ≡ ((a % 16 * 64 + b % 64) * 64 + c % 64) * 64 + d % 64
unfolding decode decode_loop
decode_four a b c d rest =
    rw
      (
        bit_and_mask 4 a,
        take_six (a % 16) b (omega arith),
        take_six (a % 16 * 64 + b % 64) c (omega arith),
      )
      (take_six ((a % 16 * 64 + b % 64) * 64 + c % 64) d (omega arith))

-- What one rune is to the loops: its first byte tells how many bytes follow, and _decode reads
-- the rune back, whatever stands behind it.
pub record IsEncoded (r : ℕ) (str : List ℕ) : Type 0 where
  pub first : ℕ
  pub others : List ℕ
  pub shape : str ≡ first ∷ others
  pub size : length str ≡ bytes r
  pub announced : steps first ≡ bytes r
  pub some_bytes : 0 < bytes r
  pub read : (rest : List ℕ) → decode (str ++ rest) (bytes r) ≡ r

-- A record from the shape, the number of bytes and the reading.
from_shape :
    (r k first : ℕ) (others : List ℕ)
    → bytes r ≡ k
    → encode r k ≡ first ∷ others
    → length (first ∷ others) ≡ k
    → steps first ≡ k
    → ((rest : List ℕ) → decode (first ∷ others ++ rest) k ≡ r)
    → IsEncoded r (encode r (bytes r))
from_shape r k first others count shape size announced read = record {
  first = first;
  others = others;
  shape = rw count shape;
  size = rw (count, shape) size;
  announced = rw count announced;
  some_bytes = omega (arith, size, count);
  read = λ rest. rw (count, shape) (read rest);
}

one-IsEncoded : (r : ℕ) → r < 0x80 → IsEncoded r (encode r (bytes r))
one-IsEncoded r h =
    from_shape r 1 r [] count (rw count at (encode_one r h)) refl (unfold steps in ground arith)
      (λ rest. decode_one r rest h)
  where
    count : bytes r ≡ 1
    count = unfold bytes in ground arith

two-IsEncoded : (r : ℕ) → 0x80 ≤ r → r < 0x800 → IsEncoded r (encode r (bytes r))
two-IsEncoded r l h =
    from_shape r 2 _ _ count (rw count at (encode_two r l h)) refl (unfold steps in ground arith)
      (λ rest. decode_two (0xc0 + r / 64) (0x80 + r % 64) rest ∙ omega arith)
  where
    count : bytes r ≡ 2
    count = unfold bytes in ground arith

three-IsEncoded : (r : ℕ) → 0x800 ≤ r → r < 0x10000 → IsEncoded r (encode r (bytes r))
three-IsEncoded r l h =
    from_shape r 3 _ _ count (rw count at (encode_three r l h)) refl (unfold steps in ground arith)
      (λ rest.
        decode_three (0xe0 + r / 4096) (0x80 + r / 64 % 64) (0x80 + r % 64) rest ∙ omega arith)
  where
    count : bytes r ≡ 3
    count = unfold bytes in ground arith

four-IsEncoded : (r : ℕ) → 0x10000 ≤ r → r < 0x110000 → IsEncoded r (encode r (bytes r))
four-IsEncoded r l h =
    from_shape r 4 _ _ count (rw count at (encode_four r l h)) refl (unfold steps in ground arith)
      (λ rest.
        decode_four (0xf0 + r / 262144) (0x80 + r / 4096 % 64) (0x80 + r / 64 % 64) (0x80 + r % 64)
          rest
        ∙ omega arith)
  where
    count : bytes r ≡ 4
    count = unfold bytes in ground arith

pub encode-IsEncoded : (r : ℕ) → r < 0x110000 → IsEncoded r (encode r (bytes r))
encode-IsEncoded r h = elim (dec_lt r 0x80) [
  | yes one ↦ one-IsEncoded r one
  | no more ↦ elim (dec_lt r 0x800) [
    | yes two ↦ two-IsEncoded r (omega arith) two
    | no more' ↦ elim (dec_lt r 0x10000) [
      | yes three ↦ three-IsEncoded r (omega arith) three
      | no most ↦ four-IsEncoded r (omega arith) h
    ]
  ]
]
