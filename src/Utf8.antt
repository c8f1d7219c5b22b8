-- ===== src/Utf8.antt =====
-- 3rd/src-c/lua-utf8.c: UTF-8 to code points and back. A Lua string is a list of bytes, a table of
-- runes a list of numbers below 2 ^ 32.
pub mod Encode
pub mod RoundTrip
pub mod Length
use skynet_slg.Prelude.{
  ℕ, zero, suc, ◌+◌, ◌-◌, ◌*◌, ◌/◌, ◌%◌, ◌^◌, List, [], ◌∷◌, ◌++◌, drop, length, get_or, Bool, ltb,
  ◌==◌, ◌||◌, if◌then◌else◌, Option, none, some, bit_and, bit_or,
}
use skynet_slg.Prelude.Word.{u8, u32, shl32, shr}

infixl 5 ◌>>=◌
abbrev pub ◌>>=◌ {ℓ κ} : {A : Type ℓ} {B : Type κ} → Option A → (A → Option B) → Option B
none >>= f = none
some a >>= f = f a

-- How many bytes a rune takes, by its first byte; 0 if that byte starts none.
unfoldable pub steps : ℕ → ℕ
steps c =
    if ltb c 0x80
    then 1
    else if ltb c 0xc0
    then 0
    else if ltb c 0xe0
    then 2
    else if ltb c 0xf0
    then 3
    else if ltb c 0xf8
    then 4
    else 0

-- How many bytes a rune needs; 0 if it is out of range.
unfoldable pub bytes : ℕ → ℕ
bytes rune =
    if ltb rune 0x80
    then 1
    else if ltb rune 0x800
    then 2
    else if ltb rune 0x10000
    then 3
    else if ltb rune 0x110000
    then 4
    else 0

-- The loop of _decode: `n` rounds are left, and `str` starts at the next byte. The byte is a
-- `char`; `& 0x3f` takes the same six bits of it whether or not that is signed.
unfoldable pub decode_loop : ℕ → List ℕ → ℕ → ℕ
decode_loop zero str v = v
decode_loop (suc n) str v =
    decode_loop n (drop 1 str) (bit_or (shl32 v 6) (bit_and (get_or str 0 0) 0x3f))

unfoldable pub decode : List ℕ → ℕ → ℕ
decode str step = decode_loop (step - 1) (drop 1 str) (bit_and (get_or str 0 0) (shr 0xff step))

-- FILL_LOW_BITS: the byte that is stored; the rune is then shifted by 6.
unfoldable pub low_bits : ℕ → ℕ
low_bits rune = bit_or (bit_and rune 0x3f) 0x80

-- The bytes that _encode stores for a rune of so many bytes, the first one first.
unfoldable pub encode : ℕ → ℕ → List ℕ
encode rune n =
    if n == 1
    then bit_and rune 0x7f ∷ []
    else if n == 2
    then u8 (bit_or (shr rune 6) 0xc0) ∷ low_bits rune ∷ []
    else if n == 3
    then u8 (bit_or (shr rune 12) 0xe0) ∷ low_bits (shr rune 6) ∷ low_bits rune ∷ []
    else u8 (bit_or (shr rune 18) 0xf0)
      ∷ low_bits (shr rune 12)
      ∷ low_bits (shr rune 6)
      ∷ low_bits rune
      ∷ []

-- The loop of _toutf32 at the rest of the string, with fuel for one round for each byte; `none`
-- is the count -1, an error.
unfoldable pub to_utf32_loop : ℕ → List ℕ → Option (List ℕ)
to_utf32_loop zero str = none
to_utf32_loop (suc fuel) [] = some []
to_utf32_loop (suc fuel) (c ∷ str) =
    let step = steps c in
    let rest = to_utf32_loop fuel (drop step (c ∷ str)) in
    if step == 0 || ltb (length (c ∷ str)) step
    then none
    else (rest >>= λ runes. some (decode (c ∷ str) step ∷ runes))

unfoldable pub to_utf32 : List ℕ → Option (List ℕ)
to_utf32 str = to_utf32_loop (length str + 1) str

-- The first loop of _toutf8: the number of bytes, or `none` for a rune out of range.
unfoldable pub size_utf8 : List ℕ → Option ℕ
size_utf8 [] = some 0
size_utf8 (rune ∷ runes) =
    let n = bytes rune in
    let rest = size_utf8 runes in if n == 0 then none else (rest >>= λ sz. some (n + sz))

-- The second loop.
unfoldable pub encode_all : List ℕ → List ℕ
encode_all [] = []
encode_all (rune ∷ runes) = encode rune (bytes rune) ++ encode_all runes

unfoldable pub to_utf8 : List ℕ → Option (List ℕ)
to_utf8 runes = size_utf8 runes >>= λ sz. some (encode_all runes)

-- The loop of _len, with fuel as above.
unfoldable pub len_loop : ℕ → List ℕ → Option ℕ
len_loop zero str = none
len_loop (suc fuel) [] = some 0
len_loop (suc fuel) (c ∷ str) =
    let step = steps c in
    let rest = len_loop fuel (drop step (c ∷ str)) in
    if step == 0 || ltb (length (c ∷ str)) step then none else (rest >>= λ n. some (n + 1))

unfoldable pub utf8_len : List ℕ → Option ℕ
utf8_len str = len_loop (length str + 1) str
