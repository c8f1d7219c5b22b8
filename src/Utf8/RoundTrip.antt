-- ===== src/Utf8/RoundTrip.antt =====
-- Encoding runes and decoding the bytes gives the runes back, and the length is their number.
use skynet_slg.Prelude.{
  ℕ, zero, suc, ◌+◌, ◌<◌, ◌≡◌, refl, sym, ap, ◌∙◌, arith, List, [], ◌∷◌, ◌++◌, length,
  length-append, some, ==-eq_false, le→ltb, ltb, false,
}
use skynet_slg.Prelude.Bytes.{All}
use skynet_slg.Prelude.Slices.{drop-append}
use skynet_slg.Utf8.{
  ◌>>=◌, steps, bytes, decode, encode, encode_all, to_utf32_loop, to_utf32, size_utf8, to_utf8,
  len_loop, utf8_len,
}
use skynet_slg.Utf8.Encode.{IsEncoded, encode-IsEncoded}

-- The code points.
abbrev pub IsRune : ℕ → Type 0
IsRune r = r < 0x110000

-- One round of the loops at the bytes of a rune.
module _ (fuel k c : ℕ) (others rest : List ℕ) (announced : steps c ≡ k)
    (size : length (c ∷ others) ≡ k) (some_bytes : 0 < k) where
  enough : ltb (length (c ∷ others ++ rest)) k ≡ false
  enough = le→ltb (length (c ∷ others ++ rest)) k (omega (arith, length-append others rest))

  to_utf32_loop-round :
      to_utf32_loop (suc fuel) (c ∷ others ++ rest)
      ≡ (to_utf32_loop fuel rest >>= λ runes. some (decode (c ∷ others ++ rest) k ∷ runes))
  unfolding to_utf32_loop
  to_utf32_loop-round =
      rw (announced, ==-eq_false k 0 (omega arith), enough, drop-append k (c ∷ others) rest size)
        refl

  len_loop-round :
      len_loop (suc fuel) (c ∷ others ++ rest) ≡ (len_loop fuel rest >>= λ n. some (n + 1))
  unfolding len_loop
  len_loop-round =
      rw (announced, ==-eq_false k 0 (omega arith), enough, drop-append k (c ∷ others) rest size)
        refl

module _ (fuel r : ℕ) (str rest : List ℕ) (e : IsEncoded r str) where
  open e use {first, others, shape, size, announced, some_bytes, read}

  to_utf32_loop-encoded :
      to_utf32_loop (suc fuel) (str ++ rest)
      ≡ (to_utf32_loop fuel rest >>= λ runes. some (r ∷ runes))
  to_utf32_loop-encoded =
      ap (λ l. to_utf32_loop (suc fuel) (l ++ rest)) shape
      ∙ to_utf32_loop-round fuel (bytes r) first others rest announced
          (sym (ap length shape) ∙ size) some_bytes
      ∙ ap (λ (v : ℕ). to_utf32_loop fuel rest >>= λ runes. some (v ∷ runes))
          (sym (ap (λ l. decode (l ++ rest) (bytes r)) shape) ∙ read rest)

  len_loop-encoded : len_loop (suc fuel) (str ++ rest) ≡ (len_loop fuel rest >>= λ n. some (n + 1))
  len_loop-encoded =
      ap (λ l. len_loop (suc fuel) (l ++ rest)) shape
      ∙ len_loop-round fuel (bytes r) first others rest announced (sym (ap length shape) ∙ size)
          some_bytes

to_utf32_loop-encode_all :
    (runes : List ℕ) (fuel : ℕ)
    → All IsRune runes
    → length (encode_all runes) < fuel
    → to_utf32_loop fuel (encode_all runes) ≡ some runes
unfolding encode_all
to_utf32_loop-encode_all [] zero hs f = absurd (omega arith)
to_utf32_loop-encode_all [] (suc fuel) hs f = unfold to_utf32_loop in refl
to_utf32_loop-encode_all (r ∷ runes) zero hs f = absurd (omega arith)
to_utf32_loop-encode_all (r ∷ runes) (suc fuel) hs f =
    let e = encode-IsEncoded r hs.0 in
    let left : length (encode_all runes) < fuel =
      omega (arith, length-append (encode r (bytes r)) (encode_all runes), e.size, e.some_bytes) in
    to_utf32_loop-encoded fuel r (encode r (bytes r)) (encode_all runes) e
    ∙ rw (to_utf32_loop-encode_all runes fuel hs.1 left)

len_loop-encode_all :
    (runes : List ℕ) (fuel : ℕ)
    → All IsRune runes
    → length (encode_all runes) < fuel
    → len_loop fuel (encode_all runes) ≡ some (length runes)
unfolding encode_all
len_loop-encode_all [] zero hs f = absurd (omega arith)
len_loop-encode_all [] (suc fuel) hs f = unfold len_loop in refl
len_loop-encode_all (r ∷ runes) zero hs f = absurd (omega arith)
len_loop-encode_all (r ∷ runes) (suc fuel) hs f =
    let e = encode-IsEncoded r hs.0 in
    let left : length (encode_all runes) < fuel =
      omega (arith, length-append (encode r (bytes r)) (encode_all runes), e.size, e.some_bytes) in
    len_loop-encoded fuel r (encode r (bytes r)) (encode_all runes) e
    ∙ rw (len_loop-encode_all runes fuel hs.1 left) (ap some (omega arith))

size_utf8-total :
    (runes : List ℕ) → All IsRune runes → size_utf8 runes ≡ some (length (encode_all runes))
unfolding size_utf8 encode_all
size_utf8-total [] hs = refl
size_utf8-total (r ∷ runes) hs =
    let e = encode-IsEncoded r hs.0 in
    rw (==-eq_false (bytes r) 0 (omega (arith, e.some_bytes)), size_utf8-total runes hs.1)
      (ap some (omega (arith, length-append (encode r (bytes r)) (encode_all runes), e.size)))

-- For code points, utf8.toutf8 gives bytes that utf8.toutf32 reads back as the same code points
-- and of which utf8.len is their number; the buffer that _toutf8 allocates is as long as the
-- bytes that it writes.
pub toutf32-toutf8 :
    (runes : List ℕ)
    → All IsRune runes
    → (str : List ℕ) × (to_utf8 runes ≡ some str)
      × (size_utf8 runes ≡ some (length str))
      × (to_utf32 str ≡ some runes)
      × (utf8_len str ≡ some (length runes))
unfolding to_utf8 to_utf32 utf8_len
toutf32-toutf8 runes hs = (
  encode_all runes,
  rw (size_utf8-total runes hs) refl,
  size_utf8-total runes hs,
  to_utf32_loop-encode_all runes _ hs (omega arith),
  len_loop-encode_all runes _ hs (omega arith),
)
