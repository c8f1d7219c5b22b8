-- ===== src/Des/Text/Errors.antt =====
-- When the DES functions fail, and with what.
use mathlib.Core.List.{reverse}
use skynet_slg.Prelude.{
  ℕ, zero, suc, ◌+◌, ◌-◌, ◌/◌, ◌%◌, ◌≤◌, ◌<◌, ◌≡◌, refl, ap, arith, inl, inr, List, [], ◌∷◌, take,
  length, length-take, Option, ◌==◌, replicate, ==_iff, not, ◌&&◌, leb, Bool-cases, true,
}
use skynet_slg.Prelude.Int.{ℤ}
use skynet_slg.Des.Schedule.{reverse_schedule}
use skynet_slg.Des.Padding.{
  Result, ok, err, ◌>>=◌, guard, bind-eq-ok, guard-eq-ok, invalid_text_length, invalid_text,
  undefined, remove_padding, padding_remove_pkcs7, remove_copies, remove_zeros,
  padding_remove_iso7816_4,
}
use skynet_slg.Des.Text.{crypt_blocks, des_key, optional_mode, ldesdecode, decode_with, cut_padding}
use skynet_slg.Des.Text.RoundTrip.{length-crypt_blocks}

copies_overrun : (b m k : ℕ) → k < m → remove_copies b m (replicate k b) ≡ err undefined
unfolding remove_copies
copies_overrun b zero k lt = absurd (omega arith)
copies_overrun b (suc m) zero lt = refl
copies_overrun b (suc m) (suc k) lt = rw ((==_iff b b).1 refl) (copies_overrun b m k (omega arith))

-- padding_remove_pkcs7 reads before the start of a buffer of n bytes that all hold a value
-- greater than n: it trusts the padding length before comparing it with the block size.
pub pkcs7_overrun : (n b : ℕ) → 0 < n → n < b → padding_remove_pkcs7 (replicate n b) ≡ err undefined
unfolding padding_remove_pkcs7
pkcs7_overrun zero b some_bytes lt = absurd (omega arith)
pkcs7_overrun (suc n) b some_bytes lt = copies_overrun b (b - 1) n (omega arith)

zeros_bounds :
    (n : ℕ) (last : List ℕ) (p : ℕ)
    → n ≤ length last
    → 0 < p
    → (q : ℕ) × (remove_zeros n last p ≡ ok q) × (q ≤ p + n - 1)
unfolding remove_zeros
zeros_bounds zero last p h some_padding = (0, refl, omega arith)
zeros_bounds (suc n) [] p h some_padding = absurd (omega arith)
zeros_bounds (suc n) (b ∷ last) p h some_padding =
    let (q, run, le) = zeros_bounds n last (p + 1) (omega arith) (omega arith) in
    elim (Bool-cases (b == 0)) [
      | inl z ↦ (q, rw z run, omega arith)
      | inr z ↦ elim (Bool-cases (b == 0x80)) [
        | inl e ↦ (p, rw (z, e) refl, omega arith)
        | inr e ↦ (0, rw (z, e) refl, omega arith)
      ]
    ]

-- padding_remove_iso7816_4 finds at most 8 bytes of padding, and on a buffer of at least 8
-- bytes it reads nothing outside.
pub iso_bounds :
    (last : List ℕ) → 8 ≤ length last → (p : ℕ) × (padding_remove_iso7816_4 last ≡ ok p) × (p ≤ 8)
unfolding padding_remove_iso7816_4
iso_bounds last h = zeros_bounds 8 last 1 h (omega arith)

fits_block : (p : ℕ) → (not (p == 0) && leb p 8) ≡ true → (0 < p) × (p ≤ 8)
fits_block p h = ground arith

whole_blocks : (n : ℕ) → (n % 8 == 0 && not (n == 0)) ≡ true → (n % 8 ≡ 0) × (0 < n)
whole_blocks n h = ground arith

cut-eq-ok :
    (n : ℕ) (buffer out : List ℕ) (p : ℕ)
    → cut_padding n buffer p ≡ ok out
    → (0 < p) × (p ≤ 8) × (take (n - p) buffer ≡ out)
unfolding cut_padding
cut-eq-ok n buffer out p h = elim (Bool-cases (not (p == 0) && leb p 8)) [
  | inl fits ↦
      let (low, high) = fits_block p fits in
      let same : ◌≡◌ {A = Result (List ℕ)} (ok (take (n - p) buffer)) (ok out) = rw fits at h in
      (low, high, cc)
  | inr misfit ↦
      let never : ◌≡◌ {A = Result (List ℕ)} (err invalid_text) (ok out) = rw misfit at h in cc
]

with-eq-ok :
    (text : List ℕ) (mode : ℤ) (esk out : List ℕ)
    → decode_with text mode esk ≡ ok out
    → (length out < length text) × (length text ≤ length out + 8)
unfolding decode_with
with-eq-ok text mode esk out h =
    let n = length text in
    let buffer = crypt_blocks (reverse_schedule 16 0 esk) (n / 8) text in
    let (u, whole, rest) =
      bind-eq-ok (guard (n % 8 == 0 && not (n == 0)) (invalid_text_length n))
        (λ _. remove_padding (reverse buffer) mode >>= cut_padding n buffer) h in
    let (p, found, end) =
      bind-eq-ok (remove_padding (reverse buffer) mode) (cut_padding n buffer) rest in
    let (low, high, same) = cut-eq-ok n buffer out p end in
    omega (
      arith,
      ap length same,
      length-take (n - p) buffer,
      length-crypt_blocks (reverse_schedule 16 0 esk) (n / 8) text,
      whole_blocks n (guard-eq-ok _ (invalid_text_length n) whole),
    )

-- What ldesdecode returns is shorter than the text by 1 to 8 bytes.
pub decode_bounds :
    (key text out : List ℕ) (mode : Option ℤ)
    → ldesdecode key text mode ≡ ok out
    → (length out < length text) × (length text ≤ length out + 8)
unfolding ldesdecode
decode_bounds key text out mode h =
    let (esk, ran, rest) = bind-eq-ok (des_key key) (decode_with text (optional_mode mode)) h in
    with-eq-ok text (optional_mode mode) esk out rest
