-- ===== src/Des/Padding/RoundTrip.antt =====
-- Removing a padding finds how much adding it put in.
use mathlib.Core.List.{reverse, reverse-append, append_assoc, append-nil, reverse-cons}
use skynet_slg.Prelude.{
  ℕ, zero, suc, ◌+◌, ◌-◌, ◌≤◌, ◌<◌, ◌%◌, ◌≡◌, ◌⊎◌, inl, inr, refl, ap, ◌∙◌, arith,
}
use skynet_slg.Prelude.{
  List, [], ◌∷◌, ◌++◌, take, length, length-append, length-replicate, replicate, ==_iff, lt→ltb,
}
use skynet_slg.Prelude.Bytes.{IsByte, IsBytes, All-append, All-replicate}
use skynet_slg.Prelude.Slices.{take-eq_self}
use skynet_slg.Prelude.Int.{ℤ}
use skynet_slg.Des.Padding.{
  ok, remove_zeros, padding_add_iso7816_4, remove_copies, padding_add_pkcs7, add_padding,
  remove_padding, padding_mode_iso7816_4, padding_mode_pkcs7,
}

replicate-snoc : (n b : ℕ) (xs : List ℕ) → replicate n b ++ b ∷ xs ≡ b ∷ replicate n b ++ xs
replicate-snoc zero b xs = refl
replicate-snoc (suc n) b xs = rw (replicate-snoc n b xs)

reverse-replicate : (n b : ℕ) → reverse (replicate n b) ≡ replicate n b
reverse-replicate zero b = refl
reverse-replicate (suc n) b =
    reverse-cons b (replicate n b)
    ∙ ap (λ l. l ++ b ∷ []) (reverse-replicate n b)
    ∙ replicate-snoc n b []
    ∙ rw append-nil

remove_zeros-replicate :
    (z n : ℕ) (last : List ℕ) (p : ℕ)
    → z < n
    → remove_zeros n (replicate z 0 ++ 0x80 ∷ last) p ≡ ok (p + z)
unfolding remove_zeros
remove_zeros-replicate z zero last p h = absurd (omega arith)
remove_zeros-replicate zero (suc n) last p h = ap ok (omega arith)
remove_zeros-replicate (suc z) (suc n) last p h =
    remove_zeros-replicate z n last (p + 1) (omega arith) ∙ ap ok (omega arith)

remove_copies-replicate :
    (b n m : ℕ) (last : List ℕ) → n ≤ m → remove_copies b n (replicate m b ++ last) ≡ ok b
unfolding remove_copies
remove_copies-replicate b zero m last h = refl
remove_copies-replicate b (suc n) zero last h = absurd (omega arith)
remove_copies-replicate b (suc n) (suc m) last h =
    rw ((==_iff b b).1 refl) (remove_copies-replicate b n m last (omega arith))

-- The buffer ends in the padded block `block`, and `remove` finds its padding.
abbrev pub FindsPadding : ℤ → ℕ → List ℕ → Type 0
FindsPadding mode offset block =
    (front : List ℕ) → remove_padding (reverse (front ++ block)) mode ≡ ok (8 - offset)

-- A buffer from its last byte towards its first: the filling, then the rest.
from_end_iso :
    (front t : List ℕ) (n : ℕ)
    → reverse (front ++ (t ++ 0x80 ∷ replicate n 0))
      ≡ replicate n 0 ++ 0x80 ∷ (reverse t ++ reverse front)
from_end_iso front t n = simp (reverse-append, reverse-cons, reverse-replicate, append_assoc)

from_end_pkcs :
    (front t : List ℕ) (n b : ℕ)
    → reverse (front ++ (t ++ replicate n b)) ≡ replicate n b ++ (reverse t ++ reverse front)
from_end_pkcs front t n b = simp (reverse-append, reverse-replicate, append_assoc)

iso_found :
    (src : List ℕ) (offset : ℕ)
    → offset < 8
    → FindsPadding padding_mode_iso7816_4 offset (take offset src ++ padding_add_iso7816_4 offset)
unfolding remove_padding padding_add_iso7816_4
iso_found src offset h front =
    rw (from_end_iso front (take offset src) (7 - offset))
      (remove_zeros-replicate (7 - offset) 8 _ 1 (omega arith) ∙ ap ok (omega arith))

pkcs_found :
    (src : List ℕ) (offset : ℕ)
    → offset < 8
    → FindsPadding padding_mode_pkcs7 offset (take offset src ++ padding_add_pkcs7 offset)
unfolding remove_padding padding_add_pkcs7
pkcs_found src offset h front =
    let b : 8 - offset ≡ suc (7 - offset) = omega arith in
    let fits : (8 - offset) % 256 ≡ suc (7 - offset) = omega arith in
    rw (from_end_pkcs front (take offset src) (8 - offset) ((8 - offset) % 256), fits, b)
      (remove_copies-replicate (suc (7 - offset)) (suc (7 - offset) - 1) (7 - offset) _
        (omega arith))

-- What add_padding makes of fewer than 8 bytes: a block of 8 bytes that remove_padding reads.
pub add_padding_found :
    (src : List ℕ) (offset : ℕ) (mode : ℤ)
    → offset < 8
    → length src ≡ offset
    → IsBytes src
    → (mode ≡ padding_mode_iso7816_4) ⊎ (mode ≡ padding_mode_pkcs7)
    → (fill : List ℕ) × (add_padding src offset mode ≡ ok (src ++ fill))
      × (length (src ++ fill) ≡ 8)
      × IsBytes (src ++ fill)
      × FindsPadding mode offset (src ++ fill)
unfolding add_padding padding_add_iso7816_4 padding_add_pkcs7
add_padding_found src offset mode h n bytes (inl e) =
    let whole : take offset src ≡ src = take-eq_self offset src (omega arith) in
    let found = iso_found src offset h in
    (
      padding_add_iso7816_4 offset,
      rw (e, lt→ltb offset 8 h, whole) refl,
      omega (
        arith,
        length-append src (0x80 ∷ replicate (7 - offset) 0),
        length-replicate {A = ℕ} (7 - offset) 0,
      ),
      All-append IsByte src _ bytes
          (omega arith, All-replicate IsByte (7 - offset) 0 (omega arith)),
      rw e (rw whole at found),
    )
add_padding_found src offset mode h n bytes (inr e) =
    let whole : take offset src ≡ src = take-eq_self offset src (omega arith) in
    let found = pkcs_found src offset h in
    (
      padding_add_pkcs7 offset,
      rw (e, lt→ltb offset 8 h, whole) refl,
      omega (
        arith,
        length-append src (replicate (8 - offset) ((8 - offset) % 256)),
        length-replicate (8 - offset) ((8 - offset) % 256),
      ),
      All-append IsByte src _ bytes (All-replicate IsByte (8 - offset) _ (omega arith)),
      rw e (rw whole at found),
    )
