-- ===== src/Des/Text/RoundTrip.antt =====
-- Decoding with the same key and padding mode gives back every text that was encoded.
use mathlib.Core.List.{reverse, append_assoc, append-nil}
use skynet_slg.Prelude.{
  ℕ, zero, suc, ◌+◌, ◌-◌, ◌*◌, ◌/◌, ◌%◌, ◌≤◌, ◌<◌, ◌≡◌, refl, sym, ap, ◌∙◌, arith, ◌⊎◌, List, ◌++◌,
  take, drop, length, length-append, length-take, length-drop, take-append-drop, Option, ==_iff,
  ==-eq_false, le→leb,
}
use skynet_slg.Prelude.Bytes.{IsByte, IsBytes, All-take, All-drop}
use skynet_slg.Prelude.Slices.{take-add, take-eq_self, take-append, drop-append}
use skynet_slg.Prelude.Int.{ℤ}
use skynet_slg.Des.Block.{des_crypt}
use skynet_slg.Des.Block.Feistel.{Reverses, crypt_undone, length-des_crypt}
use skynet_slg.Des.Schedule.{des_main_ks, reverse_schedule, reverse_schedule-Reverses}
use skynet_slg.Des.Padding.{ok, padding_mode_iso7816_4, padding_mode_pkcs7, remove_padding}
use skynet_slg.Des.Padding.RoundTrip.{add_padding_found}
use skynet_slg.Des.Text.{
  crypt_blocks, des_key, optional_mode, ldesencode, ldesdecode, decode_with, cut_padding,
}

pub length-crypt_blocks :
    (sk : List ℕ) (n : ℕ) (text : List ℕ) → length (crypt_blocks sk n text) ≡ 8 * n
unfolding crypt_blocks
length-crypt_blocks sk zero text = refl
length-crypt_blocks sk (suc n) text = omega (
  arith,
  length-append (des_crypt sk (take 8 text)) (crypt_blocks sk n (drop 8 text)),
  length-des_crypt sk (take 8 text),
  length-crypt_blocks sk n (drop 8 text),
)

module _ (sk dk : List ℕ) (rev : Reverses sk dk) where
  -- The blocks of an encoded text, and one block after them, come back.
  blocks_undone :
      (n : ℕ) (text last : List ℕ)
      → IsBytes text
      → IsBytes last
      → 8 * n ≤ length text
      → length last ≡ 8
      → crypt_blocks dk (suc n) (crypt_blocks sk n text ++ des_crypt sk last)
        ≡ take (8 * n) text ++ last
  unfolding crypt_blocks
  blocks_undone zero text last hb hl h e =
      rw (take-eq_self 8 (des_crypt sk last) (omega (arith, length-des_crypt sk last)))
        (rw append-nil (crypt_undone sk dk last rev hl e))
  blocks_undone (suc n) text last hb hl h e =
      let first = des_crypt sk (take 8 text) in
      let rest = crypt_blocks sk n (drop 8 text) ++ des_crypt sk last in
      rw
        (
          append_assoc first (crypt_blocks sk n (drop 8 text)) (des_crypt sk last),
          take-append 8 first rest (length-des_crypt sk (take 8 text)),
          drop-append 8 first rest (length-des_crypt sk (take 8 text)),
          crypt_undone sk dk (take 8 text) rev (All-take IsByte 8 text hb)
              (omega (arith, length-take 8 text)),
        )
        (ap (λ l. take 8 text ++ l)
            (blocks_undone n (drop 8 text) last (All-drop IsByte 8 text hb) hl
              (omega (arith, length-drop 8 text)) e)
          ∙ sym (append_assoc (take 8 text) (take (8 * n) (drop 8 text)) last)
          ∙ ap (λ l. l ++ last) (take-add 8 (8 * n) (8 * suc n) text (omega arith)))

-- Decoding whole blocks whose padding is found.
decode_blocks :
    (key code : List ℕ) (mode : Option ℤ) (m p : ℕ)
    → length key ≡ 8
    → length code ≡ 8 * suc m
    → let buffer = crypt_blocks (reverse_schedule 16 0 (des_main_ks key)) (suc m) code in
      remove_padding (reverse buffer) (optional_mode mode) ≡ ok p
      → 0 < p
      → p ≤ 8
      → ldesdecode key code mode ≡ ok (take (8 * suc m - p) buffer)
unfolding ldesdecode decode_with cut_padding des_key
decode_blocks key code mode m p ks size found pos le =
    let whole : length code % 8 ≡ 0 = omega arith in
    let blocks : length code / 8 ≡ suc m = omega arith in
    rw ((==_iff (length key) 8).1 ks, whole, blocks, size, ==-eq_false (8 * suc m) 0 (omega arith))
      (rw (found, ==-eq_false p 0 (omega arith), le→leb p 8 le) refl)

abbrev pub IsPaddingMode : ℤ → Type 0
IsPaddingMode mode = (mode ≡ padding_mode_iso7816_4) ⊎ (mode ≡ padding_mode_pkcs7)

module _ (key text : List ℕ) (mode : Option ℤ) (ks : length key ≡ 8) (hb : IsBytes text)
    (hm : IsPaddingMode (optional_mode mode)) where
  -- Encoding a text of bytes under a key of eight bytes succeeds, the code is whole blocks of
  -- bytes, longer than the text by 1 to 8 bytes, and decoding it gives the text back.
  pub decode-encode :
      (code : List ℕ) × (ldesencode key text mode ≡ ok code)
      × (length code ≡ 8 * (length text / 8) + 8)
      × (ldesdecode key code mode ≡ ok text)
  unfolding ldesencode des_key
  decode-encode =
      let n = length text / 8 in
      let left = drop (8 * n) text in
      let offset = length text - 8 * n in
      let sk = des_main_ks key in
      let dk = reverse_schedule 16 0 sk in
      let (fill, added, eight, bytes, found) =
        add_padding_found left offset (optional_mode mode) (omega arith) (length-drop (8 * n) text)
          (All-drop IsByte (8 * n) text hb) hm in
      let code = crypt_blocks sk n text ++ des_crypt sk (left ++ fill) in
      let size : length code ≡ 8 * n + 8 = omega (
        arith,
        length-append (crypt_blocks sk n text) (des_crypt sk (left ++ fill)),
        length-crypt_blocks sk n text,
        length-des_crypt sk (left ++ fill),
      ) in
      let whole : take (8 * n) text ++ (left ++ fill) ≡ text ++ fill =
        sym (append_assoc (take (8 * n) text) left fill)
        ∙ ap (λ l. l ++ fill) (take-append-drop (8 * n) text) in
      let back : crypt_blocks dk (suc n) code ≡ text ++ fill =
        blocks_undone sk dk (reverse_schedule-Reverses sk) n text (left ++ fill) hb bytes
          (omega arith) eight
        ∙ whole in
      (
        code,
        rw ((==_iff (length key) 8).1 ks, added) refl,
        size,
        decode_blocks key code mode n (8 - offset) ks (omega arith)
              (rw (back, ← whole) (found (take (8 * n) text))) (omega arith) (omega arith)
            ∙ ap ok (rw back (take-append (8 * suc n - (8 - offset)) text fill (omega arith))),
      )
