-- ===== src/Examples/Des.antt =====
-- The DES code of src_encrypt/lauxlib.c: test vectors, and its theorems at concrete texts.
use skynet_slg.Prelude.{
  ℕ, ◌+◌, ◌*◌, ◌/◌, ◌≡◌, refl, inl, ◌≤◌, ◌<◌, arith, List, [], ◌∷◌, length, none, some, replicate,
}
use skynet_slg.Prelude.Int.{pos}
use skynet_slg.Des.Block.{des_crypt}
use skynet_slg.Des.Schedule.{des_main_ks, reverse_schedule}
use skynet_slg.Des.Padding.{
  ok, err, ◌>>=◌, undefined, padding_remove_pkcs7, add_padding, remove_padding,
}
use skynet_slg.Des.Text.{ldesencode, ldesdecode, crypt_blocks, des_key, decode_with, cut_padding}
use skynet_slg.Des.Text.RoundTrip.{decode-encode}
use skynet_slg.Des.Block.{Halves, halves}
use skynet_slg.Des.Block.Feistel.{Reverses, crypt_undone}
use skynet_slg.Des.Schedule.{reverse_schedule-Reverses}
use skynet_slg.Des.Text.Errors.{pkcs7_overrun, decode_bounds}

abbrev key : List ℕ
key = 0x13 ∷ 0x34 ∷ 0x57 ∷ 0x79 ∷ 0x9b ∷ 0xbc ∷ 0xdf ∷ 0xf1 ∷ []

abbrev block : List ℕ
block = 0x01 ∷ 0x23 ∷ 0x45 ∷ 0x67 ∷ 0x89 ∷ 0xab ∷ 0xcd ∷ 0xef ∷ []

-- A published test vector of DES.
known_vector :
    des_crypt (des_main_ks key) block ≡ 0x85 ∷ 0xe8 ∷ 0x13 ∷ 0x54 ∷ 0x0f ∷ 0x0a ∷ 0xb4 ∷ 0x05 ∷ []
unfolding des_crypt des_main_ks
known_vector = refl

abbrev text : List ℕ
text = 10 ∷ 20 ∷ 30 ∷ 40 ∷ 50 ∷ 60 ∷ 70 ∷ 80 ∷ 90 ∷ 0 ∷ []

-- The text encoded in the first mode.
abbrev code : List ℕ
code = 51 ∷ 191 ∷ 156 ∷ 155 ∷ 136 ∷ 16 ∷ 21 ∷ 221 ∷ 209 ∷ 111 ∷ 52 ∷ 217 ∷ 172 ∷ 2 ∷ 26 ∷ 12 ∷ []

round_trip_runs :
    (ldesencode key text (some (pos 1)) >>= λ code. ldesdecode key code (some (pos 1))) ≡ ok text
unfolding ldesencode ldesdecode crypt_blocks des_key decode_with cut_padding des_crypt des_main_ks
    reverse_schedule add_padding remove_padding
round_trip_runs = refl

decode-encode_example :
    (code : List ℕ) × (ldesencode key text none ≡ ok code)
    × (length code ≡ 8 * (length text / 8) + 8)
    × (ldesdecode key code none ≡ ok text)
decode-encode_example = decode-encode key text none refl (omega arith) (inl refl)

pkcs7_overrun_example : padding_remove_pkcs7 (replicate 8 0xff) ≡ err undefined
pkcs7_overrun_example = pkcs7_overrun 8 0xff (omega arith) (omega arith)

abbrev words : Halves
words = halves 0x01234567 0x89abcdef

abbrev schedule : List ℕ
schedule = replicate 32 0x0f0f0f0f

reverse_schedule-Reverses_example : Reverses schedule (reverse_schedule 16 0 schedule)
reverse_schedule-Reverses_example = reverse_schedule-Reverses schedule

crypt_undone_example : des_crypt (reverse_schedule 16 0 schedule) (des_crypt schedule block) ≡ block
crypt_undone_example =
    crypt_undone schedule (reverse_schedule 16 0 schedule) block
      (reverse_schedule-Reverses schedule) (omega arith) refl

code-text : ldesdecode key code none ≡ ok text
unfolding ldesdecode crypt_blocks des_key decode_with cut_padding des_crypt des_main_ks
    reverse_schedule remove_padding
code-text = refl

decode_bounds_example : (length text < length code) × (length code ≤ length text + 8)
decode_bounds_example = decode_bounds key code text none code-text
