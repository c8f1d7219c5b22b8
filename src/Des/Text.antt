-- ===== src/Des/Text.antt =====
-- ldesencode and ldesdecode of src_encrypt/lauxlib.c. The Lua strings are lists of bytes; a length
-- is a number, so the code is modelled for texts of fewer than 2 ^ 31 bytes, where its `int`s hold
-- the lengths.
pub mod RoundTrip
pub mod Errors
use mathlib.Core.List.{reverse}
use mathlib.Core.Option
use skynet_slg.Prelude.{
  ℕ, zero, suc, ◌+◌, ◌-◌, ◌*◌, ◌/◌, ◌%◌, List, [], ◌++◌, take, drop, length, Bool, not, ◌&&◌, ◌||◌,
  ◌==◌, ltb, leb, if◌then◌else◌, Option,
}
use skynet_slg.Prelude.Int.{ℤ, int32}
use skynet_slg.Des.Block.{des_crypt}
use skynet_slg.Des.Schedule.{des_main_ks, reverse_schedule}
use skynet_slg.Des.Padding.{
  Result, ok, err, ◌>>=◌, ◌>>◌, guard, invalid_key_size, invalid_text_length, invalid_text,
  padding_mode_iso7816_4, add_padding, remove_padding,
}

-- The loops over whole blocks, `n` of them: `des_crypt(SK, text+i, buffer+i)` for i = 0, 8, ....
unfoldable pub crypt_blocks : List ℕ → ℕ → List ℕ → List ℕ
crypt_blocks sk zero text = []
crypt_blocks sk (suc n) text = des_crypt sk (take 8 text) ++ crypt_blocks sk n (drop 8 text)

unfoldable pub des_key : List ℕ → Result (List ℕ)
des_key key = do guard (length key == 8) (invalid_key_size (length key)); ok (des_main_ks key)

-- `int padding_mode = luaL_optinteger(L, 3, PADDING_MODE_ISO7816_4)`: the integer of Lua is cut to
-- 32 bits.
abbrev pub optional_mode : Option ℤ → ℤ
optional_mode mode = int32 (Option.get_or mode padding_mode_iso7816_4)

-- The blocks of the text are encrypted one by one, then what is left of it with its padding.
unfoldable pub ldesencode : List ℕ → List ℕ → Option ℤ → Result (List ℕ)
ldesencode key text mode = do
  sk ← des_key key
  let n = length text / 8
  let i = 8 * n
  tail ← add_padding (drop i text) (length text - i) (optional_mode mode)
  ok (crypt_blocks sk n text ++ des_crypt sk tail)

-- The end of ldesdecode: what is left of the buffer, `padding` bytes being taken off.
unfoldable pub cut_padding : ℕ → List ℕ → ℕ → Result (List ℕ)
cut_padding textsz buffer padding = do
  guard (not (padding == 0) && leb padding 8) invalid_text
  ok (take (textsz - padding) buffer)

-- `buffer` of ldesdecode after its loop, under the schedule `esk` of the key: as many bytes as the
-- text, with the padding.
abbrev pub decoded_buffer : List ℕ → List ℕ → List ℕ
decoded_buffer esk text = crypt_blocks (reverse_schedule 16 0 esk) (length text / 8) text

-- ldesdecode from its check of the length on, with the schedule of the key.
unfoldable pub decode_with : List ℕ → ℤ → List ℕ → Result (List ℕ)
decode_with text mode esk =
    let textsz = length text in
    let buffer = decoded_buffer esk text in
    guard (textsz % 8 == 0 && not (textsz == 0)) (invalid_text_length textsz)
    >> (remove_padding (reverse buffer) mode >>= cut_padding textsz buffer)

unfoldable pub ldesdecode : List ℕ → List ℕ → Option ℤ → Result (List ℕ)
ldesdecode key text mode = des_key key >>= decode_with text (optional_mode mode)
