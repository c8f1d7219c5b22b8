-- ===== src/Loader/RoundTrip.antt =====
-- A file that encrycode.lua writes is loaded as the text that was encrypted.
use mathlib.Core.List.{append-nil}
use skynet_slg.Prelude.{
  ℕ, ◌+◌, ◌*◌, ◌/◌, ◌%◌, ◌^◌, ◌<◌, ◌≡◌, refl, arith, List, [], ◌∷◌, length, true, ltb, Bool-cases,
  le→ltb, none, some, if◌then◌else◌, inl, inr,
}
use skynet_slg.Prelude.Bits.{bit_or_fields_high}
use skynet_slg.Prelude.Bytes.{IsBytes}
use skynet_slg.Prelude.Slices.{take-eq_self, drop-eq_nil}
use skynet_slg.Des.Padding.{ok}
use skynet_slg.Des.Text.{ldesencode, ldesdecode}
use skynet_slg.Des.Text.RoundTrip.{decode-encode}
use skynet_slg.Loader.{
  Host, Value, Status, lua_ok, returned, function, encry_key, encry_size, is_userdata, string_at,
  decoded_stack, load_decrypted, read_block, load_encrypted, load_filexx, encrypted_file,
}

-- The size in the header is read back.
encry_size-encrypted :
    (n : ℕ)
    → n < 2 ^ 31
    → encry_size (n / 2 ^ 24 % 256 ∷ n / 2 ^ 16 % 256 ∷ n / 2 ^ 8 % 256 ∷ n % 256 ∷ []) ≡ n
unfolding encry_size
encry_size-encrypted n h = ground (
  arith,
  bit_or_fields_high 8 (n / 2 ^ 8 % 256) (n % 256) (omega arith),
  bit_or_fields_high 16 (n / 2 ^ 16 % 256) (n / 2 ^ 8 % 256 * 2 ^ 8 + n % 256) (omega arith),
  bit_or_fields_high 24 (n / 2 ^ 24 % 256)
      (n / 2 ^ 16 % 256 * 2 ^ 16 + n / 2 ^ 8 % 256 * 2 ^ 8 + n % 256) (omega arith),
)

-- The block that is read holds the code, and nothing of what malloc left.
read_block-exact :
    {C : Type 0} (host : Host C) (code : List ℕ)
    → length (host.fresh (length code)) ≡ length code
    → read_block host (length code) code ≡ code
unfolding read_block
read_block-exact host code e =
    rw
      (
        take-eq_self (length code) code (omega arith),
        drop-eq_nil (length code) (host.fresh (length code)) (omega arith),
      )
      (append-nil code)

module _ {C : Type 0} (V : Type 0) (host : Host C) where
  -- Whether or not the buffer lies below it, the text that was decoded is found.
  pub found_decoded :
      (code src : List ℕ)
      → (let stack = decoded_stack {V = V} host code src in
          if is_userdata host stack 3 then string_at host stack 4 else string_at host stack 3)
        ≡ some src
  unfolding is_userdata string_at decoded_stack
  found_decoded code src = elim (Bool-cases (ltb 256 (length code))) [
    | inl long ↦ rw long refl
    | inr short ↦ rw short refl
  ]

module _ {C V : Type 0} (host : Host C) where
  open host use {load_text, fopen, malloc, fresh, load_buffer}

  decoded-string :
      (code src : List ℕ) (c : C) (filename : List ℕ)
      → ldesdecode encry_key code none ≡ ok src
      → load_buffer src filename ≡ some c
      → load_decrypted {V = V} host filename code
        ≡ returned lua_ok (decoded_stack host code src) (function c)
  unfolding load_decrypted
  decoded-string code src c filename dec made =
      rw (dec, load_decrypted, found_decoded V host code src, made) refl

  -- Let `code` be the encryption of the bytes `src` under ENCRY_KEY, shorter than 2 ^ 31. If the
  -- file holds what encrycode.lua writes for it, is no Lua text, malloc succeeds with a block of that
  -- size, and luaL_loadbuffer makes a function of `src`, then luaL_loadfilexx returns LUA_OK and
  -- that function.
  pub loads_encrypted :
      (filename src code : List ℕ) (stack : List (Value C V)) (status : Status) (c : C)
      → IsBytes src
      → ldesencode encry_key src none ≡ ok code
      → length code < 2 ^ 31
      → load_text filename ≡ inr status
      → fopen filename ≡ some (encrypted_file code)
      → malloc (length code) ≡ true
      → length (fresh (length code)) ≡ length code
      → load_buffer src filename ≡ some c
      → load_filexx host filename stack ≡ returned lua_ok (decoded_stack host code src) (function c)
  unfolding load_filexx load_encrypted encrypted_file
  loads_encrypted filename src code stack status c hb enc size no_text opened room held made =
      let (code', enc', n, dec) = decode-encode encry_key src none refl hb (inl refl) in
      let same : code ≡ code' = cc in
      let back : ldesdecode encry_key code none ≡ ok src = rw same dec in
      rw
        (
          no_text,
          load_filexx,
          opened,
          le→ltb (length (encrypted_file code)) 10 (omega arith),
          encry_size-encrypted (length code) size,
          room,
          read_block-exact host code held,
        )
        (decoded-string code src c filename back made)
