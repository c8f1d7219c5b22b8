-- ===== src/Loader/Environment.antt =====
-- What luaB_loadfile makes of its third argument, the environment of the loaded function.
use skynet_slg.Prelude.{
  ℕ, ◌^◌, ◌<◌, ◌≡◌, refl, List, [], ◌∷◌, length, ltb, Bool-cases, true, if◌then◌else◌, some, none,
  inl, inr,
}
use skynet_slg.Prelude.Bytes.{IsBytes}
use skynet_slg.Des.Padding.{ok}
use skynet_slg.Des.Schedule.{des_main_ks}
use skynet_slg.Des.Text.{decoded_buffer, ldesencode}
use skynet_slg.Loader.{
  Host, Value, Status, str, userdata, function, arg, encry_key, encrypted_file, decoded_stack,
  load_filexx, load_aux, load_file, loaded,
}
use skynet_slg.Loader.RoundTrip.{loads_encrypted}

module _ {C V : Type 0} (host : Host C) where
  open host use {load_text, fopen, malloc, fresh, load_buffer}

  -- A file that is Lua text gets the environment that the script passes.
  pub text-environment :
      (filename : List ℕ) (mode : Value C V) (env : V) (c : C)
      → load_text filename ≡ inl c
      → load_file host filename (mode ∷ arg env ∷ []) ≡ loaded (function c) (some (arg env))
  unfolding load_file load_filexx load_aux
  text-environment filename mode env c text = rw (text, load_filexx) refl

  module _ (filename src code : List ℕ) (mode : Value C V) (env : V) (status : Status) (c : C)
      (hb : IsBytes src) (enc : ldesencode encry_key src none ≡ ok code)
      (size : length code < 2 ^ 31) (no_text : load_text filename ≡ inr status)
      (opened : fopen filename ≡ some (encrypted_file code)) (room : malloc (length code) ≡ true)
      (held : length (fresh (length code)) ≡ length code)
      (made : load_buffer src filename ≡ some c) where
    -- Under the conditions of loads_encrypted: the function of an encrypted file gets for its
    -- environment what lies third on the stack of the decryption, since lua_settop(L, 0) has dropped
    -- the arguments. That is the decrypted text, a string, or, when the code is longer than 256
    -- bytes, a userdata, the buffer of ldesdecode with all blocks of the code decrypted. The `env` that
    -- the script passes is not used.
    pub encrypted-environment :
        load_file host filename (mode ∷ arg env ∷ [])
        ≡ loaded (function c) (
            some (
              if ltb 256 (length code)
              then userdata (decoded_buffer (des_main_ks encry_key) code)
              else str src))
    unfolding load_file load_aux decoded_stack
    encrypted-environment =
        rw
          (
            loads_encrypted host filename src code (str filename ∷ mode ∷ arg env ∷ []) status c hb
                enc size no_text opened room held made,
            load_aux,
          )
          (elim (Bool-cases (ltb 256 (length code))) [
            | inl long ↦ rw long refl
            | inr short ↦ rw short refl
          ])
