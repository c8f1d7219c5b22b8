-- ===== src/Examples/Loader.antt =====
-- luaL_loadfilexx: its theorems at a concrete host and file.
use skynet_slg.Prelude.{
  ℕ, ◌≡◌, refl, arith, List, [], ◌∷◌, length, replicate, true, ltb, if◌then◌else◌, none, some, inl,
  inr,
}
use skynet_slg.Des.Block.{des_crypt}
use skynet_slg.Des.Schedule.{des_main_ks}
use skynet_slg.Des.Padding.{ok, add_padding}
use skynet_slg.Des.Text.{decoded_buffer, ldesencode, crypt_blocks, des_key}
use skynet_slg.Loader.{
  Host, lua_ok, lua_error, returned, function, str, userdata, arg, nil, encry_key, encrypted_file,
  decoded_stack, load_filexx, load_file, loaded,
}
use skynet_slg.Loader.RoundTrip.{loads_encrypted}
use skynet_slg.Loader.Environment.{text-environment, encrypted-environment}

-- "return 1"
abbrev src : List ℕ
src = 0x72 ∷ 0x65 ∷ 0x74 ∷ 0x75 ∷ 0x72 ∷ 0x6e ∷ 0x20 ∷ 0x31 ∷ []

-- Its encryption under ENCRY_KEY.
abbrev code : List ℕ
code = 238 ∷ 11 ∷ 219 ∷ 2 ∷ 132 ∷ 2 ∷ 185 ∷ 76 ∷ 161 ∷ 177 ∷ 159 ∷ 59 ∷ 166 ∷ 120 ∷ 177 ∷ 26 ∷ []

src-code : ldesencode encry_key src none ≡ ok code
unfolding ldesencode crypt_blocks des_key des_crypt des_main_ks add_padding
src-code = refl

-- A host with one encrypted file, whatever its name; a chunk is compiled to its text.
abbrev host : Host (List ℕ)
host = record {
  load_text = λ filename. inr (lua_error 3);
  fopen = λ filename. some (encrypted_file code);
  malloc = λ size. true;
  fresh = λ size. replicate size 0;
  load_buffer = λ text name. some text;
}

-- A host on which every file is Lua text.
abbrev text_host : Host (List ℕ)
text_host = record host { load_text = λ filename. inl src }

loads_encrypted_example :
    load_filexx {V = ℕ} host (1 ∷ []) (str (1 ∷ []) ∷ [])
    ≡ returned lua_ok (decoded_stack host code src) (function src)
loads_encrypted_example =
    loads_encrypted host (1 ∷ []) src code (str (1 ∷ []) ∷ []) (lua_error 3) src (omega arith)
      src-code (omega arith) refl refl refl refl refl

text-environment_example :
    load_file {V = ℕ} text_host (1 ∷ []) (nil ∷ arg 7 ∷ []) ≡ loaded (function src) (some (arg 7))
text-environment_example = text-environment text_host (1 ∷ []) nil 7 src refl

encrypted-environment_example :
    load_file {V = ℕ} host (1 ∷ []) (nil ∷ arg 7 ∷ [])
    ≡ loaded (function src) (
        some (
          if ltb 256 (length code)
          then userdata (decoded_buffer (des_main_ks encry_key) code)
          else str src))
encrypted-environment_example =
    encrypted-environment host (1 ∷ []) src code nil 7 (lua_error 3) src (omega arith) src-code
      (omega arith) refl refl refl refl refl
