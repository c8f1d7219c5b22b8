-- ===== src/Loader.antt =====
-- luaL_loadfilexx of src_encrypt/lauxlib.c, which loads Lua files that encrycode.lua has encrypted,
-- and luaB_loadfile and load_aux of src_encrypt/lbaselib.c, which call it.
--
-- The rest of Lua, the file system and malloc are the parameter `Host`. A Lua stack is a list, its
-- bottom first; what a call pushes last is kept apart from the stack below it.
pub mod RoundTrip
pub mod Environment
use skynet_slg.Prelude.{
  ℕ, ◌+◌, ◌-◌, ◌*◌, ◌^◌, List, [], ◌∷◌, ◌++◌, take, drop, length, get_or, get_elem?, Bool, true,
  false, ltb, leb, if◌then◌else◌, Option, none, some, ◌⊎◌, inl, inr, bit_or, replicate,
}
use skynet_slg.Prelude.Word.{shl32, u8, shr}
use skynet_slg.Prelude.Bytes.{list_eq}
use skynet_slg.Des.Padding.{Result, ok, err, DesError}
use skynet_slg.Des.Schedule.{des_main_ks}
use skynet_slg.Des.Text.{decoded_buffer, ldesdecode, ldesencode}

pub data Status : Type 0 where
  lua_ok lua_errfile lua_errmem : Status
  lua_error : ℕ → Status

-- The texts that are pushed for an error.
pub data Message : Type 0 where
  of_load cannot_open no_first_line no_memory : Message

-- A value on the Lua stack; `C` stands for compiled functions and `V` for what scripts pass.
pub data Value (C V : Type 0) : Type 0 where
  str : List ℕ → Value C V
  userdata : List ℕ → Value C V
  function : C → Value C V
  message : Message → Value C V
  arg : V → Value C V
  nil : Value C V

pub record Host (C : Type 0) : Type 0 where
  -- luaL_loadfilex in mode "t": a function, or a status other than LUA_OK.
  pub load_text : List ℕ → C ⊎ Status
  -- The bytes of a file that fopen opens.
  pub fopen : List ℕ → Option (List ℕ)
  -- Whether malloc gives a block of this size.
  pub malloc : ℕ → Bool
  -- The bytes that a fresh block of this size holds before it is written.
  pub fresh : ℕ → List ℕ
  -- luaL_loadbuffer on a text, with the name of the chunk.
  pub load_buffer : List ℕ → List ℕ → Option C

-- How luaL_loadfilexx ends: it returns a status, or raises an error of Lua.
pub data Outcome (C V : Type 0) : Type 0 where
  returned : Status → List (Value C V) → Value C V → Outcome C V
  raised_des : DesError → Outcome C V
  raised_load raised_argument : Outcome C V

-- ENCRY_KEY, "q1a2j3s4".
abbrev pub encry_key : List ℕ
encry_key = b'q' ∷ b'1' ∷ b'a' ∷ b'2' ∷ b'j' ∷ b'3' ∷ b's' ∷ b'4' ∷ []

-- FIRST_LINE, "just-funny".
abbrev pub first_line : List ℕ
first_line = b'j' ∷ b'u' ∷ b's' ∷ b't' ∷ b'-' ∷ b'f' ∷ b'u' ∷ b'n' ∷ b'n' ∷ b'y' ∷ []

abbrev small_chunk : ℕ
small_chunk = 256

-- encrySize: the four bytes as an `int` (with the sign in bit 31), converted to a 64-bit size_t.
-- Bytes that fread did not deliver are zero.
unfoldable pub encry_size : List ℕ → ℕ
encry_size buf =
    let n =
      bit_or
        (bit_or (bit_or (get_or buf 3 0) (shl32 (get_or buf 2 0) 8)) (shl32 (get_or buf 1 0) 16))
        (shl32 (get_or buf 0 0) 24) in
    if ltb n (2 ^ 31) then n else n + (2 ^ 64 - 2 ^ 32)

-- The second fread: the bytes that the file does not have are left as malloc gave them.
unfoldable pub read_block : {C : Type 0} → Host C → ℕ → List ℕ → List ℕ
read_block host size rest = let got = take size rest in got ++ drop (length got) (host.fresh size)

-- What a script gets from `loadfile`.
pub data LoadResult (C V : Type 0) : Type 0 where
  loaded : Value C V → Option (Value C V) → LoadResult C V
  failed : Value C V → LoadResult C V
  raised : Outcome C V → LoadResult C V

-- load_aux; the environment becomes the first upvalue of the function on top.
unfoldable pub load_aux : {C V : Type 0} → Outcome C V → ℕ → LoadResult C V
load_aux (returned lua_ok stack top) envidx =
    if leb 1 envidx
    then loaded top (get_elem? (stack ++ top ∷ []) (envidx - 1))
    else loaded top none
load_aux (returned s stack top) envidx = failed top
load_aux r envidx = raised r

module _ {C V : Type 0} (host : Host C) where
  open host use {load_text, fopen, malloc, load_buffer}

  -- luaL_checklstring at an index counted from 1.
  unfoldable pub string_at : List (Value C V) → ℕ → Option (List ℕ)
  string_at stack i = elim (get_elem? stack (i - 1)) [
    | none ↦ none
    | some v ↦ elim v [ str s ↦ some s | _ ↦ none ]
  ]

  unfoldable pub is_userdata : List (Value C V) → ℕ → Bool
  is_userdata stack i = elim (get_elem? stack (i - 1)) [
    | none ↦ false
    | some v ↦ elim v [ userdata s ↦ true | _ ↦ false ]
  ]

  -- The stack after ldesdecode has pushed its result `out`: below it lies the buffer that it decodes
  -- to, a userdata, if the data are longer than SMALL_CHUNK.
  unfoldable pub decoded_stack : List ℕ → List ℕ → List (Value C V)
  decoded_stack bytes out =
      let below : List (Value C V) = str encry_key ∷ str bytes ∷ [] in
      if ltb small_chunk (length bytes)
      then below ++ userdata (decoded_buffer (des_main_ks encry_key) bytes) ∷ str out ∷ []
      else below ++ str out ∷ []

  -- From the decryption on: `bytes` is encryptedData.
  unfoldable pub load_decrypted : List ℕ → List ℕ → Outcome C V
  load_decrypted filename bytes = elim (ldesdecode encry_key bytes none) [
    | err e ↦ raised_des e
    | ok out ↦
        let stack = decoded_stack bytes out in
        elim (if is_userdata stack 3 then string_at stack 4 else string_at stack 3) [
          | none ↦ raised_argument
          | some s ↦ elim (load_buffer s filename) [
            | none ↦ raised_load
            | some c ↦ returned lua_ok stack (function c)
          ]
        ]
  ]

  -- From the comparison of the first line on; `contents` is the file, `status` and `stack` what
  -- luaL_loadfilex left.
  unfoldable pub load_encrypted : List ℕ → List ℕ → Status → List (Value C V) → Outcome C V
  load_encrypted filename contents status stack =
      if list_eq (take 10 contents) first_line
      then (let rest = drop 10 contents in
          let size = encry_size (take 4 rest) in
          if malloc size
          then load_decrypted filename (read_block host size (drop 4 rest))
          else returned lua_errmem (stack ++ message of_load ∷ []) (message no_memory))
      else returned status stack (message of_load)

  unfoldable pub load_filexx : List ℕ → List (Value C V) → Outcome C V
  load_filexx filename stack = elim (load_text filename) [
    | inl c ↦ returned lua_ok stack (function c)
    | inr status ↦ elim (fopen filename) [
      | none ↦ returned lua_errfile (stack ++ message of_load ∷ []) (message cannot_open)
      | some contents ↦
          if ltb (length contents) 10
          then returned lua_errfile (stack ++ message of_load ∷ []) (message no_first_line)
          else load_encrypted filename contents status stack
    ]
  ]

  -- luaB_loadfile on its arguments: a file name, a mode and perhaps an environment.
  unfoldable pub load_file : List ℕ → List (Value C V) → LoadResult C V
  load_file filename rest =
      let stack : List (Value C V) = str filename ∷ rest in
      let env : ℕ = if leb 3 (length stack) then 3 else 0 in
      load_aux (load_filexx filename stack) env

-- What encrycode.lua writes for a text whose code is `code`: the first line, the length as a
-- big-endian number of four bytes, and the code.
unfoldable pub encrypted_file : List ℕ → List ℕ
encrypted_file code =
    let n = length code in
    first_line ++ (u8 (shr n 24) ∷ u8 (shr n 16) ∷ u8 (shr n 8) ∷ u8 n ∷ []) ++ code
