-- ===== src/Des/Padding.antt =====
-- The paddings of src_encrypt/lauxlib.c, and the errors that the DES functions raise.
pub mod RoundTrip
use skynet_slg.Prelude.{ℕ, zero, suc, ◌+◌, ◌-◌, ◌^◌, List, [], ◌∷◌, ◌++◌, take, replicate}
use skynet_slg.Prelude.{Bool, true, false, ◌==◌, ltb, leb, if◌then◌else◌, ◌≡◌, refl}
use skynet_slg.Prelude.Int.{ℤ, pos, negsuc}
use skynet_slg.Prelude.Word.{u8}

-- What luaL_error reports, with its argument; `undefined` stands for a read outside a buffer,
-- which C leaves undefined.
pub data DesError : Type 0 where
  invalid_key_size : ℕ → DesError
  invalid_padding_mode : ℤ → DesError
  invalid_padding : DesError
  invalid_text_length : ℕ → DesError
  invalid_text : DesError
  undefined : DesError

-- A value, or the error that ends the call.
pub data Result {ℓ} (Val : Type ℓ) : Type ℓ where
  err : DesError → Result Val
  ok : Val → Result Val

-- A check of an argument.
abbrev pub guard : Bool → DesError → Result (Unit {0})
guard false error = err error
guard true error = ok tt

infixl 5 ◌>>=◌ ◌>>◌
abbrev pub ◌>>=◌ {ℓ κ} : {X : Type ℓ} {Y : Type κ} → Result X → (X → Result Y) → Result Y
err error >>= next = err error
ok value >>= next = next value

abbrev pub ◌>>◌ {ℓ} : {Y : Type ℓ} → Result (Unit {0}) → Result Y → Result Y
first >> second = first >>= λ checked. second

-- What passes a check.
pub guard-eq-ok :
    (test : Bool) (error : DesError) {u : Unit {0}} → guard test error ≡ ok u → test ≡ true
guard-eq-ok false error run = cc
guard-eq-ok true error run = refl

module _ {ℓ κ} {X : Type ℓ} {Y : Type κ} where
  -- In a chain that succeeds the first step does.
  pub bind-eq-ok :
      {result : Y} (step : Result X) (next : X → Result Y)
      → (step >>= next) ≡ ok result
      → (value : X) × (step ≡ ok value) × (next value ≡ ok result)
  bind-eq-ok (err error) next run = cc
  bind-eq-ok (ok value) next run = (value, refl, run)

-- `buf[offset] = 0x80` and zeros up to the end of the block.
unfoldable pub padding_add_iso7816_4 : ℕ → List ℕ
padding_add_iso7816_4 offset = 0x80 ∷ replicate (7 - offset) 0

-- The loop of padding_remove_iso7816_4: `n` rounds are left, and `last` lists the buffer from
-- the pointer towards its start.
unfoldable pub remove_zeros : ℕ → List ℕ → ℕ → Result ℕ
remove_zeros zero last padding = ok 0
remove_zeros (suc n) [] padding = err undefined
remove_zeros (suc n) (b ∷ last) padding =
    let rest = remove_zeros n last (padding + 1) in
    if b == 0 then rest else (if b == 0x80 then ok padding else ok 0)

unfoldable pub padding_remove_iso7816_4 : List ℕ → Result ℕ
unfolding remove_zeros
padding_remove_iso7816_4 last = remove_zeros 8 last 1

unfoldable pub padding_add_pkcs7 : ℕ → List ℕ
padding_add_pkcs7 offset = replicate (8 - offset) (u8 (8 - offset))

-- The loop of padding_remove_pkcs7, with `n` rounds left.
unfoldable pub remove_copies : ℕ → ℕ → List ℕ → Result ℕ
remove_copies padding zero last = ok padding
remove_copies padding (suc n) [] = err undefined
remove_copies padding (suc n) (b ∷ last) =
    let rest = remove_copies padding n last in if b == padding then rest else ok 0

unfoldable pub padding_remove_pkcs7 : List ℕ → Result ℕ
unfolding remove_copies
padding_remove_pkcs7 [] = err undefined
padding_remove_pkcs7 (padding ∷ last) = remove_copies padding (padding - 1) last

abbrev pub padding_mode_iso7816_4 : ℤ
padding_mode_iso7816_4 = pos 0

abbrev pub padding_mode_pkcs7 : ℤ
padding_mode_pkcs7 = pos 1

unfoldable pub check_padding_mode : ℤ → Result (Unit {0})
check_padding_mode (pos m) = guard (ltb m 2) (invalid_padding_mode (pos m))
check_padding_mode (negsuc m) = err (invalid_padding_mode (negsuc m))

-- padding_add_func and padding_remove_func, at a mode that has been checked.
unfoldable pub padding_add_func : ℤ → ℕ → List ℕ
unfolding padding_add_iso7816_4 padding_add_pkcs7
padding_add_func (pos zero) offset = padding_add_iso7816_4 offset
padding_add_func _ offset = padding_add_pkcs7 offset

unfoldable pub padding_remove_func : ℤ → List ℕ → Result ℕ
unfolding padding_remove_iso7816_4 padding_remove_pkcs7
padding_remove_func (pos zero) last = padding_remove_iso7816_4 last
padding_remove_func _ last = padding_remove_pkcs7 last

-- The last block: `offset` bytes of `src` and the padding.
unfoldable pub add_padding : List ℕ → ℕ → ℤ → Result (List ℕ)
unfolding check_padding_mode padding_add_func
add_padding src offset mode = do
  check_padding_mode mode
  guard (ltb offset 8) invalid_padding
  ok (take offset src ++ padding_add_func mode offset)

unfoldable pub remove_padding : List ℕ → ℤ → Result ℕ
unfolding check_padding_mode padding_remove_func
remove_padding last mode = do check_padding_mode mode; padding_remove_func mode last
