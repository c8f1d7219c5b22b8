-- ===== src/NetBytes.antt =====
-- 3rd/src-c/lutil.c: a uint32_t as four bytes in network order, and the clock as milliseconds.
use skynet_slg.Prelude.{
  ℕ, ◌+◌, ◌*◌, ◌/◌, ◌%◌, ◌^◌, ◌<◌, ◌≡◌, refl, ◌∙◌, ◌-◌, arith, List, [], ◌∷◌, ◌++◌, get_elem?,
  length, Option, some, none, ap, bit_or, bit_and,
}
use skynet_slg.Prelude.Word.{u8, u32, shl32, shr}
use skynet_slg.Prelude.Bytes.{IsBytes, bytes_as_sum}
use skynet_slg.Prelude.Bits.{bit_and_mask}

infixl 5 ◌>>=◌
abbrev pub ◌>>=◌ {ℓ κ} : {A : Type ℓ} {B : Type κ} → Option A → (A → Option B) → Option B
none >>= f = none
some a >>= f = f a

-- _netbytes2uint32. A Lua string has a zero byte behind its last one; `none` is a read behind
-- that, which C leaves undefined.
unfoldable pub netbytes2uint32 : List ℕ → Option ℕ
netbytes2uint32 str = do
  let s = str ++ 0 ∷ []
  a ← get_elem? s 0
  b ← get_elem? s 1
  c ← get_elem? s 2
  d ← get_elem? s 3
  some (bit_or (bit_or (bit_or (shl32 a 24) (shl32 b 16)) (shl32 c 8)) d)

-- _uint322netbytes of a Lua integer, which the conversion to uint32_t cuts to 32 bits.
unfoldable pub uint322netbytes : ℕ → List ℕ
uint322netbytes n = let i = u32 n in u8 (shr i 24) ∷ u8 (shr i 16) ∷ u8 (shr i 8) ∷ u8 i ∷ []

-- Reading back four bytes in network order gives the integer modulo 2 ^ 32, whatever follows.
pub netbytes2uint32-uint322netbytes :
    (n : ℕ) (rest : List ℕ) → netbytes2uint32 (uint322netbytes n ++ rest) ≡ some (n % 2 ^ 32)
unfolding netbytes2uint32 uint322netbytes
netbytes2uint32-uint322netbytes n rest = ap some (
    bytes_as_sum (u8 (shr (u32 n) 24)) (u8 (shr (u32 n) 16)) (u8 (shr (u32 n) 8)) (u8 (u32 n))
      (omega arith) (omega arith) (omega arith) (omega arith)
    ∙ omega arith)

-- Writing what was read from four bytes gives those bytes.
pub uint322netbytes-netbytes2uint32 :
    (a b c d : ℕ)
    → IsBytes (a ∷ b ∷ c ∷ d ∷ [])
    → (netbytes2uint32 (a ∷ b ∷ c ∷ d ∷ []) >>= λ n. some (uint322netbytes n))
      ≡ some (a ∷ b ∷ c ∷ d ∷ [])
unfolding netbytes2uint32 uint322netbytes
uint322netbytes-netbytes2uint32 a b c d h =
    ground (arith, bytes_as_sum a b c d (omega arith) (omega arith) (omega arith) (omega arith))

-- The length of the string is not checked: of one shorter than three bytes _netbytes2uint32 reads
-- beyond the end.
pub netbytes2uint32-short : (s : List ℕ) → length s < 3 → netbytes2uint32 s ≡ none
unfolding netbytes2uint32
netbytes2uint32-short [] h = refl
netbytes2uint32-short (a ∷ []) h = refl
netbytes2uint32-short (a ∷ b ∷ []) h = refl
netbytes2uint32-short (a ∷ b ∷ c ∷ s) h = absurd (omega arith)

-- _l_gettimeofday: a number of milliseconds below 2 ^ 31, of a time in seconds and microseconds.
unfoldable pub gettimeofday : ℕ → ℕ → ℕ
gettimeofday sec usec = u32 (bit_and ((sec * 1000 % 2 ^ 64 + usec / 1000) % 2 ^ 64) 0x7fffffff)

-- _l_isleep: the microseconds that it sleeps, `(ms << 10) - (ms << 4) - (ms << 3)` in 32 bits.
unfoldable pub isleep : ℕ → ℕ
isleep ms =
    let m = u32 ms in ((shl32 m 10 + 2 ^ 32 - shl32 m 4) % 2 ^ 32 + 2 ^ 32 - shl32 m 3) % 2 ^ 32

-- isleep asks for 1000 microseconds for each millisecond, modulo 2 ^ 32.
pub isleep_lem : (ms : ℕ) → isleep ms ≡ 1000 * ms % 2 ^ 32
unfolding isleep
isleep_lem ms = omega arith

-- The clock is the time in milliseconds modulo 2 ^ 31.
pub gettimeofday_lem :
    (sec usec : ℕ)
    → sec * 1000 + usec / 1000 < 2 ^ 64
    → gettimeofday sec usec ≡ (sec * 1000 + usec / 1000) % 2 ^ 31
unfolding gettimeofday
gettimeofday_lem sec usec h =
    omega (arith, bit_and_mask 31 ((sec * 1000 % 2 ^ 64 + usec / 1000) % 2 ^ 64))
