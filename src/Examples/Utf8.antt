-- ===== src/Examples/Utf8.antt =====
-- lua-utf8.c: its theorems at concrete runes and strings.
use skynet_slg.Prelude.{ℕ, ◌≡◌, arith, List, [], ◌∷◌, length, some}
use skynet_slg.Utf8.{◌>>=◌, to_utf8, to_utf32, size_utf8, utf8_len}
use skynet_slg.Utf8.RoundTrip.{toutf32-toutf8}
use skynet_slg.Utf8.Length.{len-toutf32}

abbrev runes : List ℕ
runes = 0x41 ∷ 0xe9 ∷ 0x6c49 ∷ 0x1f600 ∷ []

toutf32-toutf8_example :
    (s : List ℕ) × (to_utf8 runes ≡ some s)
    × (size_utf8 runes ≡ some (length s))
    × (to_utf32 s ≡ some runes)
    × (utf8_len s ≡ some (length runes))
toutf32-toutf8_example = toutf32-toutf8 runes (omega arith)

-- A string that ends inside a rune.
abbrev broken : List ℕ
broken = 0x41 ∷ 0xe6 ∷ 0xb1 ∷ []

len-toutf32_example : utf8_len broken ≡ (to_utf32 broken >>= λ found. some (length found))
len-toutf32_example = len-toutf32 broken

abbrev too_large : List ℕ
too_large = 0x41 ∷ 0x110000 ∷ []
