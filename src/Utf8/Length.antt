-- ===== src/Utf8/Length.antt =====
-- utf8.len against utf8.toutf32 on arbitrary bytes, and the fuel of their loops.
use skynet_slg.Prelude.{
  ℕ, zero, suc, ◌+◌, ◌<◌, ◌≡◌, inl, inr, refl, arith, List, [], ◌∷◌, drop, length, length-drop,
  some, Bool-cases, ◌==◌,
}
use skynet_slg.Utf8.{◌>>=◌, steps, to_utf32_loop, to_utf32, len_loop, utf8_len}

len_loop-to_utf32_loop :
    (fuel : ℕ) (str : List ℕ)
    → len_loop fuel str ≡ (to_utf32_loop fuel str >>= λ runes. some (length runes))
unfolding len_loop to_utf32_loop
len_loop-to_utf32_loop zero str = refl
len_loop-to_utf32_loop (suc fuel) [] = refl
len_loop-to_utf32_loop (suc fuel) (c ∷ str) =
    ground (arith, len_loop-to_utf32_loop fuel (drop (steps c) (c ∷ str)))

-- On every string utf8.len is the number of runes that utf8.toutf32 finds, and fails where it
-- fails.
pub len-toutf32 : (str : List ℕ) → utf8_len str ≡ (to_utf32 str >>= λ runes. some (length runes))
unfolding utf8_len to_utf32
len-toutf32 str = len_loop-to_utf32_loop (length str + 1) str

-- More fuel than bytes is enough: the loop does not depend on how much more.
pub to_utf32_loop-fuel :
    (f g : ℕ) (str : List ℕ)
    → length str < f
    → length str < g
    → to_utf32_loop f str ≡ to_utf32_loop g str
unfolding to_utf32_loop
to_utf32_loop-fuel zero g str p q = absurd (omega arith)
to_utf32_loop-fuel (suc f) zero str p q = absurd (omega arith)
to_utf32_loop-fuel (suc f) (suc g) [] p q = refl
to_utf32_loop-fuel (suc f) (suc g) (c ∷ str) p q = elim (Bool-cases (steps c == 0)) [
  | inl stop ↦ rw stop refl
  | inr go ↦
      let shorter : length (drop (steps c) (c ∷ str)) < suc (length str) =
        ground (arith, length-drop (steps c) (c ∷ str)) in
      rw (to_utf32_loop-fuel f g (drop (steps c) (c ∷ str)) (omega arith) (omega arith)) refl
]
