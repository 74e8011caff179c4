-- ===== src/Recode.antt =====
-- curves/curve_group.py: the signed recodings of a scalar, `_mods`, `_wNAF_of_m_var` and
-- `signed_odd_digits`. The digits stand least significant first.
pub mod Regular
pub mod Naf
use ellipticcurves.Prelude.{
  ℕ, zero, suc, ◌+◌, ◌-◌, ◌*◌, ◌/◌, ◌%◌, ◌^◌, Bool, true, false, List, [], ◌∷◌, ◌==◌, leb, ltb, not,
  if◌then◌else◌,
}
use ellipticcurves.Prelude.Int.{ℤ, pos, negsuc, pos_part, ◌+ℤ◌, ◌-ℤ◌, ◌*ℤ◌}
use ellipticcurves.Prelude.Result.{
  Result, ok, err, ◌>>=◌, ◌>>◌, refuse, negative_m, non_positive_w, even_m, size_too_low,
  does_not_fit,
}

-- `_mods`, for an `m` that is not negative.
unfoldable pub mods : ℕ → ℕ → ℤ
mods m w = let w2 = 2 ^ w in let M = m % w2 in if leb (w2 / 2) M then pos M -ℤ pos w2 else pos M

-- The digit of an odd `m`.
unfoldable pub naf_digit : ℕ → ℕ → ℤ
unfolding mods
naf_digit m w = if w == 1 then pos 2 -ℤ pos (m % 4) else mods m w

-- `while m > 0`. For a width of at least 1 the difference `m - digit` is not negative and the next
-- `m` is smaller, so the fuel `m` is enough.
unfoldable pub naf_loop : ℕ → ℕ → ℕ → List ℤ
unfolding naf_digit
naf_loop zero m w = []
naf_loop (suc fuel) m w =
    let d = naf_digit m w in
    let odd_rest = naf_loop fuel (pos_part (pos m -ℤ d) / 2) w in
    let even_rest = naf_loop fuel (m / 2) w in
    if m == 0 then [] else (if m % 2 == 1 then d ∷ odd_rest else pos 0 ∷ even_rest)

unfoldable pub wnaf_of_m_var : ℕ → ℕ → List ℤ
unfolding naf_loop
wnaf_of_m_var m w = naf_loop m m w

-- `size - 1` rounds, and what is left of `m`; `m - digit` is not negative.
unfoldable pub odd_digits : ℕ → ℕ → ℕ → List ℤ
odd_digits zero w m = pos m ∷ []
odd_digits (suc rounds) w m =
    let digit = pos (m % (2 * 2 ^ w)) -ℤ pos (2 ^ w) in
    digit ∷ odd_digits rounds w (pos_part (pos m -ℤ digit) / 2 ^ w)

unfoldable pub signed_odd_digits : ℤ → ℕ → ℕ → Result (List ℤ)
unfolding odd_digits
signed_odd_digits (negsuc m) w size = err negative_m
signed_odd_digits (pos m) w size = do
  refuse (leb w 0) non_positive_w
  refuse (m % 2 == 0) even_m
  refuse (ltb size 1) size_too_low
  refuse (not (m / 2 ^ (w * size) == 0)) does_not_fit
  ok (odd_digits (size - 1) w m)

-- The integer that signed digits of width `w` stand for.
unfoldable pub signed_value : ℕ → List ℤ → ℤ
signed_value w [] = pos 0
signed_value w (d ∷ ds) = d +ℤ pos (2 ^ w) *ℤ signed_value w ds
