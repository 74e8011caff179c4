-- ===== src/Recode/Naf.antt =====
-- The width-w NAF: its digits are zero, or odd and below 2 ^ (w - 1) in absolute value (for a width
-- of one, plus or minus one), and they stand for the scalar.
use ellipticcurves.Prelude.{
  ℕ, zero, suc, ◌+◌, ◌-◌, ◌*◌, ◌/◌, ◌%◌, ◌^◌, ◌≤◌, ◌<◌, max, ◌≡◌, ◌⊎◌, inl, inr, refl, ap, ◌∙◌,
  arith, List, [], ◌∷◌, ◌==◌, false, leb, Bool-cases, subst, subst,
}
use native.Mathlib.Nat.{div-add-mod, mod-lt}
use ellipticcurves.Prelude.Int.{ℤ, pos, pos_part, neg_part, ◌+ℤ◌, ◌-ℤ◌, ◌*ℤ◌}
use ellipticcurves.Recode.{mods, naf_digit, naf_loop, wnaf_of_m_var, signed_value}
use ellipticcurves.Recode.Regular.{
  IsOddBelow, pos_part_sub, neg_part_sub, pos_part_difference, sum_back, pow_positive,
}

-- A bound on the digits of width `w`.
abbrev pub reach : ℕ → ℕ
reach w = 2 ^ (max w 2 - 1)

abbrev pub NafDigits : ℕ → List ℤ → Type 0
NafDigits w [] = Unit
NafDigits w (d ∷ ds) = ((d ≡ pos 0) ⊎ IsOddBelow (reach w) d) × NafDigits w ds

-- The digit of an odd number, below `h` in absolute value, and what is left: m = digit + 2 * next with next < m.
pub record IsNafStep (h m : ℕ) (d : ℤ) : Type 0 where
  pub digit : IsOddBelow h d
  pub split : m + neg_part d ≡ 2 * (pos_part (pos m -ℤ d) / 2) + pos_part d
  pub smaller : pos_part (pos m -ℤ d) / 2 < m

binary_step : (m : ℕ) → m % 2 ≡ 1 → IsNafStep 2 m (pos 2 -ℤ pos (m % 4))
binary_step m o = record {
  digit = record {
    odd = rw (pos_part_sub 2 (m % 4), neg_part_sub 2 (m % 4)) (omega arith);
    bound = rw (pos_part_sub 2 (m % 4), neg_part_sub 2 (m % 4)) (omega arith);
  };
  split =
      rw
        (
          pos_part_difference m (pos 2 -ℤ pos (m % 4)),
          pos_part_sub 2 (m % 4),
          neg_part_sub 2 (m % 4),
        )
        (omega arith);
  smaller =
      rw
        (
          pos_part_difference m (pos 2 -ℤ pos (m % 4)),
          pos_part_sub 2 (m % 4),
          neg_part_sub 2 (m % 4),
        )
        (omega arith);
}

-- With h = 2 ^ (w - 1), which is even: the remainder of m modulo 2 * h, made signed.
module _ (m h k : ℕ) (e : h ≡ 2 * k) (l : 1 ≤ k) (o : m % 2 ≡ 1) where
  abbrev M : ℕ
  M = m % (2 * h)

  division : (2 * (h * (m / (2 * h))) + M ≡ m) × (M < 2 * h)
  division = (omega (arith, div-add-mod m (2 * h)), mod-lt m (omega arith))

  upper_step : h ≤ M → IsNafStep h m (pos M -ℤ pos (2 * h))
  upper_step b =
      let (d, r) = division in
      record {
        digit = record {
          odd = rw (pos_part_sub M (2 * h), neg_part_sub M (2 * h)) (omega arith);
          bound = rw (pos_part_sub M (2 * h), neg_part_sub M (2 * h)) (omega arith);
        };
        split =
            rw
              (
                pos_part_difference m (pos M -ℤ pos (2 * h)),
                pos_part_sub M (2 * h),
                neg_part_sub M (2 * h),
              )
              (omega arith);
        smaller =
            rw
              (
                pos_part_difference m (pos M -ℤ pos (2 * h)),
                pos_part_sub M (2 * h),
                neg_part_sub M (2 * h),
              )
              (omega arith);
      }

  lower_step : M < h → IsNafStep h m (pos M)
  lower_step b =
      let (d, r) = division in
      record {
        digit = record { odd = omega arith; bound = omega arith };
        split = rw (pos_part_difference m (pos M)) (omega arith);
        smaller = rw (pos_part_difference m (pos M)) (omega arith);
      }

-- The widths above one, by the power of two below the modulus.
module _ (m v : ℕ) (o : m % 2 ≡ 1) where
  abbrev half : ℕ
  half = 2 ^ suc v

  modulus : 2 ^ suc (suc v) ≡ 2 * half
  modulus = omega arith

  half_modulus : 2 * half / 2 ≡ half
  half_modulus = omega arith

  reach_lem : half ≡ reach (suc (suc v))
  reach_lem = ap (λ n. 2 ^ n) {x = suc v} {y = max (suc (suc v)) 2 - 1} (omega arith)

  two_halves : 2 ^ suc v ≡ 2 * 2 ^ v
  two_halves = omega arith

  mods_step : IsNafStep half m (mods m (suc (suc v)))
  unfolding mods
  mods_step = elim (Bool-cases (leb half (m % (2 * half)))) [
    | inl e ↦
        rw (modulus, half_modulus, e)
          (upper_step m half (2 ^ v) two_halves (pow_positive v) o (ground arith))
    | inr e ↦
        rw (modulus, half_modulus, e)
          (lower_step m half (2 ^ v) two_halves (pow_positive v) o (ground arith))
  ]

naf_digit_step : (m w : ℕ) → 1 ≤ w → m % 2 ≡ 1 → IsNafStep (reach w) m (naf_digit m w)
unfolding naf_digit
naf_digit_step m zero h o = absurd (omega arith)
naf_digit_step m (suc zero) h o = binary_step m o
naf_digit_step m (suc (suc v)) h o =
    rw (not_one)
      (subst (λ r. IsNafStep r m (mods m (suc (suc v)))) (reach_lem m v o) (mods_step m v o))
  where
    not_one : (suc (suc v) == 1) ≡ false
    not_one = ground arith

-- What the digits are: zero, or odd and below the reach of the width, and they stand for `m`.
pub record IsNaf (w m : ℕ) (digits : List ℤ) : Type 0 where
  pub odd_or_zero : NafDigits w digits
  pub value : signed_value 1 digits ≡ pos m

naf_loop-IsNaf : (fuel m w : ℕ) → 1 ≤ w → m ≤ fuel → IsNaf w m (naf_loop fuel m w)
unfolding naf_loop signed_value
naf_loop-IsNaf zero m w h l = record { odd_or_zero = tt; value = ap pos (omega arith) }
naf_loop-IsNaf (suc fuel) m w h l = elim (Bool-cases (m == 0)) [
  | inl e ↦ rw e (record { odd_or_zero = tt; value = ap pos (ground arith) })
  | inr e ↦ elim (Bool-cases (m % 2 == 1)) [
    | inl o ↦
        let s = naf_digit_step m w h (ground arith) in
        let r =
          naf_loop-IsNaf fuel (pos_part (pos m -ℤ naf_digit m w) / 2) w h
            (omega (arith, s.smaller)) in
        rw (e, o)
          (record {
            odd_or_zero = (inr s.digit, r.odd_or_zero);
            value =
                ap (λ v. naf_digit m w +ℤ pos (2 ^ 1) *ℤ v) r.value
                ∙ sum_back m 2 _ (naf_digit m w) s.split;
          })
    | inr o ↦
        let r = naf_loop-IsNaf fuel (m / 2) w h (ground arith) in
        rw (e, o)
          (record {
            odd_or_zero = (inl refl, r.odd_or_zero);
            value =
                ap (λ v. pos 0 +ℤ pos (2 ^ 1) *ℤ v) r.value
                ∙ sum_back m 2 (m / 2) (pos 0) (ground arith);
          })
  ]
]

-- For every width of at least 1, the NAF's digits are zero, or odd and below the reach of the width,
-- and they stand for the scalar.
pub wnaf_of_m_var-IsNaf : (m w : ℕ) → 1 ≤ w → IsNaf w m (wnaf_of_m_var m w)
unfolding wnaf_of_m_var
wnaf_of_m_var-IsNaf m w h = naf_loop-IsNaf m m w h (omega arith)
