-- ===== src/Recode/Regular.antt =====
-- The regular recoding: its digits are odd, name the entries of the table, and stand for the
-- scalar.
use ellipticcurves.Prelude.Bytes.{pow_add}
use ellipticcurves.Prelude.{
  ℕ, zero, suc, ◌+◌, ◌-◌, ◌*◌, ◌/◌, ◌%◌, ◌^◌, ◌≤◌, ◌<◌, ◌≡◌, refl, ap, ◌∙◌, arith, List, [], ◌∷◌,
  length, ◌==◌, true, false, leb, ltb,
}
use native.Mathlib.Nat.{
  div-add-mod, mod-lt, div-eq_of_eq-mul_right, div-eq_of_lt, lt_of_mul-lt-mul_left,
}
use ellipticcurves.Prelude.Int.{ℤ, pos, pos_part, neg_part, ◌+ℤ◌, ◌-ℤ◌, ◌*ℤ◌, +ℤ_parts, eq_of_parts}
use ellipticcurves.Prelude.Result.{ok}
use ellipticcurves.Recode.{odd_digits, signed_odd_digits, signed_value}

-- Odd, and below `h` in absolute value.
pub record IsOddBelow (h : ℕ) (d : ℤ) : Type 0 where
  pub odd : (pos_part d + neg_part d) % 2 ≡ 1
  pub bound : pos_part d + neg_part d < h

abbrev pub OddBelow : ℕ → List ℤ → Type 0
OddBelow h [] = Unit
OddBelow h (d ∷ ds) = IsOddBelow h d × OddBelow h ds

pub power_even : (w : ℕ) → 1 ≤ w → 2 ^ w % 2 ≡ 0
power_even zero h = absurd (omega arith)
power_even (suc w) h = omega arith

pub pos_part_sub : (a b : ℕ) → pos_part (pos a -ℤ pos b) ≡ a - b
unfolding ◌-ℤ◌
pos_part_sub a b = ground arith

pub neg_part_sub : (a b : ℕ) → neg_part (pos a -ℤ pos b) ≡ b - a
unfolding ◌-ℤ◌
neg_part_sub a b = ground arith

pub pos_part_difference : (m : ℕ) (d : ℤ) → pos_part (pos m -ℤ d) ≡ m + neg_part d - pos_part d
unfolding ◌-ℤ◌
pos_part_difference m d = ground arith

-- What one round does, with h for 2 ^ w: m = digit + h * next, digit and next are odd.
module _ (m h k : ℕ) (e : h ≡ 2 * k) (l : 1 ≤ h) (o : m % 2 ≡ 1) where
  abbrev rest : ℕ
  rest = m % (2 * h)

  abbrev digit : ℤ
  digit = pos rest -ℤ pos h

  division : (2 * (h * (m / (2 * h))) + rest ≡ m) × (rest < 2 * h)
  division = (omega (arith, div-add-mod m (2 * h)), mod-lt m (omega arith))

  round-digit : ((pos_part digit + neg_part digit) % 2 ≡ 1) × (pos_part digit + neg_part digit < h)
  round-digit =
      let (d, b) = division in
      rw (pos_part_sub rest h, neg_part_sub rest h) (omega arith, omega arith)

  round-next : pos_part (pos m -ℤ digit) ≡ h * (2 * (m / (2 * h)) + 1)
  round-next =
      let (d, b) = division in
      omega (arith, pos_part_difference m digit, pos_part_sub rest h, neg_part_sub rest h)

  abbrev next_m : ℕ
  next_m = pos_part (pos m -ℤ digit) / h

  next_m_lem : next_m ≡ 2 * (m / (2 * h)) + 1
  next_m_lem = div-eq_of_eq-mul_right l round-next

  round_lem :
      IsOddBelow h digit × (m + neg_part digit ≡ h * next_m + pos_part digit) × (next_m % 2 ≡ 1)
  round_lem =
      let (d, b) = division in
      let (odd, bound) = round-digit in
      (
        record { odd = odd; bound = bound },
        omega (
          arith,
          round-next,
          pos_part_difference m digit,
          ap (λ n. h * n) next_m_lem,
          pos_part_sub rest h,
          neg_part_sub rest h,
        ),
        omega (arith, next_m_lem),
      )

next_fits : (h q H : ℕ) → h * (2 * q) < h * H → H % 2 ≡ 0 → 2 * q + 1 < H
next_fits h q H b c = omega (arith, lt_of_mul-lt-mul_left h {m = 2 * q} {n = H} b)

pub sum_back :
    (m h n : ℕ) (d : ℤ) → m + neg_part d ≡ h * n + pos_part d → d +ℤ pos h *ℤ pos n ≡ pos m
unfolding ◌*ℤ◌
sum_back m h n d e = eq_of_parts _ _ (omega (arith, +ℤ_parts d (pos (h * n))))

pub pow_positive : (a : ℕ) → 1 ≤ 2 ^ a
pow_positive zero = omega arith
pow_positive (suc a) = omega (arith, pow_positive a)

-- What the digits are: odd, below 2 ^ w, `size` of them, and they stand for `m`.
pub record IsRegular (w m size : ℕ) (digits : List ℤ) : Type 0 where
  pub odd_below : OddBelow (2 ^ w) digits
  pub value : signed_value w digits ≡ pos m
  pub size_lem : length digits ≡ size

odd_digits-IsRegular :
    (rounds w m : ℕ)
    → 1 ≤ w
    → m % 2 ≡ 1
    → m < 2 ^ (w * suc rounds)
    → IsRegular w m (suc rounds) (odd_digits rounds w m)
unfolding odd_digits signed_value
odd_digits-IsRegular zero w m h o l = record {
  odd_below = (
    record {
      odd = omega arith;
      bound = omega (arith, ap (λ n. 2 ^ n) {x = w * 1} {y = w} (omega arith));
    },
    tt,
  );
  value = sum_back m (2 ^ w) 0 (pos m) (omega arith);
  size_lem = refl;
}
odd_digits-IsRegular (suc rounds) w m h o l =
    let H = 2 ^ (w * suc rounds) in
    let k = 2 ^ w in
    let ev = power_even w h in
    let half : k ≡ 2 * (k / 2) = omega arith in
    let one = pow_positive w in
    let (ok_digit, split, odd_next) = round_lem m k (k / 2) half one o in
    let total : 2 ^ (w * suc (suc rounds)) ≡ k * H =
      ap (λ n. 2 ^ n) (omega arith) ∙ pow_add w (w * suc rounds) in
    let below : next_m m k (k / 2) half one o < H = omega (
      arith,
      next_m_lem m k (k / 2) half one o,
      next_fits k (m / (2 * k)) H (omega (arith, total, div-add-mod m (2 * k)))
          (power_even (w * suc rounds) (omega arith)),
    ) in
    let r = odd_digits-IsRegular rounds w (next_m m k (k / 2) half one o) h odd_next below in
    record {
      odd_below = (ok_digit, r.odd_below);
      value =
          ap (λ v. digit m k (k / 2) half one o +ℤ pos k *ℤ v) r.value
          ∙ sum_back m k (next_m m k (k / 2) half one o) (digit m k (k / 2) half one o) split;
      size_lem = ap suc r.size_lem;
    }

-- For an odd m below 2 ^ (w * size), with w and size at least 1, the recoding returns `size` odd
-- digits, each below 2 ^ w in absolute value, that stand for m.
pub signed_odd_digits-IsRegular :
    (m w size : ℕ)
    → 1 ≤ w
    → 1 ≤ size
    → m % 2 ≡ 1
    → m < 2 ^ (w * size)
    → (digits : List ℤ) × (signed_odd_digits (pos m) w size ≡ ok digits) × IsRegular w m size digits
unfolding signed_odd_digits
signed_odd_digits-IsRegular m w zero h hs o l = absurd (omega arith)
signed_odd_digits-IsRegular m w (suc rounds) h hs o l = (
  odd_digits rounds w m,
  rw (w_positive, odd, size_positive, fits, one_less),
  odd_digits-IsRegular rounds w m h o l,
)
  where
    w_positive : leb w 0 ≡ false
    w_positive = ground arith

    odd : (m % 2 == 0) ≡ false
    odd = ground arith

    size_positive : ltb (suc rounds) 1 ≡ false
    size_positive = ground arith

    fits : (m / 2 ^ (w * suc rounds) == 0) ≡ true
    fits = rw (div-eq_of_lt l)

    one_less : suc rounds - 1 ≡ rounds
    one_less = omega arith
