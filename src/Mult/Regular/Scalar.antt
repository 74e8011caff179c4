-- ===== src/Mult/Regular/Scalar.antt =====
-- The odd scalar that is recoded, the number of its digits, and the correction of its parity.
use ellipticcurves.Prelude.{
  ℕ, zero, suc, ◌+◌, ◌-◌, ◌*◌, ◌/◌, ◌%◌, ◌^◌, ◌≤◌, ◌<◌, ◌≡◌, ap, ◌∙◌, List, [], ◌∷◌, arith, length,
  Bool-cases, inl, inr, ◌==◌, true, false,
}
use native.Mathlib.Nat.{div-add-mod, mod-lt, pow-le-pow_right}
use ellipticcurves.Prelude.Int.{ℤ, pos}
use ellipticcurves.Prelude.Result.{ok}
use ellipticcurves.Group.{PointOps, AbelianGroup, Represents, nmul}
use ellipticcurves.Group.Multiple.{nmul-add, nmul-one}
use ellipticcurves.Group.Shows.{Shows, Shows-negate, Shows-infinity}
use ellipticcurves.Recode.{signed_odd_digits}
use ellipticcurves.Recode.Regular.{IsRegular, signed_odd_digits-IsRegular, power_even}
use ellipticcurves.Mult.Digits.{binary, horner, binary-value, binary-Below, Below}
use ellipticcurves.Mult.Regular.{bit_length, ceil_div, or_one, parity_correction}

pub horner-lt : (v : ℕ) (ds : List ℕ) → Below 2 ds → horner 2 v ds < (v + 1) * 2 ^ length ds
unfolding horner
horner-lt v [] l = omega arith
horner-lt v (d ∷ ds) l = omega (arith, horner-lt (v * 2 + d) ds l.1, step d l.0)
  where
    step : (d : ℕ) → d < 2 → (v * 2 + d + 1) * 2 ^ length ds ≤ (v + 1) * 2 ^ suc (length ds)
    step zero h = grind arith
    step (suc zero) h = grind arith
    step (suc (suc d)) h = absurd (omega arith)

-- A number fits its own length in bits.
pub lt-bit_length : (m : ℕ) → m < 2 ^ bit_length m
unfolding bit_length
lt-bit_length m = elim (Bool-cases (m == 0)) [
  | inl e ↦ rw e (ground arith)
  | inr e ↦ rw e (omega (arith, binary-value m, horner-lt 0 (binary m) (binary-Below m)))
]

pub ceil_div_covers : (a w : ℕ) → 1 ≤ w → 1 ≤ a → (a ≤ w * ceil_div a w) × (1 ≤ ceil_div a w)
unfolding ceil_div
ceil_div_covers a w h l = (covers, positive ((a + w - 1) / w) covers)
  where
    covers : a ≤ w * ((a + w - 1) / w)
    covers = omega (arith, div-add-mod (a + w - 1) w, mod-lt (a + w - 1) h)

    positive : (n : ℕ) → a ≤ w * n → 1 ≤ n
    positive zero c = absurd (omega arith)
    positive (suc n) c = omega arith

or_one_odd : (m : ℕ) → or_one m % 2 ≡ 1
unfolding or_one
or_one_odd m = ground arith

or_one_fits : (m bits : ℕ) → 1 ≤ bits → m < 2 ^ bits → or_one m < 2 ^ bits
unfolding or_one
or_one_fits m bits h l = ground (arith, power_even bits h)

-- For a positive number of bits that the scalar fits, the recoding of m | 1 returns.
pub or_one-IsRegular :
    (m w bits : ℕ)
    → 1 ≤ w
    → 1 ≤ bits
    → m < 2 ^ bits
    → (digits : List ℤ) × (signed_odd_digits (pos (or_one m)) w (ceil_div bits w) ≡ ok digits)
      × IsRegular w (or_one m) (ceil_div bits w) digits
or_one-IsRegular m w bits h hb l =
    let (covers, positive) = ceil_div_covers bits w h hb in
    signed_odd_digits-IsRegular (or_one m) w (ceil_div bits w) h positive (or_one_odd m) (
      omega (
        arith,
        or_one_fits m bits hb l,
        pow-le-pow_right {n = 2} (omega arith) {i = bits} {j = w * ceil_div bits w} covers,
      ))

module _ {J G : Type 0} {ec : PointOps J} {grp : AbelianGroup G} (rep : Represents ec grp) where
  -- From (m | 1) * g, with anything added to it, to m * g and the same.
  pub parity_correction-Shows :
      (m : ℕ) (Q : J) {g : G}
      → Shows rep Q g
      → (c : G) × Shows rep (parity_correction ec m Q) c
        × (grp.plus (nmul grp (or_one m) g) c ≡ nmul grp m g)
  unfolding parity_correction or_one
  parity_correction-Shows m Q {g} s = elim (Bool-cases (m % 2 == 0)) [
    | inl e ↦
        rw (e, is_even (ground arith))
          (
            grp.minus g,
            Shows-negate rep Q s,
            ap (λ x. grp.plus x (grp.minus g))
                  (ap (λ n. nmul grp n g) {x = suc m} {y = m + 1} (omega arith)
                    ∙ nmul-add grp m 1 g
                    ∙ ap (grp.plus (nmul grp m g)) (nmul-one grp g))
                ∙ grp.plus_assoc (nmul grp m g) g (grp.minus g)
                ∙ ap (grp.plus (nmul grp m g)) (grp.plus_minus g)
                ∙ grp.plus_zero (nmul grp m g),
          )
    | inr e ↦
        rw (e, is_odd (ground arith))
          (grp.zero_point, Shows-infinity rep, grp.plus_zero (nmul grp m g))
  ]
    where
      is_even : m % 2 ≡ 0 → (m % 2 == 1) ≡ false
      is_even e = rw e

      is_odd : m % 2 ≡ 1 → (m % 2 == 1) ≡ true
      is_odd e = rw e
