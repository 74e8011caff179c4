-- ===== src/Mult/DoubleAndAdd/Correct.antt =====
-- Every multiplication of the parent returns the multiple of the point.
use mathlib.Core.WellFounded.{Acc}
use native.Mathlib.Nat.{div-add-mod}
use ellipticcurves.Prelude.{
  ℕ, zero, suc, ◌+◌, ◌*◌, ◌/◌, ◌%◌, ◌<◌, ◌≡◌, refl, ap, true, false, List, [], ◌∷◌, arith,
  Bool-cases, inl, inr, ◌⊎◌, not,
}
use ellipticcurves.Prelude.Int.{pos}
use ellipticcurves.Prelude.Result.{ok}
use ellipticcurves.Prelude.Order.{lt_wf}
use ellipticcurves.Group.{PointOps, AbelianGroup, Represents}
use ellipticcurves.Group.Shows.{
  Shows, Times, Times-eq, Times-one, Times-infinity, Times-add, Times-double,
}
use ellipticcurves.Mult.Digits.{horner, binary, binary-value, binary-Below, Below}
use ellipticcurves.Mult.DoubleAndAdd.{
  recursive_loop, aff_loop, jac_loop, ladder_loop, assign, select, is_odd, half_lt, self_lt,
  mult_recursive_jac_var, mult_aff_var, mult_jac_var, mult_mont_ladder_var,
}

halves : (n k : ℕ) → is_odd n ≡ false → (n / 2) * (k + k) ≡ n * k
halves n k e = omega (arith, ap (λ (t : ℕ). t * k) (even n e))
  where
    even : (n : ℕ) → is_odd n ≡ false → n ≡ n / 2 + n / 2
    even n e = ground arith

bit_cases : (n : ℕ) → ((is_odd n ≡ true) × (n % 2 ≡ 1)) ⊎ ((is_odd n ≡ false) × (n % 2 ≡ 0))
bit_cases n = ground arith

-- a + m * 2c in terms of the halved scalar and the doubled point.
halved : (n a c : ℕ) → a + n % 2 * (c + c) + n / 2 * (c + c + (c + c)) ≡ a + n * (c + c)
halved n a c = omega (arith, ap (λ (t : ℕ). t * c) (div-add-mod n 2))

module _ {J G : Type 0} {ec : PointOps J} {grp : AbelianGroup G} (rep : Represents ec grp) where
  recursive_loop-Times :
      (m k : ℕ) (w : Acc ◌<◌ m) (Q : J) {g : G}
      → Times rep g Q k
      → Times rep g (recursive_loop ec m w Q) (m * k)
  unfolding recursive_loop
  recursive_loop-Times zero k (Acc.intro _ smaller) Q {g} s =
      Times-eq rep (Times-infinity rep g) (omega arith)
  recursive_loop-Times (suc n) k (Acc.intro _ smaller) Q s = elim (Bool-cases (is_odd (suc n))) [
    | inl e ↦
        rw (e, recursive_loop)
          (Times-eq rep (Times-add rep Q _ s (recursive_loop-Times n k (smaller n (self_lt n)) Q s))
            (omega arith))
    | inr e ↦
        rw (e, recursive_loop)
          (Times-eq rep
            (recursive_loop-Times (suc n / 2) (k + k) (smaller (suc n / 2) (half_lt n))
              (ec.double Q) (Times-double rep Q s))
            (halves (suc n) k e))
  ]

  select-Times :
      (n a d : ℕ) (X Y : J) {g : G}
      → Times rep g X a
      → Times rep g Y (a + d)
      → Times rep g (select (X, Y) (is_odd n)) (a + n % 2 * d)
  select-Times n a d X Y x y = elim (bit_cases n) [
    | inl (e, r) ↦ rw (e, r) (Times-eq rep y (omega arith))
    | inr (e, r) ↦ rw (e, r) (Times-eq rep x (omega arith))
  ]

  assign-Times :
      (n a d : ℕ) (R : J × J) (Y : J) {g : G}
      → Times rep g R.0 a
      → Times rep g Y (a + d)
      → Times rep g (assign R (not (is_odd n)) Y).0 (a + n % 2 * d)
  assign-Times n a d R Y x y = elim (bit_cases n) [
    | inl (e, r) ↦ rw (e, r) (Times-eq rep y (omega arith))
    | inr (e, r) ↦ rw (e, r) (Times-eq rep x (omega arith))
  ]

  -- With the result a * g and the point c * g, the loop adds m doublings of the point.
  aff_loop-Times :
      (m a c : ℕ) (w : Acc ◌<◌ m) (Q : J) (R : J × J) {g : G}
      → Times rep g Q c
      → Times rep g R.0 a
      → Times rep g (aff_loop ec m w Q R) (a + m * (c + c))
  unfolding aff_loop
  aff_loop-Times zero a c (Acc.intro _ smaller) Q R q r = Times-eq rep r (omega arith)
  aff_loop-Times (suc n) a c (Acc.intro _ smaller) Q R q r =
      let next =
        select-Times (suc n) a (c + c) R.0 (ec.add R.0 (ec.double Q)) r
          (Times-add rep _ _ r (Times-double rep Q q)) in
      Times-eq rep
        (aff_loop-Times (suc n / 2) (a + suc n % 2 * (c + c)) (c + c)
          (smaller (suc n / 2) (half_lt n)) (ec.double Q) _ (Times-double rep Q q) next)
        (halved (suc n) a c)

  jac_loop-Times :
      (m a c : ℕ) (w : Acc ◌<◌ m) (Q : J) (R : J × J) {g : G}
      → Times rep g Q c
      → Times rep g R.0 a
      → Times rep g (jac_loop ec m w Q R) (a + m * (c + c))
  unfolding jac_loop
  jac_loop-Times zero a c (Acc.intro _ smaller) Q R q r = Times-eq rep r (omega arith)
  jac_loop-Times (suc n) a c (Acc.intro _ smaller) Q R q r =
      let next =
        assign-Times (suc n) a (c + c) R (ec.add R.0 (ec.double Q)) r
          (Times-add rep _ _ r (Times-double rep Q q)) in
      Times-eq rep
        (jac_loop-Times (suc n / 2) (a + suc n % 2 * (c + c)) (c + c)
          (smaller (suc n / 2) (half_lt n)) (ec.double Q) _ (Times-double rep Q q) next)
        (halved (suc n) a c)

  -- The two accumulators of the ladder differ by the point.
  ladder_loop-Times :
      (ds : List ℕ) (v : ℕ) (R : J × J) {g : G}
      → Below 2 ds
      → Times rep g R.0 v
      → Times rep g R.1 (v + 1)
      → Times rep g (ladder_loop ec ds R).0 (horner 2 v ds)
  unfolding ladder_loop horner
  ladder_loop-Times [] v R b r r' = r
  ladder_loop-Times (zero ∷ ds) v R b r r' =
      ladder_loop-Times ds (v * 2 + 0) _ b.1 (Times-eq rep (Times-double rep _ r) (omega arith))
        (Times-eq rep (Times-add rep _ _ r r') (omega arith))
  ladder_loop-Times (suc zero ∷ ds) v R b r r' =
      ladder_loop-Times ds (v * 2 + 1) _ b.1 (Times-eq rep (Times-add rep _ _ r' r) (omega arith))
        (Times-eq rep (Times-double rep _ r') (omega arith))
  ladder_loop-Times (suc (suc d) ∷ ds) v R b r r' = absurd (omega arith)

  module _ (m : ℕ) (Q : J) {g : G} (s : Shows rep Q g) where
    pub mult_recursive_jac_var-Times :
        (X : J) × (mult_recursive_jac_var (pos m) Q ec ≡ ok X) × Times rep g X m
    unfolding mult_recursive_jac_var
    mult_recursive_jac_var-Times = (
      _,
      refl,
      Times-eq rep (recursive_loop-Times m 1 (lt_wf.apply m) Q (Times-one rep s)) (omega arith),
    )

    pub mult_aff_var-Times : (X : J) × (mult_aff_var (pos m) Q ec ≡ ok X) × Times rep g X m
    unfolding mult_aff_var
    mult_aff_var-Times = (
      _,
      refl,
      Times-eq rep
          (aff_loop-Times (m / 2) (0 + m % 2 * 1) 1 (lt_wf.apply (m / 2)) Q _ (Times-one rep s)
            (select-Times m 0 1 ec.infinity Q (Times-infinity rep g) (Times-one rep s)))
          (omega arith),
    )

    pub mult_jac_var-Times : (X : J) × (mult_jac_var (pos m) Q ec ≡ ok X) × Times rep g X m
    unfolding mult_jac_var
    mult_jac_var-Times = (
      _,
      refl,
      Times-eq rep
          (jac_loop-Times (m / 2) (0 + m % 2 * 1) 1 (lt_wf.apply (m / 2)) Q _ (Times-one rep s)
            (assign-Times m 0 1 (ec.infinity, Q) Q (Times-infinity rep g) (Times-one rep s)))
          (omega arith),
    )

    pub mult_mont_ladder_var-Times :
        (X : J) × (mult_mont_ladder_var (pos m) Q ec ≡ ok X) × Times rep g X m
    unfolding mult_mont_ladder_var
    mult_mont_ladder_var-Times = (
      _,
      refl,
      Times-eq rep
          (ladder_loop-Times (binary m) 0 (ec.infinity, Q) (binary-Below m) (Times-infinity rep g)
            (Times-one rep s))
          (binary-value m),
    )

    -- For formulas that implement an abelian group, and a tuple that stands for the point
    -- g, the recursive double and add, _mult_aff_var, _mult_jac_var and the Montgomery
    -- ladder each return a tuple that stands for m * g, for every scalar m that is not
    -- negative.
    pub binary_methods-Times :
        ((X : J) × (mult_recursive_jac_var (pos m) Q ec ≡ ok X) × Times rep g X m)
        × ((X : J) × (mult_aff_var (pos m) Q ec ≡ ok X) × Times rep g X m)
        × ((X : J) × (mult_jac_var (pos m) Q ec ≡ ok X) × Times rep g X m)
        × ((X : J) × (mult_mont_ladder_var (pos m) Q ec ≡ ok X) × Times rep g X m)
    binary_methods-Times = (
      mult_recursive_jac_var-Times, mult_aff_var-Times, mult_jac_var-Times,
      mult_mont_ladder_var-Times,
    )
