-- ===== src/Mult/DoubleAndAdd.antt =====
-- curves/curve_group.py: the multiplications that read the scalar bit by bit, and the double
-- multiplication that reads two scalars at once.
pub mod Correct
use mathlib.Core.WellFounded.{Acc}
use ellipticcurves.Prelude.{
  ℕ, zero, suc, ◌+◌, ◌-◌, ◌*◌, ◌/◌, ◌%◌, ◌<◌, Bool, true, false, List, [], ◌∷◌, ◌++◌, arith, ◌==◌,
  if◌then◌else◌, not, length, replicate,
}
use ellipticcurves.Prelude.Int.{ℤ, pos, negsuc}
use ellipticcurves.Prelude.Order.{lt_wf}
use ellipticcurves.Prelude.Result.{
  Result, ok, err, ◌>>=◌, negative_m, negative_first, negative_second, index_error,
}
use ellipticcurves.Prelude.Table.{index}
use ellipticcurves.Group.{PointOps}
use ellipticcurves.Mult.Digits.{binary, convert_number_to_base_var}

pub half_lt : (n : ℕ) → suc n / 2 < suc n
half_lt n = omega arith

pub self_lt : (n : ℕ) → n < suc n
self_lt n = omega arith

-- A two-element list `R`, and `R[i] = X` for a Boolean `i`, which Python reads as 0 or 1.
abbrev pub assign : {J : Type 0} → J × J → Bool → J → J × J
assign R false X = (X, R.1)
assign R true X = (R.0, X)

abbrev pub select : {J : Type 0} → J × J → Bool → J
select R false = R.0
select R true = R.1

-- `m & 1`
abbrev pub is_odd : ℕ → Bool
is_odd m = m % 2 == 1

module _ {J : Type 0} where
  -- The recursion of `_mult_recursive_jac_var` on a scalar that is not negative.
  recursive_loop : PointOps J → (m : ℕ) → Acc ◌<◌ m → J → J
  recursive_loop ec m (Acc.intro zero _) Q = ec.infinity
  recursive_loop ec m (Acc.intro (suc n) smaller) Q = elim (is_odd (suc n)) [
    | true ↦ ec.add Q (recursive_loop ec n (smaller n (self_lt n)) Q)
    | false ↦ recursive_loop ec (suc n / 2) (smaller (suc n / 2) (half_lt n)) (ec.double Q)
  ]

  unfoldable pub mult_recursive_jac_var : ℤ → J → PointOps J → Result J
  unfolding recursive_loop lt_wf
  mult_recursive_jac_var (negsuc m) Q ec = err negative_m
  mult_recursive_jac_var (pos m) Q ec = ok (recursive_loop ec m (lt_wf.apply m) Q)

  -- `while m > 0` of `_mult_aff_var`; `R` is the list of the result and the sum that may replace it.
  aff_loop : PointOps J → (m : ℕ) → Acc ◌<◌ m → J → J × J → J
  aff_loop ec m (Acc.intro zero _) Q R = R.0
  aff_loop ec m (Acc.intro (suc n) smaller) Q R =
      let Q' = ec.double Q in
      let R' = assign R true (ec.add R.0 Q') in
      aff_loop ec (suc n / 2) (smaller (suc n / 2) (half_lt n)) Q'
        (assign R' false (select R' (is_odd (suc n))))

  unfoldable pub mult_aff_var : ℤ → J → PointOps J → Result J
  unfolding aff_loop lt_wf
  mult_aff_var (negsuc m) Q ec = err negative_m
  mult_aff_var (pos m) Q ec =
      let R : J × J = (ec.infinity, Q) in
      ok (aff_loop ec (m / 2) (lt_wf.apply (m / 2)) Q (assign R false (select R (is_odd m))))

  -- `while m > 0` of `_mult_jac_var`: the sum is always made, and is the result if the bit is 1.
  jac_loop : PointOps J → (m : ℕ) → Acc ◌<◌ m → J → J × J → J
  jac_loop ec m (Acc.intro zero _) Q R = R.0
  jac_loop ec m (Acc.intro (suc n) smaller) Q R =
      let Q' = ec.double Q in
      jac_loop ec (suc n / 2) (smaller (suc n / 2) (half_lt n)) Q'
        (assign R (not (is_odd (suc n))) (ec.add R.0 Q'))

  unfoldable pub mult_jac_var : ℤ → J → PointOps J → Result J
  unfolding jac_loop lt_wf
  mult_jac_var (negsuc m) Q ec = err negative_m
  mult_jac_var (pos m) Q ec =
      ok (jac_loop ec (m / 2) (lt_wf.apply (m / 2)) Q (assign (ec.infinity, Q) (not (is_odd m)) Q))

  -- One round of the Montgomery ladder for a binary digit `i`.
  ladder_loop : PointOps J → List ℕ → J × J → J × J
  ladder_loop ec [] R = R
  ladder_loop ec (i ∷ digits) R =
      let bit = i == 1 in
      let R' = assign R (not bit) (ec.add (select R bit) (select R (not bit))) in
      ladder_loop ec digits (assign R' bit (ec.double (select R' bit)))

  unfoldable pub mult_mont_ladder_var : ℤ → J → PointOps J → Result J
  unfolding ladder_loop binary
  mult_mont_ladder_var (negsuc m) Q ec = err negative_m
  mult_mont_ladder_var (pos m) Q ec = ok (ladder_loop ec (binary m) (ec.infinity, Q)).0
