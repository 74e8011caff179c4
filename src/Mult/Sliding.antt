-- ===== src/Mult/Sliding.antt =====
-- curves/curve_group_2.py: the sliding window, whose table starts at the multiple 2 ^ (w - 1).
pub mod Correct
use ellipticcurves.Prelude.{
  ℕ, zero, suc, ◌+◌, ◌-◌, ◌*◌, ◌^◌, ◌≤◌, ◌<◌, ◌≡◌, refl, sym, ap, ◌∙◌, true, false, List, [], ◌∷◌,
  ◌++◌, take, drop, length, length-append, arith, ◌==◌, leb, ltb, if◌then◌else◌, Bool-cases, inl,
  inr, subst,
}
use ellipticcurves.Prelude.Int.{ℤ, pos, negsuc}
use ellipticcurves.Prelude.Result.{Result, ok, err, ◌>>=◌, ◌>>◌, refuse, negative_m, non_positive_w}
use ellipticcurves.Prelude.Table.{index, Entries, index-Entries, Entries-append}
use ellipticcurves.Group.{PointOps, AbelianGroup, Represents, nmul}
use ellipticcurves.Group.Multiple.{nmul-mul}
use ellipticcurves.Group.Shows.{
  Shows, Shows-eq, Times, Times-eq, Times-one, Times-add, Times-double, Times-infinity,
}
use ellipticcurves.Mult.Digits.{
  convert_number_to_base_var, convert_number_to_base_var-value, convert_number_to_base_var-Below,
  horner, Below,
}
use ellipticcurves.Mult.Window.{doubles}
use ellipticcurves.Mult.Window.Correct.{Scales-doubles, w_positive}
use ellipticcurves.Recode.Regular.{pow_positive}
use ellipticcurves.Mult.Regular.{odd_multiples_loop}
use ellipticcurves.Mult.Regular.Tables.{last-Entries}
use ellipticcurves.Mult.Regular.Scalar.{horner-lt}

module _ {J : Type 0} where
  -- `for _ in range(rounds): T.append(T[-1] + Q)` is the loop of the odd multiples with another step.
  unfoldable pub sliding_window_table : J → PointOps J → ℕ → Result (List J)
  unfolding doubles odd_multiples_loop
  sliding_window_table Q ec w =
      odd_multiples_loop ec Q (2 ^ (w - 1) - 1) (doubles ec (w - 1) Q ∷ [])

  unfoldable pub double_and_add_var : J → J → List ℕ → PointOps J → J
  double_and_add_var R Q [] ec = R
  double_and_add_var R Q (digit ∷ digits) ec =
      double_and_add_var (if digit == 1 then ec.add (ec.double R) Q else ec.double R) Q digits ec

  -- `while i < len(digits)`, on the digits from `i` on. A round takes one digit or `w` digits, so for
  -- a `w` of at least 1 the number of digits is enough fuel. A window starts with the digit 1, so
  -- `t - p` is not negative.
  unfoldable pub sliding_loop : PointOps J → J → ℕ → List J → ℕ → List ℕ → J → Result J
  unfolding double_and_add_var doubles
  sliding_loop ec Q w T zero digits R = ok R
  sliding_loop ec Q w T (suc fuel) [] R = ok R
  sliding_loop ec Q w T (suc fuel) (d ∷ ds) R =
      let zero_digit = sliding_loop ec Q w T fuel ds (ec.double R) in
      if d == 0
      then zero_digit
      else (if ltb (length (d ∷ ds)) w
          then ok (double_and_add_var R Q (d ∷ ds) ec)
          else (index T (horner 2 0 (take w (d ∷ ds)) - 2 ^ (w - 1)) >>= λ x.
              sliding_loop ec Q w T fuel (drop w (d ∷ ds)) (ec.add (doubles ec w R) x)))

  unfoldable pub mult_sliding_window_var : ℤ → J → PointOps J → ℕ → Result J
  unfolding sliding_window_table sliding_loop
  mult_sliding_window_var (negsuc m) Q ec w = err negative_m
  mult_sliding_window_var (pos m) Q ec w = do
    refuse (leb w 0) non_positive_w
    T ← sliding_window_table Q ec w
    let digits = convert_number_to_base_var m 2
    sliding_loop ec Q w T (length digits) digits ec.infinity
