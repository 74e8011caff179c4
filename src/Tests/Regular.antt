-- ===== src/Tests/Regular.antt =====
-- The recodings and the multiplications with affine tables on the curve over the field of five
-- elements.
use ellipticcurves.Prelude.{◌≡◌, refl, Bool, false, ◌==◌, [], ◌∷◌, arith}
use ellipticcurves.Prelude.Int.{ℤ, pos, negsuc, ◌-ℤ◌, ◌+ℤ◌, neg_ℤ}
use ellipticcurves.Prelude.Result.{ok, err, even_m, negative_coefficient}
use ellipticcurves.Prelude.Table.{index}
use ellipticcurves.Group.{nmul}
use ellipticcurves.Group.Shows.{Shows, Times}
use ellipticcurves.Recode.{signed_odd_digits, wnaf_of_m_var}
use ellipticcurves.Group.Affine.{AffineOps}
use ellipticcurves.Curve.{JacPoint, jac_ops}
use ellipticcurves.Curve.SmallCurve.{
  small, small_represents, generator, opposite, generator-Shows, opposite-Shows,
}
use ellipticcurves.Curve.SmallCurve.Affine.{small_represents_affine}
use ellipticcurves.Curve.Affine.{affine_ops}
use ellipticcurves.Curve.Cyclic3.{c1, c2, plus3, cyclic3}
use ellipticcurves.Mult.Regular.{mult_regular_window, double_mult_regular_window, bits_of}
use ellipticcurves.Mult.Regular.Correct.{mult_regular_window-Times}
use ellipticcurves.Mult.Regular.Double.{double_mult_regular_window-Shows}
use ellipticcurves.Mult.Naf.{mult_w_naf_var}
use ellipticcurves.Mult.Naf.Correct.{mult_w_naf_var-Times}
use ellipticcurves.Mult.Sliding.{mult_sliding_window_var}
use ellipticcurves.Mult.Sliding.Correct.{mult_sliding_window_var-Times}
use ellipticcurves.Mult.Multi.{multi_mult_w_naf_var, multi_mult_pairs}
use ellipticcurves.Mult.FixedBase.{mult_fixed_base, mult_fixed_base-Times}

digits_of_eleven : signed_odd_digits (pos 11) 2 3 ≡ ok (negsuc 0 ∷ negsuc 0 ∷ pos 1 ∷ [])
unfolding signed_odd_digits ◌-ℤ◌
digits_of_eleven = refl

even_scalar : signed_odd_digits (pos 12) 2 3 ≡ err even_m
unfolding signed_odd_digits
even_scalar = refl

mult_regular_window-Times_example :
    (X : JacPoint) × (mult_regular_window (pos 11) generator (affine_ops small 3 3) 2 ≡ ok X)
    × Times small_represents c1 X 11
unfolding small_represents_affine affine_ops
mult_regular_window-Times_example =
    mult_regular_window-Times small_represents_affine 11 generator 2 generator-Shows (omega arith)
      (omega arith)

double_mult_regular_window-Shows_example :
    (X : JacPoint) × (double_mult_regular_window
        (pos 5)
        generator
        (pos 6)
        opposite
        (affine_ops small 3 3)
        2
        0
      ≡ ok X)
    × Shows small_represents X (plus3 (nmul cyclic3 5 c1) (nmul cyclic3 6 c2))
unfolding small_represents_affine affine_ops bits_of
double_mult_regular_window-Shows_example =
    double_mult_regular_window-Shows small_represents_affine 5 6 generator opposite 2 0
      generator-Shows opposite-Shows (omega arith) (omega arith)

mult_fixed_base-Times_example :
    (X : JacPoint) × (mult_fixed_base (pos 6) generator (affine_ops small 3 3) 2 ≡ ok X)
    × Times small_represents c1 X 6
unfolding small_represents_affine affine_ops
mult_fixed_base-Times_example =
    mult_fixed_base-Times small_represents_affine 6 generator 2 generator-Shows (omega arith)
      (omega arith) (omega arith)

naf_of_seven : wnaf_of_m_var 7 2 ≡ negsuc 0 ∷ pos 0 ∷ pos 0 ∷ pos 1 ∷ []
unfolding wnaf_of_m_var ◌-ℤ◌
naf_of_seven = refl

mult_w_naf_var-Times_example :
    (X : JacPoint) × (mult_w_naf_var (pos 11) generator (jac_ops small) 3 ≡ ok X)
    × Times small_represents c1 X 11
mult_w_naf_var-Times_example =
    mult_w_naf_var-Times small_represents 11 generator 3 generator-Shows (omega arith)

pairs_of_two :
    multi_mult_pairs (pos 0 ∷ pos 5 ∷ []) (generator ∷ opposite ∷ []) ≡ ok ((5, opposite) ∷ [])
unfolding multi_mult_pairs
pairs_of_two = refl

pairs_negative :
    multi_mult_pairs (pos 3 ∷ negsuc 4 ∷ []) (generator ∷ opposite ∷ []) ≡ err negative_coefficient
unfolding multi_mult_pairs
pairs_negative = refl

-- The integers, as a group whose formulas are its own operations.
abbrev integers : AffineOps ℤ ℤ
integers = record {
  jac = record { infinity = pos 0; add = λ a b. a +ℤ b; double = λ a. a +ℤ a; negate = neg_ℤ };
  from_aff = λ a. a;
  to_aff_batch = ok;
  add_aff = λ a b. a +ℤ b;
  negate_aff = neg_ℤ;
  blind = λ a. a;
  scalar_len = 8;
}

-- The point whose table is memoized.
abbrev is_hundred : ℤ → Bool
is_hundred (pos n) = n == 100
is_hundred (negsuc n) = false

sum_of_three :
    multi_mult_w_naf_var
      (pos 5 ∷ pos 0 ∷ pos 27 ∷ [])
      (pos 3 ∷ pos 4 ∷ pos 100 ∷ [])
      integers
      3
      is_hundred
    ≡ ok (pos 2715)
unfolding multi_mult_w_naf_var ◌+ℤ◌ ◌-ℤ◌ neg_ℤ wnaf_of_m_var index
sum_of_three = refl

mult_sliding_window_var-Times_example :
    (X : JacPoint) × (mult_sliding_window_var (pos 11) generator (jac_ops small) 2 ≡ ok X)
    × Times small_represents c1 X 11
mult_sliding_window_var-Times_example =
    mult_sliding_window_var-Times small_represents generator generator-Shows 11 2 (omega arith)
