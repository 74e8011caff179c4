-- ===== src/Tests/Multiplications.antt =====
-- The scalar multiplications on the curve over the field of five elements.
use ellipticcurves.Prelude.{◌≡◌, refl, [], ◌∷◌}
use ellipticcurves.Prelude.Int.{pos}
use ellipticcurves.Prelude.Result.{ok}
use ellipticcurves.Group.{nmul}
use ellipticcurves.Group.Shows.{Shows, Times}
use ellipticcurves.Curve.{JacPoint, jac_ops}
use ellipticcurves.Curve.SmallCurve.{
  small, small_represents, generator, opposite, generator-Shows, opposite-Shows,
}
use ellipticcurves.Curve.Cyclic3.{c1, c2, plus3, cyclic3}
use ellipticcurves.Mult.Digits.{convert_number_to_base_var}
use ellipticcurves.Mult.DoubleAndAdd.{
  mult_recursive_jac_var, mult_aff_var, mult_jac_var, mult_mont_ladder_var,
}
use ellipticcurves.Mult.DoubleAndAdd.Correct.{binary_methods-Times}
use ellipticcurves.Mult.Window.{double_mult_var}
use ellipticcurves.Mult.Window.Strauss.{double_mult_var-Shows}

digits_of_nineteen : convert_number_to_base_var 19 3 ≡ 2 ∷ 0 ∷ 1 ∷ []
unfolding convert_number_to_base_var
digits_of_nineteen = refl

binary_methods-Times_example :
    ((X : JacPoint) × (mult_recursive_jac_var (pos 11) generator (jac_ops small) ≡ ok X)
      × Times small_represents c1 X 11)
    × ((X : JacPoint) × (mult_aff_var (pos 11) generator (jac_ops small) ≡ ok X)
        × Times small_represents c1 X 11)
    × ((X : JacPoint) × (mult_jac_var (pos 11) generator (jac_ops small) ≡ ok X)
        × Times small_represents c1 X 11)
    × ((X : JacPoint) × (mult_mont_ladder_var (pos 11) generator (jac_ops small) ≡ ok X)
        × Times small_represents c1 X 11)
binary_methods-Times_example = binary_methods-Times small_represents 11 generator generator-Shows

double_mult_var-Shows_example :
    (X : JacPoint) × (double_mult_var (pos 5) generator (pos 7) opposite (jac_ops small) ≡ ok X)
    × Shows small_represents X (plus3 (nmul cyclic3 5 c1) (nmul cyclic3 7 c2))
double_mult_var-Shows_example =
    double_mult_var-Shows small_represents 5 7 generator opposite generator-Shows opposite-Shows
