-- ===== src/Curve/Roots.antt =====
-- curves/curve_group.py: the y-coordinate that belongs to an x, `y_var`, and the choice between the
-- two, `y_even_var`, `y_low_var` and `y_quadratic_residue_var`.
pub mod OnCurve
use ellipticcurves.Prelude.{ℕ, ◌-◌, ◌/◌, ◌%◌, ltb, leb, ◌==◌, not, if◌then◌else◌}
use ellipticcurves.Prelude.Int.{pos}
use ellipticcurves.Prelude.Result.{
  Result, ok, err, ◌>>=◌, ◌>>◌, refuse, x_not_in_range, invalid_x, not_three_mod_four,
}
use ellipticcurves.NumberTheory.{or_else}
use ellipticcurves.NumberTheory.Roots.{mod_sqrt_var}
use ellipticcurves.Curve.{CurveGroup}
use ellipticcurves.Curve.Affine.{y2}

unfoldable pub y_var : CurveGroup → ℕ → Result ℕ
unfolding or_else mod_sqrt_var y2
y_var ec x = do
  refuse (not (ltb x ec.p)) x_not_in_range
  or_else (mod_sqrt_var (pos (y2 ec x)) (pos ec.p)) (err invalid_x)

unfoldable pub y_even_var : CurveGroup → ℕ → Result ℕ
unfolding y_var
y_even_var ec x = do root ← y_var ec x; ok (if not (root % 2 == 0) then ec.p - root else root)

unfoldable pub y_low_var : CurveGroup → ℕ → Result ℕ
unfolding y_var
y_low_var ec x = do root ← y_var ec x; ok (if leb root (ec.p / 2) then root else ec.p - root)

unfoldable pub y_quadratic_residue_var : CurveGroup → ℕ → Result ℕ
unfolding y_var
y_quadratic_residue_var ec x = do refuse (not (ec.p % 4 == 3)) not_three_mod_four; y_var ec x
