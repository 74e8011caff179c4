-- ===== src/Tests/Roots.antt =====
-- The square roots of number_theory.py at small numbers.
use ellipticcurves.Prelude.{ℕ, ◌*◌, ◌%◌, ◌≤◌, ◌≡◌, true, refl}
use ellipticcurves.Prelude.Int.{pos, negsuc, mod_ℤ, neg_ℤ}
use ellipticcurves.Prelude.Result.{ok, err, no_root}
use ellipticcurves.Curve.{CurveGroup}
use ellipticcurves.Curve.Affine.{is_on_curve}
use ellipticcurves.Curve.Roots.{y_var, y_even_var, y_low_var}
use ellipticcurves.Curve.Roots.OnCurve.{y_var-is_on_curve}
use ellipticcurves.NumberTheory.Roots.{mod_sqrt_var, legendre_symbol_var}
use ellipticcurves.NumberTheory.Roots.Square.{mod_sqrt_var_lem, mod_sqrt_var-square}

-- The general algorithm.
root_of_thirteen : mod_sqrt_var (pos 13) (pos 17) ≡ ok 8
unfolding mod_sqrt_var mod_ℤ neg_ℤ
root_of_thirteen = refl

mod_sqrt_var_lem_example : 8 * 8 % 17 ≡ mod_ℤ (pos 13) 17
mod_sqrt_var_lem_example = mod_sqrt_var_lem (pos 13) 17 root_of_thirteen

mod_sqrt_var-square_example :
    (r : ℕ) × (mod_sqrt_var (pos (2 * 2)) (pos 7) ≡ ok r) × (r * r % 7 ≡ 2 * 2 % 7)
mod_sqrt_var-square_example = mod_sqrt_var-square 2 7 refl refl

no_root_of_three : mod_sqrt_var (pos 3) (pos 7) ≡ err no_root
unfolding mod_sqrt_var mod_ℤ
no_root_of_three = refl

residue : legendre_symbol_var (pos 2) (pos 7) ≡ ok (pos 1)
unfolding legendre_symbol_var mod_ℤ
residue = refl

non_residue : legendre_symbol_var (negsuc 0) (pos 7) ≡ ok (negsuc 0)
unfolding legendre_symbol_var mod_ℤ neg_ℤ
non_residue = refl

abbrev curve : CurveGroup
curve = record { p = 11; a = 0; b = 7 }

-- 3 ^ 3 + 7 = 1 modulo 11.
found : y_var curve 3 ≡ ok 1
unfolding y_var mod_ℤ
found = refl

even_found : y_even_var curve 3 ≡ ok 10
unfolding y_even_var mod_ℤ
even_found = refl

y_var-is_on_curve_example :
    (is_on_curve curve (record { x = 3; y = 1 }) ≡ ok true)
    × ((even : ℕ) × (y_even_var curve 3 ≡ ok even)
        × (is_on_curve curve (record { x = 3; y = even }) ≡ ok true)
        × (even % 2 ≡ 0))
    × ((low : ℕ) × (y_low_var curve 3 ≡ ok low)
        × (is_on_curve curve (record { x = 3; y = low }) ≡ ok true)
        × (low ≤ 5))
y_var-is_on_curve_example = y_var-is_on_curve curve 3 1 refl found
