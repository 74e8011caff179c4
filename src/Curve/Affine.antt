-- ===== src/Curve/Affine.antt =====
-- curves/curve_group.py: the affine coordinates of a Jacobian point, the affine formulas, and the
-- test that a point is on the curve. The coordinates of a point are not negative here.
pub mod Batch
use ellipticcurves.Prelude.{
  ℕ, zero, suc, ◌+◌, ◌-◌, ◌*◌, ◌/◌, ◌%◌, ◌^◌, ◌<◌, Bool, true, false, ◌&&◌, not, ◌==◌, ltb, leb,
  if◌then◌else◌, List, [], ◌∷◌,
}
use ellipticcurves.Prelude.Int.{ℤ, pos, ◌-ℤ◌, ◌*ℤ◌, ◌+ℤ◌, mod_ℤ}
use ellipticcurves.Prelude.Result.{
  Result, ok, err, ◌>>=◌, ◌>>◌, refuse, no_coordinate, x_not_in_range, y_not_in_range, not_on_curve,
}
use ellipticcurves.NumberTheory.{mod_inv_var, mod_inv_batch_var}
use ellipticcurves.Group.Affine.{AffineOps}
use ellipticcurves.Curve.{
  CurveGroup, JacPoint, Point, inf, jac_from_aff, jac_ops, add_jac_aff, negate, blinded_jac,
}

unfoldable pub aff_from_z_inv : CurveGroup → JacPoint → ℕ → Point
aff_from_z_inv ec Q z_inv =
    let z_inv2 = z_inv * z_inv % ec.p in
    record { x = Q.x * z_inv2 % ec.p; y = Q.y * z_inv2 % ec.p * z_inv % ec.p }

unfoldable pub aff_from_jac_var : CurveGroup → JacPoint → Result Point
unfolding aff_from_z_inv
aff_from_jac_var ec Q =
    if Q.z == 0
    then ok inf
    else (mod_inv_var (pos Q.z) (pos ec.p) >>= λ z_inv. ok (aff_from_z_inv ec Q z_inv))

-- `[Q[2] for Q in Qs if Q[2]]`
unfoldable pub finite_zs : List JacPoint → List ℤ
finite_zs [] = []
finite_zs (Q ∷ Qs) = let rest = finite_zs Qs in if Q.z == 0 then rest else pos Q.z ∷ rest

-- The comprehension that takes the next inverse for every finite point. There is one for each.
unfoldable pub hand_out : CurveGroup → List JacPoint → List ℕ → List Point
unfolding aff_from_z_inv
hand_out ec [] inverses = []
hand_out ec (Q ∷ Qs) [] = let rest = hand_out ec Qs [] in if Q.z == 0 then inf ∷ rest else []
hand_out ec (Q ∷ Qs) (i ∷ inverses) =
    let skipped = hand_out ec Qs (i ∷ inverses) in
    let taken = hand_out ec Qs inverses in
    if Q.z == 0 then inf ∷ skipped else aff_from_z_inv ec Q i ∷ taken

unfoldable pub aff_from_jac_batch_var : CurveGroup → List JacPoint → Result (List Point)
unfolding finite_zs hand_out
aff_from_jac_batch_var ec Qs =
    mod_inv_batch_var (finite_zs Qs) (pos ec.p) >>= λ inverses. ok (hand_out ec Qs inverses)

unfoldable pub x_aff_from_jac_var : CurveGroup → JacPoint → Result ℕ
x_aff_from_jac_var ec Q = do
  refuse (Q.z == 0) no_coordinate
  inv ← mod_inv_var (pos (Q.z * Q.z)) (pos ec.p)
  ok (Q.x * inv % ec.p)

unfoldable pub y_aff_from_jac_var : CurveGroup → JacPoint → Result ℕ
y_aff_from_jac_var ec Q = do
  refuse (Q.z == 0) no_coordinate
  inv ← mod_inv_var (pos (Q.z * Q.z * Q.z)) (pos ec.p)
  ok (Q.y * inv % ec.p)

unfoldable pub double_aff_var : CurveGroup → Point → Result Point
double_aff_var ec Q = if Q.y == 0 then ok inf else (do
  inv ← mod_inv_var (pos (2 * Q.y)) (pos ec.p)
  let lam = (3 * Q.x * Q.x + ec.a) * inv % ec.p
  let x = mod_ℤ (pos (lam * lam) -ℤ pos Q.x -ℤ pos Q.x) ec.p
  let y = mod_ℤ (pos lam *ℤ (pos Q.x -ℤ pos x) -ℤ pos Q.y) ec.p
  ok (record { x = x; y = y }))

-- The chord of two points with different x-coordinates.
unfoldable pub chord_aff : CurveGroup → Point → Point → Result Point
chord_aff ec Q R = do
  inv ← mod_inv_var (pos R.x -ℤ pos Q.x) (pos ec.p)
  let lam = mod_ℤ ((pos R.y -ℤ pos Q.y) *ℤ pos inv) ec.p
  let x = mod_ℤ (pos (lam * lam) -ℤ pos Q.x -ℤ pos R.x) ec.p
  let y = mod_ℤ (pos lam *ℤ (pos Q.x -ℤ pos x) -ℤ pos Q.y) ec.p
  ok (record { x = x; y = y })

unfoldable pub add_aff_var : CurveGroup → Point → Point → Result Point
unfolding double_aff_var chord_aff
add_aff_var ec Q R =
    if R.y == 0
    then ok Q
    else (if Q.y == 0
        then ok R
        else (if R.x == Q.x
            then (if R.y == Q.y then double_aff_var ec R else ok inf)
            else chord_aff ec Q R))

-- `_y2`
unfoldable pub y2 : CurveGroup → ℕ → ℕ
y2 ec x = ((x * x + ec.a) * x + ec.b) % ec.p

unfoldable pub is_on_curve : CurveGroup → Point → Result Bool
unfolding y2
is_on_curve ec Q = do
  refuse (not (ltb Q.x ec.p)) x_not_in_range
  (if Q.y == 0
      then ok true
      else (refuse (not (ltb Q.y ec.p)) y_not_in_range >>= λ _. ok (y2 ec Q.x == Q.y * Q.y % ec.p)))

unfoldable pub require_on_curve : CurveGroup → Point → Result (Unit {0})
unfolding is_on_curve
require_on_curve ec Q = do on ← is_on_curve ec Q; refuse (not on) not_on_curve

unfoldable pub add_var : CurveGroup → Point → Point → Result Point
unfolding require_on_curve add_aff_var
add_var ec Q1 Q2 = do require_on_curve ec Q1; require_on_curve ec Q2; add_aff_var ec Q1 Q2

-- The methods that the multiplications with affine tables call. `lam` is the random number that
-- `_blinded_jac` draws.
unfoldable pub affine_ops : CurveGroup → ℕ → ℕ → AffineOps JacPoint Point
unfolding aff_from_jac_batch_var
affine_ops ec lam scalar_len = record {
  jac = jac_ops ec;
  from_aff = jac_from_aff;
  to_aff_batch = aff_from_jac_batch_var ec;
  add_aff = add_jac_aff ec;
  negate_aff = negate ec;
  blind = λ Q. blinded_jac lam Q ec;
  scalar_len = scalar_len;
}
