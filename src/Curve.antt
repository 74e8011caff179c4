-- ===== src/Curve.antt =====
-- curves/curve_group.py: the class `CurveGroup`, its Jacobian formulas and coordinate changes.
-- A coordinate is a number; a difference is taken in the integers before it is reduced.
pub mod Infinity
pub mod AffineOperand
pub mod Affine
pub mod Roots
pub mod Cyclic3
pub mod SmallCurve
use ellipticcurves.Prelude.{
  ℕ, zero, suc, ◌+◌, ◌-◌, ◌*◌, ◌/◌, ◌%◌, ◌<◌, Bool, true, false, ◌&&◌, not, ◌==◌, if◌then◌else◌,
}
use ellipticcurves.Prelude.Int.{ℤ, pos, ◌-ℤ◌, ◌*ℤ◌, ◌+ℤ◌, mod_ℤ}
use ellipticcurves.Group.{PointOps}

-- The parameters that define the group; `_a_is_zero`, `_a_is_minus_3` and the stand-ins follow.
pub record CurveGroup : Type 0 where
  pub p : ℕ
  pub a : ℕ
  pub b : ℕ

pub record JacPoint : Type 0 where
  pub x : ℕ
  pub y : ℕ
  pub z : ℕ

pub record Point : Type 0 where
  pub x : ℕ
  pub y : ℕ

-- alias.INF and alias.INFJ
abbrev pub inf : Point
inf = record { x = 5; y = 0 }

abbrev pub inf_j : JacPoint
inf_j = record { x = 7; y = 0; z = 0 }

unfoldable pub jac_from_aff : Point → JacPoint
jac_from_aff Q = record { x = Q.x; y = Q.y; z = if Q.y == 0 then 0 else 1 }

-- `lam` is the random number that `_blinded_jac` draws from 1..p-1.
unfoldable pub blinded_jac : ℕ → JacPoint → CurveGroup → JacPoint
blinded_jac lam Q ec =
    let lam2 = lam * lam % ec.p in
    record { x = Q.x * lam2 % ec.p; y = Q.y * lam2 % ec.p * lam % ec.p; z = Q.z * lam % ec.p }

unfoldable pub negate : CurveGroup → Point → Point
negate ec Q = record { x = Q.x; y = mod_ℤ (pos ec.p -ℤ pos Q.y) ec.p }

unfoldable pub negate_jac : CurveGroup → JacPoint → JacPoint
negate_jac ec Q = record { x = Q.x; y = mod_ℤ (pos ec.p -ℤ pos Q.y) ec.p; z = Q.z }

unfoldable pub is_jac_equal : CurveGroup → JacPoint → JacPoint → Bool
is_jac_equal ec QJ PJ =
    let PJ2 = PJ.z * PJ.z in
    let QJ2 = QJ.z * QJ.z in
    if not (QJ.x * PJ2 % ec.p == PJ.x * QJ2 % ec.p)
    then false
    else (QJ.y * (PJ2 * PJ.z) % ec.p == PJ.y * (QJ2 * QJ.z) % ec.p)

abbrev pub stand_in_q : CurveGroup → JacPoint
stand_in_q ec = record { x = ec.p / 3; y = ec.p / 5; z = ec.p / 7 }

abbrev pub stand_in_r : CurveGroup → JacPoint
stand_in_r ec = record { x = ec.p / 11; y = ec.p / 13; z = ec.p / 17 }

-- The tangent numerator, in the spelling that the curve's `a` allows.
unfoldable pub tangent : CurveGroup → JacPoint → ℕ → ℕ
tangent ec Q QZ2 =
    if ec.a == 0
    then 3 * Q.x * Q.x % ec.p
    else (if ec.a == ec.p - 3
        then mod_ℤ (pos 3 *ℤ (pos Q.x -ℤ pos QZ2) *ℤ pos (Q.x + QZ2)) ec.p
        else (3 * Q.x * Q.x + ec.a * QZ2 * QZ2) % ec.p)

unfoldable pub double_jac_helper : CurveGroup → JacPoint → ℕ → JacPoint
unfolding tangent
double_jac_helper ec Q QZ2 =
    let p = ec.p in
    let QY2 = Q.y * Q.y % p in
    let W = tangent ec Q QZ2 in
    let V = 4 * Q.x * QY2 % p in
    let X = mod_ℤ (pos (W * W) -ℤ pos (2 * V)) p in
    let Y = mod_ℤ (pos W *ℤ (pos V -ℤ pos X) -ℤ pos (8 * QY2 * QY2)) p in
    record { x = X; y = Y; z = 2 * Q.y * Q.z % p }

unfoldable pub double_jac : CurveGroup → JacPoint → JacPoint
unfolding double_jac_helper
double_jac ec Q = double_jac_helper ec Q (if ec.a == 0 then 0 else Q.z * Q.z % ec.p)

-- `((X, Y, Z), R, Q, INFJ)[(Q[2] == 0) + 2 * (R[2] == 0)]`
unfoldable pub select_sum : JacPoint → JacPoint → JacPoint → Bool → Bool → JacPoint
select_sum chord R Q false false = chord
select_sum chord R Q true false = R
select_sum chord R Q false true = Q
select_sum chord R Q true true = inf_j

-- What both additions do once the points stand in one frame: `M` and `T` are the coordinates of
-- the first, `V` and `W` the differences, `Z` the answer's third coordinate. `R` is the second
-- operand, and the two tests say which operand is infinity. The doubling branch is `V == 0`.
unfoldable pub chord_sum :
    CurveGroup → JacPoint → JacPoint → Bool → Bool → ℕ → ℕ → ℕ → ℕ → ℕ → ℕ → JacPoint
unfolding double_jac_helper select_sum
chord_sum ec Q R q_inf r_inf QZ2 M T V W Z =
    let p = ec.p in
    if V == 0 && (not q_inf && not r_inf)
    then (if W == 0 then double_jac_helper ec Q QZ2 else inf_j)
    else (let V2 = V * V % p in
        let V3 = V2 * V % p in
        let MV2 = M * V2 % p in
        let X = mod_ℤ (pos (W * W) -ℤ pos V3 -ℤ pos (2 * MV2)) p in
        let Y = mod_ℤ (pos W *ℤ (pos MV2 -ℤ pos X) -ℤ pos (T * V3)) p in
        select_sum (record { x = X; y = Y; z = Z }) R Q q_inf r_inf)

-- `QS` and `RS` are the operands, or what stands in for the ones at infinity.
unfoldable pub add_jac_framed : CurveGroup → JacPoint → JacPoint → JacPoint → JacPoint → JacPoint
add_jac_framed ec Q R QS RS =
    let p = ec.p in
    let RZ2 = RS.z * RS.z % p in
    let RZ3 = RZ2 * RS.z % p in
    let QZ2 = QS.z * QS.z % p in
    let QZ3 = QZ2 * QS.z % p in
    let M = QS.x * RZ2 % p in
    let T = QS.y * RZ3 % p in
    let V = mod_ℤ (pos (RS.x * QZ2) -ℤ pos M) p in
    let W = mod_ℤ (pos (RS.y * QZ3) -ℤ pos T) p in
    chord_sum ec Q R (Q.z == 0) (R.z == 0) QZ2 M T V W (V * QS.z % p * RS.z % p)

unfoldable pub add_jac : CurveGroup → JacPoint → JacPoint → JacPoint
add_jac ec Q R =
    add_jac_framed ec Q R (if Q.z == 0 then stand_in_q ec else Q)
      (if R.z == 0 then stand_in_r ec else R)

-- `add_jac` with an affine second operand, whose third coordinate is one.
unfoldable pub add_jac_aff_framed : CurveGroup → JacPoint → Point → JacPoint → Point → JacPoint
add_jac_aff_framed ec Q R QS RS =
    let p = ec.p in
    let QZ2 = QS.z * QS.z % p in
    let QZ3 = QZ2 * QS.z % p in
    let M = QS.x in
    let T = QS.y in
    let V = mod_ℤ (pos (RS.x * QZ2) -ℤ pos M) p in
    let W = mod_ℤ (pos (RS.y * QZ3) -ℤ pos T) p in
    chord_sum ec Q (record { x = R.x; y = R.y; z = 1 }) (Q.z == 0) (R.y == 0) QZ2 M T V W
      (V * QS.z % p)

unfoldable pub add_jac_aff : CurveGroup → JacPoint → Point → JacPoint
add_jac_aff ec Q R =
    add_jac_aff_framed ec Q R (if Q.z == 0 then stand_in_q ec else Q)
      (if R.y == 0 then record { x = ec.p / 11; y = ec.p / 13 } else R)

-- The methods that the scalar multiplications call.
unfoldable pub jac_ops : CurveGroup → PointOps JacPoint
jac_ops ec = record {
  infinity = inf_j;
  add = add_jac ec;
  double = double_jac ec;
  negate = negate_jac ec;
}
