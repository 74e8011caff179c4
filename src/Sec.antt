-- ===== src/Sec.antt =====
-- curves/sec_point.py: the octets of a point, `bytes_from_point` and `point_from_octets`, with the
-- checks of curves/curve.py that they call.
pub mod Read
pub mod Written
pub mod RoundTrip
pub mod Valid
use ellipticcurves.Prelude.{
  ℕ, ◌+◌, ◌-◌, ◌*◌, ◌%◌, Bool, true, false, List, [], ◌∷◌, ◌++◌, length, take, drop, ltb, ◌==◌, not,
  ◌&&◌, ◌||◌, if◌then◌else◌,
}
use ellipticcurves.Prelude.Bytes.{to_bytes, from_bytes}
use ellipticcurves.Prelude.Int.{pos}
use ellipticcurves.Prelude.Result.{
  Result, ok, err, refuse, ◌>>=◌, ◌>>◌, no_octets, no_public_key, not_on_curve, not_in_subgroup,
  compressed_size, uncompressed_size, hybrid_parity, not_a_point, octets_size, two_torsion,
}
use ellipticcurves.Curve.{CurveGroup, Point, jac_from_aff, jac_ops}
use ellipticcurves.Curve.Affine.{y2, is_on_curve}
use ellipticcurves.Curve.Roots.{y_even_var}
use ellipticcurves.Mult.DoubleAndAdd.{mult_jac_var}

pub record Curve : Type 0 where
  pub group : CurveGroup
  pub p_size : ℕ
  pub n : ℕ
  pub cofactor : ℕ

-- A public key, as octets or as the point that a tuple or a `PreparedPoint` holds.
pub data PubKey : Type 0 where
  as_octets : List ℕ → PubKey
  as_point : Point → PubKey

-- `Curve.is_on_curve`
unfoldable pub is_curve_point : Curve → Point → Result Bool
unfolding is_on_curve y2
is_curve_point ec Q = do
  is_point ← is_on_curve ec.group Q
  refuse (is_point && Q.y == 0 && y2 ec.group Q.x == 0) two_torsion
  ok is_point

unfoldable pub require_curve_point : Curve → Point → Result (Unit {0})
unfolding is_curve_point
require_curve_point ec Q = do on ← is_curve_point ec Q; refuse (not on) not_on_curve

unfoldable pub assert_in_subgroup : Curve → Point → Result (Unit {0})
unfolding mult_jac_var jac_ops
assert_in_subgroup ec Q = do
  R ← mult_jac_var (pos ec.n) (jac_from_aff Q) (jac_ops ec.group)
  refuse (ltb 1 ec.cofactor && not (R.z == 0)) not_in_subgroup

unfoldable pub bytes_from_point : Curve → Point → Bool → Result (List ℕ)
unfolding require_curve_point
bytes_from_point ec Q compressed = do
  require_curve_point ec Q
  refuse (Q.y == 0) no_octets
  let bytes_ = to_bytes ec.p_size Q.x
  ok (
      if compressed
      then (if Q.y % 2 == 1 then 3 else 2) ∷ bytes_
      else 4 ∷ bytes_ ++ to_bytes ec.p_size Q.y)

-- The branch of the prefixes 2 and 3; `rest` are the octets after the prefix.
unfoldable pub from_compressed : Curve → ℕ → List ℕ → Result Point
unfolding y_even_var require_curve_point assert_in_subgroup
from_compressed ec prefix rest = do
  refuse (not (length rest == ec.p_size)) compressed_size
  y_Q ← y_even_var ec.group (from_bytes rest)
  let Q : Point = record { x = from_bytes rest; y = if prefix == 2 then y_Q else ec.group.p - y_Q }
  require_curve_point ec Q
  assert_in_subgroup ec Q
  ok Q

-- The branch of the prefixes with both coordinates.
unfoldable pub from_uncompressed : Curve → ℕ → List ℕ → Result Point
unfolding is_curve_point assert_in_subgroup
from_uncompressed ec prefix rest = do
  refuse (not (length rest == 2 * ec.p_size)) uncompressed_size
  let Q : Point = record {
    x = from_bytes (take ec.p_size rest);
    y = from_bytes (drop ec.p_size rest);
  }
  refuse (Q.y == 0) no_octets
  refuse (not (prefix == 4) && not (Q.y % 2 == prefix - 6)) hybrid_parity
  on ← is_curve_point ec Q
  refuse (not on) not_on_curve
  assert_in_subgroup ec Q
  ok Q

abbrev pub is_compressed : ℕ → Bool
is_compressed prefix = prefix == 2 || prefix == 3

unfoldable pub point_from_octets : List ℕ → Curve → Bool → Result Point
point_from_octets [] ec hybrid = err octets_size
point_from_octets (prefix ∷ rest) ec hybrid = do
  refuse (not (length rest == ec.p_size || length rest == 2 * ec.p_size)) octets_size
  (if is_compressed prefix
      then from_compressed ec prefix rest
      else (if prefix == 4 || (hybrid && (prefix == 6 || prefix == 7))
          then from_uncompressed ec prefix rest
          else err not_a_point))

unfoldable pub point_from_pub_key : PubKey → Curve → Result Point
point_from_pub_key (as_octets pub_key) ec = elim (point_from_octets pub_key ec false) [
  | ok Q ↦ ok Q
  | err raised ↦ err no_public_key
]
point_from_pub_key (as_point Q) ec = do
  on ← is_curve_point ec Q
  refuse (not (on && not (Q.y == 0))) no_public_key
  assert_in_subgroup ec Q
  ok Q
