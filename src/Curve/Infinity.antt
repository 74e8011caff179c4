-- ===== src/Curve/Infinity.antt =====
-- The sum with a point at infinity.
use ellipticcurves.Prelude.{◌≡◌, ◌≢◌, ◌==◌, if◌then◌else◌, ℕ_discrete, arith, ◌⊎◌, inl, inr}
use native.Mathlib.Nat.{zero-mod, mul-zero, zero-mul}
use ellipticcurves.Curve.{
  CurveGroup, JacPoint, Point, inf_j, jac_from_aff, select_sum, add_jac, add_jac_framed,
  add_jac_aff_framed, chord_sum, add_jac_aff, double_jac,
}

-- The cases of a sum with an operand at infinity.
pub add_jac-infinity :
    (ec : CurveGroup) (Q R : JacPoint)
    → (Q.z ≡ 0 → R.z ≢ 0 → add_jac ec Q R ≡ R)
      × (Q.z ≢ 0 → R.z ≡ 0 → add_jac ec Q R ≡ Q)
      × (Q.z ≡ 0 → R.z ≡ 0 → add_jac ec Q R ≡ inf_j)
unfolding add_jac add_jac_framed chord_sum select_sum
add_jac-infinity ec Q R = (λ h k. ground arith, λ h k. ground arith, λ h k. ground arith)

pub add_jac_aff-infinity :
    (ec : CurveGroup) (Q : JacPoint) (R : Point)
    → (Q.z ≡ 0 → R.y ≢ 0 → add_jac_aff ec Q R ≡ jac_from_aff R)
      × (Q.z ≢ 0 → R.y ≡ 0 → add_jac_aff ec Q R ≡ Q)
      × (Q.z ≡ 0 → R.y ≡ 0 → add_jac_aff ec Q R ≡ inf_j)
unfolding add_jac_aff add_jac_aff_framed chord_sum select_sum jac_from_aff
add_jac_aff-infinity ec Q R = (λ h k. ground arith, λ h k. ground arith, λ h k. ground arith)

-- Infinity and the points of order two, whose y is zero, double to infinity.
pub double_jac-infinity :
    (ec : CurveGroup) (Q : JacPoint) → (Q.z ≡ 0) ⊎ (Q.y ≡ 0) → (double_jac ec Q).z ≡ 0
unfolding double_jac
double_jac-infinity ec Q (inl h) = rw h (simp mul-zero (zero-mod ec.p))
double_jac-infinity ec Q (inr h) = rw h (simp (mul-zero, zero-mul) (zero-mod ec.p))

-- If an operand is at infinity, whatever the other coordinates of its tuple are, the sum is the
-- other operand, and it is the library's own infinity if both are.
pub add_jac-neutral :
    (ec : CurveGroup) (Q R : JacPoint)
    → (Q.z ≡ 0) ⊎ (R.z ≡ 0)
    → add_jac ec Q R ≡ (if Q.z == 0 then (if R.z == 0 then inf_j else R) else Q)
add_jac-neutral ec Q R h =
    let (left, right, both) = add_jac-infinity ec Q R in
    elim (ℕ_discrete Q.z 0) [
      | yes qz ↦ elim (ℕ_discrete R.z 0) [
        | yes rz ↦ ground (arith, both qz rz)
        | no rz ↦ ground (arith, left qz rz)
      ]
      | no qz ↦ elim (ℕ_discrete R.z 0) [
        | yes rz ↦ ground (arith, right qz rz)
        | no rz ↦ ground arith
      ]
    ]
