-- ===== src/Ssa/Interface.antt =====
-- What the proofs about ecc/ssa.py rely on in the operations of a curve.
use ellipticcurves.Prelude.{ℕ, ◌-◌, ◌*◌, ◌%◌, ◌<◌, ◌≡◌, ◌≢◌, ◌↔◌, true, ◌==◌, if◌then◌else◌}
use ellipticcurves.Prelude.Result.{ok, err, no_coordinate}
use ellipticcurves.Curve.{JacPoint}
use ellipticcurves.Group.{AbelianGroup}
use ellipticcurves.Ecdsa.Signing.Interface.{Implements}
use ellipticcurves.Ssa.{SsaOps}

-- Besides the operations of ECDSA: which numbers are x-coordinates, the affine coordinates of a tuple
-- and the even root, for the elements that are not zero.
pub record ImplementsSsa {G : Type 0} (ops : SsaOps) (grp : AbelianGroup G) : Type 1 where
  pub base : Implements ops.ec grp
  pub x_known : (a : G) → a ≢ grp.zero_point → ops.is_x_coordinate (base.x_of a) ≡ true
  pub y_aff-infinity :
      (X : JacPoint) → base.Shows X grp.zero_point → ops.y_aff X ≡ err no_coordinate
  pub y_aff_lem :
      (X : JacPoint) {a : G} → base.Shows X a → a ≢ grp.zero_point → ops.y_aff X ≡ ok (base.y_of a)
  pub x_aff_lem :
      (X : JacPoint) {a : G} → base.Shows X a → a ≢ grp.zero_point → ops.x_aff X ≡ ok (base.x_of a)
  pub x_matches :
      (X : JacPoint) (r : ℕ) {a : G}
      → base.Shows X a
      → a ≢ grp.zero_point
      → r < ops.ec.p
      → (X.x ≡ X.z * X.z * r % ops.ec.p) ↔ (base.x_of a ≡ r)
  pub lift_in_subgroup :
      (a : G)
      → a ≢ grp.zero_point
      → ops.y_even_in_subgroup (base.x_of a)
        ≡ ok (if base.y_of a % 2 == 0 then base.y_of a else ops.ec.p - base.y_of a)
