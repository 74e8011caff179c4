-- ===== src/Points/Interface.antt =====
-- What the proofs about the schemes rely on in the operations on points.
use ellipticcurves.Prelude.{ℕ, ◌<◌, ◌≡◌, ◌≢◌, List, map, length}
use ellipticcurves.Prelude.Int.{ℤ}
use ellipticcurves.Prelude.Result.{ok}
use ellipticcurves.Curve.{Point, inf}
use ellipticcurves.Group.{AbelianGroup, nmul, zmul, sum_of}
use ellipticcurves.Ssa.{SsaOps}
use ellipticcurves.Ssa.Interface.{ImplementsSsa}
use ellipticcurves.Points.{PointArith}

-- Every operation returns the affine point of the element that the group gives, on the curve of
-- `ops`, whose elements all have an order that divides n; infinity is the tuple `inf`, which
-- `add_var` takes for p above 5, and no other point has the y-coordinate zero. `multi_mult` is asked
-- for equally many scalars and points, two at least, since it refuses the rest.
pub record ImplementsPoints {G : Type 0} (points : PointArith) (ops : SsaOps) (grp : AbelianGroup G)
    : Type 1 where
  pub base : ImplementsSsa ops grp
  pub above_two : 2 < ops.ec.n
  pub order_all : (a : G) → nmul grp ops.ec.n a ≡ grp.zero_point
  pub point_of : G → Point
  pub infinite : point_of grp.zero_point ≡ inf
  pub finite :
      (a : G)
      → a ≢ grp.zero_point
      → point_of a ≡ record { x = base.base.x_of a; y = base.base.y_of a }
  pub y_positive : (a : G) → a ≢ grp.zero_point → 0 < base.base.y_of a
  pub gen_lem : points.gen ≡ point_of base.base.g
  pub add_lem : (a b : G) → points.add (point_of a) (point_of b) ≡ point_of (grp.plus a b)
  pub add_aff_lem : (a b : G) → points.add_aff (point_of a) (point_of b) ≡ point_of (grp.plus a b)
  pub negate_lem : (a : G) → points.negate (point_of a) ≡ point_of (grp.minus a)
  pub mult_lem : (m : ℕ) (a : G) → points.mult m (point_of a) ≡ point_of (nmul grp m a)
  pub double_mult_lem :
      (u v : ℤ) (a b : G)
      → points.double_mult u (point_of a) v (point_of b)
        ≡ point_of (grp.plus (zmul grp u a) (zmul grp v b))
  pub multi_mult_lem :
      (ks : List ℕ) (elements : List G)
      → length ks ≡ length elements
      → 1 < length elements
      → points.multi_mult ks (map point_of elements) ≡ ok (point_of (sum_of grp ks elements))
