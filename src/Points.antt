-- ===== src/Points.antt =====
-- curves/curve.py: the operations on affine points, as the schemes of ecc/ call them.
pub mod Interface
pub mod Laws
pub mod Bip340
use ellipticcurves.Prelude.{ℕ, Bool, List, [], ◌∷◌, ◌==◌, ◌&&◌}
use ellipticcurves.Prelude.Int.{ℤ}
use ellipticcurves.Prelude.Result.{Result}
use ellipticcurves.Curve.{Point, inf}

-- `add` is `add_var`, `add_aff` is `add_aff_var`, `mult m Q` is `mult(m, Q)`, `multi_mult` is
-- `multi_mult_var`, and `double_mult u H v Q` is `double_mult_var`.
pub record PointArith : Type 0 where
  pub gen : Point
  pub add : Point → Point → Point
  pub add_aff : Point → Point → Point
  pub negate : Point → Point
  pub mult : ℕ → Point → Point
  pub double_mult : ℤ → Point → ℤ → Point → Point
  pub multi_mult : List ℕ → List Point → Result Point

-- Two tuples are equal.
abbrev pub same_point : Point → Point → Bool
same_point P Q = P.x == Q.x && P.y == Q.y

module _ (arith_of : PointArith) where
  -- The loop of `_sum_var` over points of the curve.
  pub add_up : Point → List Point → Point
  add_up total_point [] = total_point
  add_up total_point (Q ∷ points) = add_up (arith_of.add_aff total_point Q) points

  -- The Python arm.
  unfoldable pub sum_var : List Point → Point
  unfolding add_up
  sum_var points = add_up inf points

  -- The Python arm, for a point of the curve and a t below n.
  unfoldable pub tweak_add_var : Point → ℕ → Point
  tweak_add_var P t = arith_of.add P (arith_of.mult t arith_of.gen)
