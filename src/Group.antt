-- ===== src/Group.antt =====
-- The interface between the point formulas of curves/curve_group.py and the scalar multiplications
-- that call them: the methods of a `CurveGroup`, and what the multiplications rely on.
pub mod Multiple
pub mod Shows
pub mod Affine
use ellipticcurves.Prelude.{ℕ, zero, suc, ◌≡◌, List, [], ◌∷◌}
use ellipticcurves.Prelude.Int.{ℤ, pos, negsuc}

-- The methods of one coordinate system: infinity, sum, double and opposite.
pub record PointOps (J : Type 0) : Type 0 where
  pub infinity : J
  pub add : J → J → J
  pub double : J → J
  pub negate : J → J

-- The abelian group of the points themselves.
pub record AbelianGroup (G : Type 0) : Type 0 where
  pub zero_point : G
  pub plus : G → G → G
  pub minus : G → G
  pub plus_assoc : (a b c : G) → plus (plus a b) c ≡ plus a (plus b c)
  pub plus_comm : (a b : G) → plus a b ≡ plus b a
  pub plus_zero : (a : G) → plus a zero_point ≡ a
  pub plus_minus : (a : G) → plus a (minus a) ≡ zero_point

-- The formulas implement the group: on the tuples that are `On` the curve, which the formulas do
-- not leave, `view` takes each formula to the group's operation.
pub record Represents {J G : Type 0} (ec : PointOps J) (grp : AbelianGroup G) : Type 1 where
  pub On : J → Type 0
  pub view : J → G
  pub On-infinity : On ec.infinity
  pub On-add : (P Q : J) → On P → On Q → On (ec.add P Q)
  pub On-double : (P : J) → On P → On (ec.double P)
  pub On-negate : (P : J) → On P → On (ec.negate P)
  pub view-infinity : view ec.infinity ≡ grp.zero_point
  pub view-add : (P Q : J) → On P → On Q → view (ec.add P Q) ≡ grp.plus (view P) (view Q)
  pub view-double : (P : J) → On P → view (ec.double P) ≡ grp.plus (view P) (view P)
  pub view-negate : (P : J) → On P → view (ec.negate P) ≡ grp.minus (view P)

module _ {G : Type 0} (grp : AbelianGroup G) where
  -- n * g and k * g, the specification of every scalar multiplication.
  unfoldable pub nmul : ℕ → G → G
  nmul zero g = grp.zero_point
  nmul (suc n) g = grp.plus g (nmul n g)

  unfoldable pub zmul : ℤ → G → G
  zmul (pos n) g = nmul n g
  zmul (negsuc n) g = grp.minus (nmul (suc n) g)

  -- The sum of the multiples.
  unfoldable pub sum_of : List ℕ → List G → G
  sum_of (k ∷ ks) (a ∷ points) = grp.plus (nmul k a) (sum_of ks points)
  sum_of _ _ = grp.zero_point
