-- ===== src/Ecdsa/Signing/Interface.antt =====
-- What the proofs about ecc/dsa.py rely on in the operations of a curve.
use ellipticcurves.Prelude.{ℕ, ◌-◌, ◌*◌, ◌%◌, ◌<◌, ◌≡◌, ◌≢◌, true, false, ◌==◌, if◌then◌else◌}
use ellipticcurves.Prelude.Int.{pos}
use ellipticcurves.Prelude.Result.{ok}
use ellipticcurves.NumberTheory.{mod_inv_var}
use ellipticcurves.Curve.{JacPoint}
use ellipticcurves.Group.{AbelianGroup, nmul}
use ellipticcurves.Ecdsa.Signing.{EcOps}

-- The generator has order `n`, a prime: every residue but zero has an inverse. A tuple that shows an
-- element other than zero has the affine coordinates of that element, an opposite has the opposite
-- y-coordinate, and `y_even` returns the even root.
pub record Implements {G : Type 0} (ec : EcOps) (grp : AbelianGroup G) : Type 1 where
  pub Shows : JacPoint → G → Type 0
  pub g : G
  pub x_of : G → ℕ
  pub y_of : G → ℕ
  pub gen-Shows : Shows ec.gen g
  pub prime : (a : ℕ) → 0 < a → a < ec.n → (i : ℕ) × (mod_inv_var (pos a) (pos ec.n) ≡ ok i)
  pub order : nmul grp ec.n g ≡ grp.zero_point
  pub exact : (m : ℕ) → m < ec.n → nmul grp m g ≡ grp.zero_point → m ≡ 0
  pub x_of-minus : (a : G) → x_of (grp.minus a) ≡ x_of a
  pub mult_gen_x : (m : ℕ) → 0 < m → m < ec.n → (ec.mult_gen m).x ≡ x_of (nmul grp m g)
  pub mult_gen_y : (m : ℕ) → 0 < m → m < ec.n → (ec.mult_gen m).y ≡ y_of (nmul grp m g)
  pub double_mult-Shows :
      (v u : ℕ) (Q R : JacPoint) {a b : G}
      → Shows Q a
      → Shows R b
      → Shows (ec.double_mult v Q u R) (grp.plus (nmul grp v a) (nmul grp u b))
  pub infinity : (X : JacPoint) → Shows X grp.zero_point → (X.z == 0) ≡ true
  pub affine :
      (X : JacPoint) {a : G}
      → Shows X a
      → a ≢ grp.zero_point
      → ((X.z == 0) ≡ false)
        × ((i : ℕ) × (mod_inv_var (pos (X.z * X.z)) (pos ec.p) ≡ ok i) × (X.x * i % ec.p ≡ x_of a))
  pub odd_p : ec.p % 2 ≡ 1
  pub y_of-minus : (a : G) → a ≢ grp.zero_point → y_of (grp.minus a) ≡ ec.p - y_of a
  pub x_of_lt : (a : G) → a ≢ grp.zero_point → x_of a < ec.p
  pub y_of_lt : (a : G) → a ≢ grp.zero_point → y_of a < ec.p
  pub lift :
      (a : G)
      → a ≢ grp.zero_point
      → ec.y_even (x_of a) ≡ ok (if y_of a % 2 == 0 then y_of a else ec.p - y_of a)
  pub lifted-Shows :
      (a : G) → a ≢ grp.zero_point → Shows (record { x = x_of a; y = y_of a; z = 1 }) a
