-- ===== src/Tests/SevenOps.antt =====
-- The curve y^2 = x^3 + 4 over the field of seven elements, whose points are (0, 2), (0, 5) and
-- infinity, which (5, 0) spells: its operations, which fill the interface of the signatures.
use ellipticcurves.Prelude.{
  ℕ, ◌*◌, ◌%◌, ◌<◌, ◌≡◌, ◌≢◌, refl, sym, ap, ap₂, ◌∙◌, subst, ◌-◌, arith, false, ◌==◌,
  if◌then◌else◌,
}
use ellipticcurves.Prelude.Int.{pos, ◌*ℤ◌, ◌-ℤ◌, mod_ℤ}
use ellipticcurves.Prelude.Result.{Result, ok, err, no_root}
use ellipticcurves.NumberTheory.{mod_inv_var, pow_inverse, xgcd_var}
use ellipticcurves.Curve.{JacPoint, Point, inf, inf_j}
use ellipticcurves.Curve.Cyclic3.{Cyclic3, c0, c1, c2, plus3, minus3, cyclic3}
use ellipticcurves.Group.{nmul}
use ellipticcurves.Ecdsa.Signing.{EcOps}
use ellipticcurves.Ecdsa.Signing.Interface.{Implements}
use ellipticcurves.Tests.SmallOps.{prime_three, exact_three, order_three}

abbrev pub tuple_of : Cyclic3 → JacPoint
tuple_of c0 = inf_j
tuple_of c1 = record { x = 0; y = 2; z = 1 }
tuple_of c2 = record { x = 0; y = 5; z = 1 }

unfoldable pub element_of : JacPoint → Cyclic3
element_of Q = if Q.z == 0 then c0 else (if Q.y == 2 then c1 else c2)

element-tuple : (a : Cyclic3) → element_of (tuple_of a) ≡ a
unfolding element_of
element-tuple c0 = refl
element-tuple c1 = refl
element-tuple c2 = refl

abbrev pub small_point : Cyclic3 → Point
small_point c0 = inf
small_point c1 = record { x = 0; y = 2 }
small_point c2 = record { x = 0; y = 5 }

abbrev y_of_x : ℕ → Result ℕ
y_of_x x = if x == 0 then ok 2 else err no_root

unfoldable pub ops : EcOps
unfolding element_of
ops = record {
  n = 3;
  p = 7;
  cofactor = 1;
  gen = tuple_of c1;
  mult_gen = λ m. small_point (nmul cyclic3 m c1);
  double_mult =
      λ v Q u R. tuple_of (plus3 (nmul cyclic3 v (element_of Q)) (nmul cyclic3 u (element_of R)));
  mult_jac = λ m Q. tuple_of (nmul cyclic3 m (element_of Q));
  y_even = y_of_x;
}

abbrev pub Affine : Cyclic3 → JacPoint → Type 0
Affine a X =
    ((X.z == 0) ≡ false)
    × ((i : ℕ) × (mod_inv_var (pos (X.z * X.z)) (pos 7) ≡ ok i) × (X.x * i % 7 ≡ (tuple_of a).x))

pub Affine-law : (a : Cyclic3) → a ≢ c0 → Affine a (tuple_of a)
unfolding mod_inv_var pow_inverse xgcd_var mod_ℤ ◌-ℤ◌ ◌*ℤ◌
Affine-law c0 n = absurd (n refl)
Affine-law c1 n = (refl, (1, refl, refl))
Affine-law c2 n = (refl, (1, refl, refl))

pub opposite_x : (a : Cyclic3) → (tuple_of (minus3 a)).x ≡ (tuple_of a).x
unfolding minus3
opposite_x c0 = refl
opposite_x c1 = refl
opposite_x c2 = refl

pub opposite_y : (a : Cyclic3) → a ≢ c0 → (tuple_of (minus3 a)).y ≡ 7 - (tuple_of a).y
unfolding minus3
opposite_y c0 n = absurd (n refl)
opposite_y c1 n = refl
opposite_y c2 n = refl

pub coordinate_lt : (a : Cyclic3) → a ≢ c0 → ((tuple_of a).x < 7) × ((tuple_of a).y < 7)
coordinate_lt c0 n = absurd (n refl)
coordinate_lt c1 n = omega arith
coordinate_lt c2 n = omega arith

pub lift_law :
    (a : Cyclic3)
    → a ≢ c0
    → y_of_x (tuple_of a).x
      ≡ ok (if (tuple_of a).y % 2 == 0 then (tuple_of a).y else 7 - (tuple_of a).y)
lift_law c0 n = absurd (n refl)
lift_law c1 n = refl
lift_law c2 n = refl

abbrev pub lifted_tuple : Cyclic3 → JacPoint
lifted_tuple a = record { x = (tuple_of a).x; y = (tuple_of a).y; z = 1 }

pub lifted : (a : Cyclic3) → a ≢ c0 → lifted_tuple a ≡ tuple_of a
lifted c0 n = absurd (n refl)
lifted c1 n = refl
lifted c2 n = refl

pub shown : {X : JacPoint} {a : Cyclic3} → X ≡ tuple_of a → element_of X ≡ a
shown {a} e = ap element_of e ∙ element-tuple a

pub finite_law :
    (a : Cyclic3) → a ≢ c0 → small_point a ≡ record { x = (tuple_of a).x; y = (tuple_of a).y }
finite_law c0 n = absurd (n refl)
finite_law c1 n = refl
finite_law c2 n = refl

pub multiple_law : (m : ℕ) → 0 < m → m < 3 → nmul cyclic3 m c1 ≢ c0
multiple_law m p l e = absurd (omega (arith, exact_three m l e))

unfoldable pub implements : Implements ops cyclic3
unfolding ops
implements = record {
  Shows = λ X a. X ≡ tuple_of a;
  g = c1;
  x_of = λ a. (tuple_of a).x;
  y_of = λ a. (tuple_of a).y;
  gen-Shows = refl;
  prime = prime_three;
  order = order_three;
  exact = exact_three;
  x_of-minus = opposite_x;
  mult_gen_x = λ m p l. ap (λ (P : Point). P.x) (finite_law _ (multiple_law m p l));
  mult_gen_y = λ m p l. ap (λ (P : Point). P.y) (finite_law _ (multiple_law m p l));
  double_mult-Shows = λ v u Q R {a} {b} s t.
      ap₂ (λ k l. tuple_of (plus3 (nmul cyclic3 v k) (nmul cyclic3 u l))) (shown s) (shown t);
  infinity = λ X e. ap (λ (X : JacPoint). X.z == 0) e;
  affine = λ X {a} e n. subst (Affine a) (sym e) (Affine-law a n);
  odd_p = refl;
  y_of-minus = opposite_y;
  x_of_lt = λ a n. (coordinate_lt a n).0;
  y_of_lt = λ a n. (coordinate_lt a n).1;
  lift = lift_law;
  lifted-Shows = lifted;
}
