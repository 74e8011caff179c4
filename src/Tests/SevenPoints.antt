-- ===== src/Tests/SevenPoints.antt =====
-- The affine formulas of curves/curve_group.py on the curve of SevenOps, with `_mult_aff_var` for the
-- multiples, and sums of multiples that are added up one by one: they fill the interface of the
-- schemes.
use ellipticcurves.Prelude.{
  ℕ, suc, ◌%◌, ◌<◌, ◌≡◌, refl, sym, ap, ap₂, ◌∙◌, List, [], ◌∷◌, map, length, length-map, ltb, not,
  ◌==◌, ==_iff,
}
use ellipticcurves.Prelude.Int.{ℤ, pos, negsuc, ◌*ℤ◌, ◌-ℤ◌, mod_ℤ}
use ellipticcurves.Prelude.Result.{Result, ok, err, refuse, ◌>>◌, mismatch, not_a_multi_mult}
use ellipticcurves.NumberTheory.{mod_inv_var, pow_inverse, xgcd_var}
use ellipticcurves.Curve.{CurveGroup, Point, inf, negate}
use ellipticcurves.Curve.Affine.{
  add_aff_var, add_var, double_aff_var, require_on_curve, is_on_curve, y2,
}
use ellipticcurves.Curve.Cyclic3.{Cyclic3, c0, c1, c2, plus3, minus3, cyclic3}
use ellipticcurves.Group.{PointOps, Represents, nmul, zmul, sum_of}
use ellipticcurves.Group.Multiple.{nmul-mod}
use ellipticcurves.Mult.DoubleAndAdd.{mult_aff_var}
use ellipticcurves.Mult.DoubleAndAdd.Correct.{binary_methods-Times}
use ellipticcurves.Points.{PointArith}
use ellipticcurves.Points.Interface.{ImplementsPoints}
use ellipticcurves.Tests.SevenOps.{small_point, finite_law, ops, implements}
use ellipticcurves.Tests.SmallPoints.{many, element, back, order_law, positive_law, above_two_law}
use ellipticcurves.Tests.Ssa.{ssa_ops, implements_ssa}

abbrev seven : CurveGroup
seven = record { p = 7; a = 0; b = 4 }

-- What an operation returns that does not raise.
abbrev returned : Result Point → Point
returned (ok P) = P
returned (err e) = inf

abbrev pub aff_ops : PointOps Point
aff_ops = record {
  infinity = inf;
  add = λ P Q. returned (add_aff_var seven P Q);
  double = λ P. returned (double_aff_var seven P);
  negate = negate seven;
}

unfoldable pub mult : ℕ → Point → Point
mult m P = returned (mult_aff_var (pos (m % 3)) P aff_ops)

abbrev times : ℤ → Point → Point
times (pos m) P = mult m P
times (negsuc m) P = negate seven (mult (suc m) P)

abbrev add : Point → Point → Point
add P Q = returned (add_var seven P Q)

abbrev pub sum_multiples : List ℕ → List Point → Point
sum_multiples (k ∷ ks) (P ∷ Ps) = add (mult k P) (sum_multiples ks Ps)
sum_multiples _ _ = inf

abbrev pub multi_mult : List ℕ → List Point → Result Point
multi_mult ks Ps = do
  refuse (not (length ks == length Ps)) mismatch
  refuse (ltb (length ks) 2) not_a_multi_mult
  ok (sum_multiples ks Ps)

unfoldable pub seven_arith : PointArith
seven_arith = record {
  gen = small_point c1;
  add = add;
  add_aff = λ P Q. returned (add_aff_var seven P Q);
  negate = negate seven;
  mult = mult;
  double_mult = λ u H v Q. add (times u H) (times v Q);
  multi_mult = multi_mult;
}

pub add_aff_law :
    (a b : Cyclic3)
    → returned (add_aff_var seven (small_point a) (small_point b)) ≡ small_point (plus3 a b)
unfolding add_aff_var double_aff_var mod_inv_var pow_inverse xgcd_var mod_ℤ ◌-ℤ◌ ◌*ℤ◌ plus3
add_aff_law c0 c0 = refl
add_aff_law c0 c1 = refl
add_aff_law c0 c2 = refl
add_aff_law c1 c0 = refl
add_aff_law c1 c1 = refl
add_aff_law c1 c2 = refl
add_aff_law c2 c0 = refl
add_aff_law c2 c1 = refl
add_aff_law c2 c2 = refl

-- Infinity is the tuple (5, 0), whose coordinates are in the field.
on_seven : (a : Cyclic3) → require_on_curve seven (small_point a) ≡ ok tt
unfolding require_on_curve is_on_curve y2
on_seven c0 = refl
on_seven c1 = refl
on_seven c2 = refl

pub add_law : (a b : Cyclic3) → add (small_point a) (small_point b) ≡ small_point (plus3 a b)
unfolding add_var
add_law a b = rw (on_seven a, on_seven b) (add_aff_law a b)

double_law :
    (a : Cyclic3) → returned (double_aff_var seven (small_point a)) ≡ small_point (plus3 a a)
unfolding double_aff_var mod_inv_var pow_inverse xgcd_var mod_ℤ ◌-ℤ◌ ◌*ℤ◌ plus3
double_law c0 = refl
double_law c1 = refl
double_law c2 = refl

pub negate_law : (a : Cyclic3) → negate seven (small_point a) ≡ small_point (minus3 a)
unfolding negate mod_ℤ ◌-ℤ◌ minus3
negate_law c0 = refl
negate_law c1 = refl
negate_law c2 = refl

-- A point that an element names.
abbrev On : Point → Type 0
On P = small_point (element P) ≡ P

On-small : (P : Point) (a : Cyclic3) → P ≡ small_point a → On P
On-small P a e = ap (λ P. small_point (element P)) e ∙ ap small_point (back a) ∙ sym e

view-small : (P : Point) (a : Cyclic3) → P ≡ small_point a → element P ≡ a
view-small P a e = ap element e ∙ back a

added : (P Q : Point) → On P → On Q → aff_ops.add P Q ≡ small_point (plus3 (element P) (element Q))
added P Q p q = ap₂ aff_ops.add (sym p) (sym q) ∙ add_aff_law (element P) (element Q)

doubled : (P : Point) → On P → aff_ops.double P ≡ small_point (plus3 (element P) (element P))
doubled P p = ap aff_ops.double (sym p) ∙ double_law (element P)

negated : (P : Point) → On P → aff_ops.negate P ≡ small_point (minus3 (element P))
negated P p = ap aff_ops.negate (sym p) ∙ negate_law (element P)

abbrev represents : Represents aff_ops cyclic3
represents = record {
  On = On;
  view = element;
  On-infinity = refl;
  On-add = λ P Q p q. On-small _ _ (added P Q p q);
  On-double = λ P p. On-small _ _ (doubled P p);
  On-negate = λ P p. On-small _ _ (negated P p);
  view-infinity = refl;
  view-add = λ P Q p q. view-small _ _ (added P Q p q);
  view-double = λ P p. view-small _ _ (doubled P p);
  view-negate = λ P p. view-small _ _ (negated P p);
}

pub mult_law : (m : ℕ) (a : Cyclic3) → mult m (small_point a) ≡ small_point (nmul cyclic3 m a)
unfolding mult
mult_law m a =
    let (_, (X, e, t), _, _) =
      binary_methods-Times represents (m % 3) (small_point a)
        (record { on = ap small_point (back a); value = back a }) in
    ap returned e
    ∙ sym t.shows.on
    ∙ ap small_point (t.shows.value ∙ sym (nmul-mod cyclic3 3 m a (order_law a)))

pub times_law : (k : ℤ) (a : Cyclic3) → times k (small_point a) ≡ small_point (zmul cyclic3 k a)
unfolding zmul
times_law (pos m) a = mult_law m a
times_law (negsuc m) a = ap (negate seven) (mult_law (suc m) a) ∙ negate_law _

sum_law :
    (ks : List ℕ) (elements : List Cyclic3)
    → sum_multiples ks (map small_point elements) ≡ small_point (sum_of cyclic3 ks elements)
unfolding sum_of
sum_law [] elements = refl
sum_law (k ∷ ks) [] = refl
sum_law (k ∷ ks) (a ∷ elements) = ap₂ add (mult_law k a) (sum_law ks elements) ∙ add_law _ _

pub multi_mult_law :
    (ks : List ℕ) (elements : List Cyclic3)
    → length ks ≡ length elements
    → 1 < length elements
    → multi_mult ks (map small_point elements) ≡ ok (small_point (sum_of cyclic3 ks elements))
multi_mult_law ks elements same enough =
    rw
      (
        (==_iff (length ks) (length (map small_point elements))).1
            (same ∙ sym (length-map elements small_point)),
        many (length ks) (length elements) same enough,
        sum_law ks elements,
      )
      refl

unfoldable pub implements_seven : ImplementsPoints seven_arith ssa_ops cyclic3
unfolding seven_arith ssa_ops ops implements_ssa implements
implements_seven = record {
  base = implements_ssa;
  above_two = above_two_law;
  order_all = order_law;
  point_of = small_point;
  infinite = refl;
  finite = finite_law;
  y_positive = positive_law;
  gen_lem = refl;
  add_lem = add_law;
  add_aff_lem = add_aff_law;
  negate_lem = negate_law;
  mult_lem = mult_law;
  double_mult_lem = λ u v a b. ap₂ add (times_law u a) (times_law v b) ∙ add_law _ _;
  multi_mult_lem = multi_mult_law;
}
