-- ===== src/Tests/SmallPoints.antt =====
-- The table of the operations on the affine points of the curve of SevenOps, which fills the
-- interface of the schemes. Its entries are what the formulas in SevenPoints return.
use ellipticcurves.Prelude.{
  ℕ, ◌<◌, ◌≡◌, ◌≢◌, refl, sym, ◌∙◌, false, length, length-map, not, ltb, ==_iff, ap, ap₂, arith,
  ◌==◌, if◌then◌else◌, List, [], ◌∷◌, map,
}
use ellipticcurves.Prelude.Result.{Result, ok, refuse, ◌>>◌, mismatch, not_a_multi_mult}
use ellipticcurves.Curve.{Point}
use ellipticcurves.Curve.Cyclic3.{Cyclic3, c0, c1, c2, plus3, minus3, cyclic3}
use ellipticcurves.Group.{nmul, zmul, sum_of}
use ellipticcurves.Points.{PointArith}
use ellipticcurves.Points.Interface.{ImplementsPoints}
use ellipticcurves.Tests.SevenOps.{small_point, finite_law, tuple_of, ops, implements}
use ellipticcurves.Tests.Ssa.{ssa_ops, implements_ssa}

abbrev pub element : Point → Cyclic3
element P = if P.y == 0 then c0 else (if P.y == 2 then c1 else c2)

-- The refusals of `multi_mult_var`, and the sum in the group.
abbrev pub small_multi_mult : List ℕ → List Point → Result Point
small_multi_mult ks Ps = do
  refuse (not (length ks == length Ps)) mismatch
  refuse (ltb (length ks) 2) not_a_multi_mult
  ok (small_point (sum_of cyclic3 ks (map element Ps)))

unfoldable pub small_arith : PointArith
small_arith = record {
  gen = small_point c1;
  add = λ P Q. small_point (plus3 (element P) (element Q));
  add_aff = λ P Q. small_point (plus3 (element P) (element Q));
  negate = λ P. small_point (minus3 (element P));
  mult = λ m P. small_point (nmul cyclic3 m (element P));
  double_mult =
      λ u H v Q. small_point (plus3 (zmul cyclic3 u (element H)) (zmul cyclic3 v (element Q)));
  multi_mult = small_multi_mult;
}

pub back : (a : Cyclic3) → element (small_point a) ≡ a
back c0 = refl
back c1 = refl
back c2 = refl

pub all_back : (elements : List Cyclic3) → map element (map small_point elements) ≡ elements
all_back [] = refl
all_back (a ∷ elements) = ap₂ (λ x xs. x ∷ xs) (back a) (all_back elements)

pub order_law : (a : Cyclic3) → nmul cyclic3 3 a ≡ c0
unfolding nmul plus3
order_law c0 = refl
order_law c1 = refl
order_law c2 = refl

pub positive_law : (a : Cyclic3) → a ≢ c0 → 0 < (tuple_of a).y
positive_law c0 n = absurd (n refl)
positive_law c1 n = omega arith
positive_law c2 n = omega arith

pub above_two_law : 2 < 3
above_two_law = omega arith

-- Equally many, two at least.
pub many : (k l : ℕ) → k ≡ l → 1 < l → ltb k 2 ≡ false
many k l e h = ground arith

pub small_multi_mult_lem :
    (ks : List ℕ) (elements : List Cyclic3)
    → length ks ≡ length elements
    → 1 < length elements
    → small_multi_mult ks (map small_point elements) ≡ ok (small_point (sum_of cyclic3 ks elements))
small_multi_mult_lem ks elements same enough =
    rw
      (
        (==_iff (length ks) (length (map small_point elements))).1
            (same ∙ sym (length-map elements small_point)),
        many (length ks) (length elements) same enough,
        all_back elements,
      )
      refl

unfoldable pub implements_points : ImplementsPoints small_arith ssa_ops cyclic3
unfolding small_arith ssa_ops ops implements_ssa implements
implements_points = record {
  base = implements_ssa;
  above_two = above_two_law;
  order_all = order_law;
  point_of = small_point;
  infinite = refl;
  finite = finite_law;
  y_positive = positive_law;
  gen_lem = refl;
  add_lem = λ a b. ap₂ (λ k l. small_point (plus3 k l)) (back a) (back b);
  add_aff_lem = λ a b. ap₂ (λ k l. small_point (plus3 k l)) (back a) (back b);
  negate_lem = λ a. ap (λ k. small_point (minus3 k)) (back a);
  mult_lem = λ m a. ap (λ k. small_point (nmul cyclic3 m k)) (back a);
  double_mult_lem = λ u v a b.
      ap₂ (λ k l. small_point (plus3 (zmul cyclic3 u k) (zmul cyclic3 v l))) (back a) (back b);
  multi_mult_lem = small_multi_mult_lem;
}
