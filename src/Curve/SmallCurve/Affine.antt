-- ===== src/Curve/SmallCurve/Affine.antt =====
-- The affine points of the curve over the field of five elements, and the formulas that mix them
-- with tuples, checked on every tuple.
use ellipticcurves.Prelude.{
  ℕ, suc, ◌≡◌, refl, ap, sym, ◌∙◌, Bool, true, false, ◌&&◌, ◌==◌, if◌then◌else◌, arith, inl, inr,
  List, [], ◌∷◌, length,
}
use ellipticcurves.Prelude.Int.{mod_ℤ, ◌-ℤ◌, ◌*ℤ◌}
use ellipticcurves.Prelude.Result.{Result, ok, err}
use ellipticcurves.Prelude.Table.{Entries}
use ellipticcurves.Group.Shows.{Shows}
use ellipticcurves.Group.Affine.{RepresentsAffine}
use ellipticcurves.NumberTheory.{mod_inv_var, pow_inverse, xgcd_var}
use ellipticcurves.Curve.Cyclic3.{
  Cyclic3, c0, c1, c2, plus3, minus3, plus3_comm, plus3_zero, cyclic3, same, same→eq,
}
use ellipticcurves.Curve.{
  JacPoint, Point, inf, inf_j, jac_from_aff, negate, blinded_jac, add_jac_aff, add_jac_aff_framed,
  chord_sum, select_sum, double_jac_helper,
}
use ellipticcurves.Curve.Infinity.{add_jac_aff-infinity}
use ellipticcurves.Curve.Affine.{aff_from_jac_var, affine_ops}
use ellipticcurves.Curve.Affine.Batch.{each_aff, aff_from_jac_batch_var-eq-each_aff}
use ellipticcurves.Curve.SmallCurve.{
  small, small_represents, On, On-cases, On-infinity, on_small, one_of, view_small,
  view_at_infinity, finite_tuples, all_of, all_of_sound, and_true,
}

abbrev point_of : Cyclic3 → Point
point_of c0 = inf
point_of c1 = record { x = 3; y = 1 }
point_of c2 = record { x = 3; y = 4 }

is_point : Result Point → Point → Bool
is_point (err e) P = false
is_point (ok Q) P = Q.x == P.x && Q.y == P.y

is_point_sound : (r : Result Point) (P : Point) → is_point r P ≡ true → r ≡ ok P
unfolding is_point
is_point_sound (err e) P h = cc
is_point_sound (ok Q) P h =
    let (x, y) = and_true (Q.x == P.x) (Q.y == P.y) h in
    λ i. ok (record { x = the_same Q.x P.x x i; y = the_same Q.y P.y y i })
  where
    the_same : (a b : ℕ) → (a == b) ≡ true → a ≡ b
    the_same a b e = ground arith

aff_check : JacPoint → Bool
unfolding is_point aff_from_jac_var mod_inv_var view_small
aff_check Q = is_point (aff_from_jac_var small Q) (point_of (view_small Q))

aff_table : all_of finite_tuples aff_check ≡ true
unfolding all_of aff_check pow_inverse xgcd_var mod_ℤ ◌-ℤ◌ ◌*ℤ◌
aff_table = refl

aff_lem : (Q : JacPoint) → On Q → aff_from_jac_var small Q ≡ ok (point_of (view_small Q))
unfolding aff_from_jac_var aff_check
aff_lem Q q = elim (On-cases Q q) [
  | inl z ↦ rw (view_at_infinity Q z, z)
  | inr (_, t) ↦
      is_point_sound (aff_from_jac_var small Q) (point_of (view_small Q))
        (all_of_sound finite_tuples aff_check Q aff_table t)
]

add_aff_check : Cyclic3 → JacPoint → Bool
unfolding on_small one_of view_small plus3 same add_jac_aff add_jac_aff_framed chord_sum select_sum
    double_jac_helper ◌-ℤ◌ ◌*ℤ◌ mod_ℤ
add_aff_check h Q =
    on_small (add_jac_aff small Q (point_of h))
    && same (view_small (add_jac_aff small Q (point_of h))) (plus3 (view_small Q) h)

add_aff_table : (h : Cyclic3) → all_of finite_tuples (add_aff_check h) ≡ true
unfolding all_of add_aff_check
add_aff_table c0 = refl
add_aff_table c1 = refl
add_aff_table c2 = refl

pub from_aff_law : (h : Cyclic3) → Shows small_represents (jac_from_aff (point_of h)) h
unfolding small_represents on_small one_of view_small jac_from_aff
from_aff_law c0 = record { on = refl; value = refl }
from_aff_law c1 = record { on = refl; value = refl }
from_aff_law c2 = record { on = refl; value = refl }

-- Infinity with an affine point.
add_to_infinity :
    (Q : JacPoint) (h : Cyclic3)
    → Q.z ≡ 0
    → add_jac_aff small Q (point_of h)
      ≡ (if (point_of h).y == 0 then inf_j else jac_from_aff (point_of h))
add_to_infinity Q c0 z = (add_jac_aff-infinity small Q inf).2 z refl
add_to_infinity Q c1 z = (add_jac_aff-infinity small Q (point_of c1)).0 z (omega arith)
add_to_infinity Q c2 z = (add_jac_aff-infinity small Q (point_of c2)).0 z (omega arith)

infinity_law :
    (h : Cyclic3)
    → Shows small_represents (if (point_of h).y == 0 then inf_j else jac_from_aff (point_of h)) h
unfolding small_represents on_small one_of view_small jac_from_aff
infinity_law c0 = record { on = refl; value = refl }
infinity_law c1 = record { on = refl; value = refl }
infinity_law c2 = record { on = refl; value = refl }

pub add_aff_law :
    (Q : JacPoint) (h : Cyclic3)
    → On Q
    → Shows small_represents (add_jac_aff small Q (point_of h)) (plus3 (view_small Q) h)
unfolding add_aff_check small_represents
add_aff_law Q h q = elim (On-cases Q q) [
  | inl z ↦
      rw (add_to_infinity Q h z, view_at_infinity Q z, plus3_comm c0 h, plus3_zero h)
        (infinity_law h)
  | inr (_, t) ↦
      let (on, same) =
        and_true (on_small (add_jac_aff small Q (point_of h))) _
          (all_of_sound finite_tuples (add_aff_check h) Q (add_aff_table h) t) in
      record { on = on; value = same→eq _ _ same }
]

pub negate_aff_law : (h : Cyclic3) → negate small (point_of h) ≡ point_of (minus3 h)
unfolding negate minus3 mod_ℤ ◌-ℤ◌
negate_aff_law c0 = refl
negate_aff_law c1 = refl
negate_aff_law c2 = refl

blind_check : JacPoint → Bool
unfolding on_small one_of view_small same blinded_jac
blind_check Q =
    on_small (blinded_jac 3 Q small) && same (view_small (blinded_jac 3 Q small)) (view_small Q)

blind_table : all_of finite_tuples blind_check ≡ true
unfolding all_of blind_check
blind_table = refl

pub blind_law :
    (Q : JacPoint) → On Q → Shows small_represents (blinded_jac 3 Q small) (view_small Q)
unfolding blind_check small_represents
blind_law Q q = elim (On-cases Q q) [
  | inl z ↦ record {
    on = On-infinity (blinded_jac 3 Q small) (blinded_z z);
    value = view_at_infinity (blinded_jac 3 Q small) (blinded_z z) ∙ sym (view_at_infinity Q z);
  }
  | inr (_, t) ↦
      let (on, same) =
        and_true (on_small (blinded_jac 3 Q small)) _
          (all_of_sound finite_tuples blind_check Q blind_table t) in
      record { on = on; value = same→eq _ _ same }
]
  where
    blinded_z : Q.z ≡ 0 → (blinded_jac 3 Q small).z ≡ 0
    blinded_z z = unfold blinded_jac in rw z

pub each_law :
    (p : ℕ → Cyclic3) (Qs : List JacPoint) (k : ℕ)
    → Entries (λ i X. Shows small_represents X (p i)) k Qs
    → (As : List Point) × (each_aff small Qs ≡ ok As)
      × Entries (λ i a. a ≡ point_of (p i)) k As
      × (length As ≡ length Qs)
unfolding each_aff small_represents
each_law p [] k es = ([], refl, tt, refl)
each_law p (Q ∷ Qs) k es =
    let (As, e, as', l) = each_law p Qs (suc k) es.1 in
    (
      point_of (view_small Q) ∷ As,
      rw (aff_lem Q es.0.on, e),
      (ap point_of es.0.value, as'),
      ap suc l,
    )

-- The mixed formulas of this curve implement its group.
unfoldable pub small_represents_affine : RepresentsAffine (affine_ops small 3 3) cyclic3
unfolding affine_ops small_represents
small_represents_affine = record {
  rep = small_represents;
  Stands = λ a g. a ≡ point_of g;
  from_aff-Shows = λ a {g} e. rw e (from_aff_law g);
  add_aff-Shows = λ X a {g} {h} s e. rw (e, sym s.value) (add_aff_law X h s.on);
  negate_aff-Stands = λ a {g} e. ap (negate small) e ∙ negate_aff_law g;
  blind-Shows = λ X {g} s. rw (sym s.value) (blind_law X s.on);
  to_aff_batch-Stands = λ p Qs es.
      rw (aff_from_jac_batch_var-eq-each_aff small Qs (omega arith)) (each_law p Qs 0 es);
}
