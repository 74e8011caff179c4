-- ===== src/Tests/Batch.antt =====
-- A batch of two signatures on the curve of SevenOps.
use ellipticcurves.Prelude.{
  ℕ, ◌%◌, ◌≡◌, ◌≢◌, ◌<◌, refl, subst, sym, ap, ◌∙◌, ap₂, arith, true, ◌==◌, if◌then◌else◌, List, [],
  ◌∷◌, map,
}
use ellipticcurves.Prelude.Int.{mod_ℤ, ◌-ℤ◌, ◌*ℤ◌}
use ellipticcurves.NumberTheory.{mod_inv_var, pow_inverse, xgcd_var}
use ellipticcurves.Curve.Affine.{add_var}
use ellipticcurves.Mult.DoubleAndAdd.{mult_aff_var}
use ellipticcurves.Prelude.Result.{ok, err, ok_inj, no_root, failed_verification}
use ellipticcurves.Curve.Cyclic3.{Cyclic3, c0, c1, plus3, cyclic3}
use ellipticcurves.Group.{nmul}
use ellipticcurves.Ssa.{Sig, assert_valid, assert_as_valid}
use ellipticcurves.Ssa.Batch.{BatchOps, assert_batch_as_valid, assert_as_valid_single}
use ellipticcurves.Ssa.Batch.Interface.{ImplementsBatch, All}
use ellipticcurves.Ssa.Batch.Correct.{assert_batch_as_valid_lem}
use ellipticcurves.Tests.SmallOps.{one_not_zero, order_three}
use ellipticcurves.Tests.SevenOps.{small_point, finite_law, tuple_of, ops, implements}
use ellipticcurves.Tests.SevenPoints.{mult, multi_mult, multi_mult_law}
use ellipticcurves.Tests.Ssa.{ssa_ops, implements_ssa}

-- Every challenge is 1.
unfoldable batch : BatchOps ℕ
batch = record { ops = ssa_ops; challenge = λ msg x_Q x_K. ok 1; multi_mult = multi_mult }

-- A point with an even y is spelled by its coordinates.
spelled :
    (elements : List Cyclic3)
    → All (λ a. (a ≢ c0) × ((tuple_of a).y % 2 ≡ 0)) elements
    → map (λ a. record { x = (tuple_of a).x; y = (tuple_of a).y }) elements
      ≡ map small_point elements
spelled [] h = refl
spelled (a ∷ elements) h = ap₂ (λ x xs. x ∷ xs) (sym (finite_law a h.0.0)) (spelled elements h.1)

even_root : (x y : ℕ) → (if x == 0 then ok 2 else err no_root) ≡ ok y → (x ≡ 0) × (y ≡ 2)
even_root x y e = ground arith

x_in_field : (x : ℕ) → (x == 0) ≡ true → x < 7
x_in_field x e = ground arith

one_lem : (c : ℕ) → ok 1 ≡ ok c → (0 < c) × (c < 3)
one_lem c e = subst (λ k. (0 < k) × (k < 3)) (ok_inj e) (omega arith)

lifted_c1 :
    (x y : ℕ)
    → (x ≡ 0) × (y ≡ 2)
    → (a : Cyclic3) × ((a ≢ c0) × ((tuple_of a).y % 2 ≡ 0))
      × ((tuple_of a).x ≡ x)
      × (record { x = x; y = y; z = 1 } ≡ tuple_of a)
      × (nmul cyclic3 3 a ≡ c0)
lifted_c1 x y e = (
  c1,
  (one_not_zero, refl),
  sym e.0,
  ap₂ (λ x y. record { x = x; y = y; z = 1 }) e.0 e.1,
  order_three,
)

unfoldable implements_batch : ImplementsBatch batch cyclic3
unfolding batch implements_ssa ssa_ops ops implements
implements_batch = record {
  base = implements_ssa;
  x_coordinate_lt = x_in_field;
  challenge_range = λ msg x_Q x_K {c} e. one_lem c e;
  lifted = λ x {y} e. lifted_c1 x y (even_root x y e);
  point_of = small_point;
  mult_gen_lem = λ m. refl;
  multi_mult_lem = λ ks elements same enough r e.
      ap (multi_mult ks) (spelled elements e) ∙ multi_mult_law ks elements same enough;
}

abbrev accepted : Sig
accepted = record { r = 0; s = 2 }

single : assert_as_valid_single batch 7 0 accepted ≡ ok tt
unfolding assert_as_valid_single batch ssa_ops ops assert_valid assert_as_valid plus3 nmul
single = refl

assert_batch_as_valid_lem_example :
    assert_batch_as_valid batch (2 ∷ []) (7 ∷ 8 ∷ []) (0 ∷ 0 ∷ []) (accepted ∷ accepted ∷ [])
    ≡ ok tt
unfolding batch ssa_ops ops assert_as_valid_single
assert_batch_as_valid_lem_example =
    assert_batch_as_valid_lem implements_batch (2 ∷ []) (7 ∷ 8 ∷ []) (0 ∷ 0 ∷ [])
      (accepted ∷ accepted ∷ []) refl ((omega arith, omega arith), tt) (single, (single, tt))

-- A signature with another s is refused.
refused :
    assert_batch_as_valid batch
      (2 ∷ [])
      (7 ∷ 8 ∷ [])
      (0 ∷ 0 ∷ [])
      (accepted ∷ record { r = 0; s = 1 } ∷ [])
    ≡ err failed_verification
unfolding assert_batch_as_valid batch ssa_ops ops assert_valid nmul plus3 add_var mult mult_aff_var
    mod_inv_var pow_inverse xgcd_var mod_ℤ ◌-ℤ◌ ◌*ℤ◌
refused = refl
