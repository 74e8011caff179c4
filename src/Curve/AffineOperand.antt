-- ===== src/Curve/AffineOperand.antt =====
-- The sum with an affine operand is the sum with that operand's Jacobian form.
use native.Mathlib.Nat.{mod-eq_of_lt, mod-mod, mul-one}
use ellipticcurves.Prelude.{
  ℕ, ◌*◌, ◌%◌, ◌<◌, ◌≡◌, ◌≢◌, ap, sym, ◌∙◌, false, ◌==◌, arith, ℕ_discrete,
}
use ellipticcurves.Curve.Infinity.{add_jac-infinity, add_jac_aff-infinity}
use ellipticcurves.Curve.{
  CurveGroup, JacPoint, Point, jac_from_aff, add_jac, add_jac_framed, add_jac_aff,
  add_jac_aff_framed,
}

jac_from_aff-infinity : (R : Point) → R.y ≡ 0 → (jac_from_aff R).z ≡ 0
unfolding jac_from_aff
jac_from_aff-infinity R h = ground arith

jac_from_aff-finite : (R : Point) → R.y ≢ 0 → (jac_from_aff R).z ≢ 0
unfolding jac_from_aff
jac_from_aff-finite R h = ground arith

module _ (ec : CurveGroup) (Q : JacPoint) (R : Point) (big : 1 < ec.p) where
  unit_square : 1 * 1 % ec.p ≡ 1
  unit_square = mod-eq_of_lt big

  in_frame : (n : ℕ) → n < ec.p → n * 1 % ec.p ≡ n
  in_frame n h = ap (λ k. k % ec.p) (mul-one n) ∙ mod-eq_of_lt h

  last_factor : (n : ℕ) → n % ec.p * 1 % ec.p ≡ n % ec.p
  last_factor n = ap (λ k. k % ec.p) (mul-one _) ∙ mod-mod n ec.p

  framed :
      Q.x < ec.p
      → Q.y < ec.p
      → R.y ≢ 0
      → add_jac_aff_framed ec Q R Q R
        ≡ add_jac_framed ec Q
            (record { x = R.x; y = R.y; z = 1 })
            Q
            (record { x = R.x; y = R.y; z = 1 })
  unfolding add_jac_aff_framed add_jac_framed
  framed hx hy hr =
      rw (unit_square, unit_square, in_frame Q.x hx, in_frame Q.y hy, last_factor, not_inf)
    where
      not_inf : (R.y == 0) ≡ false
      not_inf = ground arith

  finite_operands :
      Q.x < ec.p
      → Q.y < ec.p
      → Q.z ≢ 0
      → R.y ≢ 0
      → add_jac_aff ec Q R ≡ add_jac ec Q (jac_from_aff R)
  unfolding add_jac_aff add_jac jac_from_aff
  finite_operands hx hy hz hr = rw (q_finite, r_finite) (framed hx hy hr)
    where
      q_finite : (Q.z == 0) ≡ false
      q_finite = ground arith

      r_finite : (R.y == 0) ≡ false
      r_finite = ground arith

  -- For a modulus above one and a first operand with reduced coordinates, adding an affine point is
  -- adding its Jacobian form, infinities included.
  add_jac_aff-eq-add_jac :
      Q.x < ec.p → Q.y < ec.p → add_jac_aff ec Q R ≡ add_jac ec Q (jac_from_aff R)
  add_jac_aff-eq-add_jac hx hy = elim (ℕ_discrete Q.z 0) [
    | yes qz ↦ elim (ℕ_discrete R.y 0) [
      | yes ry ↦
          (add_jac_aff-infinity ec Q R).2 qz ry
          ∙ sym ((add_jac-infinity ec Q (jac_from_aff R)).2 qz (jac_from_aff-infinity R ry))
      | no ry ↦
          (add_jac_aff-infinity ec Q R).0 qz ry
          ∙ sym ((add_jac-infinity ec Q (jac_from_aff R)).0 qz (jac_from_aff-finite R ry))
    ]
    | no qz ↦ elim (ℕ_discrete R.y 0) [
      | yes ry ↦
          (add_jac_aff-infinity ec Q R).1 qz ry
          ∙ sym ((add_jac-infinity ec Q (jac_from_aff R)).1 qz (jac_from_aff-infinity R ry))
      | no ry ↦ finite_operands hx hy qz ry
    ]
  ]
