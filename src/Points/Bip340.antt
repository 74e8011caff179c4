-- ===== src/Points/Bip340.antt =====
-- ecc/ssa.py: a signature whose equation holds on the points is accepted.
use ellipticcurves.Prelude.{
  lt→ltb, ℕ, ◌+◌, ◌-◌, ◌%◌, ◌<◌, ◌≤◌, ◌≡◌, ◌≢◌, refl, sym, ap, ◌∙◌, subst, arith, Bool, List, true,
  false, ◌==◌, if◌then◌else◌,
}
use ellipticcurves.Prelude.Result.{Result, ok}
use ellipticcurves.Curve.{Point, JacPoint}
use ellipticcurves.Group.{AbelianGroup, nmul}
use ellipticcurves.Group.Multiple.{nmul-add, zero_plus}
use ellipticcurves.Points.{PointArith}
use ellipticcurves.Points.Interface.{ImplementsPoints}
use ellipticcurves.Points.Laws.{turn}
use ellipticcurves.Ssa.{SsaOps, Sig, assert_valid, assert_as_valid}
use ellipticcurves.Ssa.Batch.{assert_as_valid_single}
use ellipticcurves.Ssa.Verify.{nonce_point, assert_as_valid_bip340}

abbrev pub odd_y : Point → Bool
odd_y P = P.y % 2 == 1

module _ {G : Type 0} {points : PointArith} {ops : SsaOps} {grp : AbelianGroup G}
    (impl : ImplementsPoints points ops grp) where
  open grp use {zero_point, plus, minus, plus_assoc, plus_comm}
  open impl use {point_of}
  open impl.base.base use {g, x_of, y_of, Shows}

  x_of_point : (a : G) → a ≢ zero_point → (point_of a).x ≡ x_of a
  x_of_point a n = ap (λ (P : Point). P.x) (impl.finite a n)

  minus_finite : (a : G) → a ≢ zero_point → minus a ≢ zero_point
  minus_finite a n z = n (sym (grp.plus_zero a) ∙ ap (plus a) (sym z) ∙ grp.plus_minus a)

  -- The lift of the x-coordinate of a, with an even y.
  abbrev pub even : G → G
  even a = turn grp (odd_y (point_of a)) a

  record IsEven (a b : G) : Type 0 where
    pub finite : b ≢ zero_point
    pub same_x : x_of b ≡ x_of a
    pub even_y : y_of b % 2 ≡ 0
    pub lifted_y : (if y_of a % 2 == 0 then y_of a else ops.ec.p - y_of a) ≡ y_of b

  even-IsEven : (a : G) → a ≢ zero_point → IsEven a (even a)
  even-IsEven a n =
      rw (ap (λ (P : Point). P.y % 2 == 1) (impl.finite a n)) (split (y_of a % 2 == 1) refl)
    where
      parity :
          (y p : ℕ)
          → (y % 2 == 1) ≡ true
          → y < p
          → p % 2 ≡ 1
          → ((p - y) % 2 ≡ 0) × ((y % 2 == 0) ≡ false)
      parity y p t l o = ground arith

      even_test : (y : ℕ) → (y % 2 == 1) ≡ false → (y % 2 ≡ 0) × ((y % 2 == 0) ≡ true)
      even_test y t = ground arith

      split : (odd : Bool) → (y_of a % 2 == 1) ≡ odd → IsEven a (turn grp odd a)
      split true t =
          let (e, f) =
            parity (y_of a) ops.ec.p t (impl.base.base.y_of_lt a n) impl.base.base.odd_p in
          record {
            finite = minus_finite a n;
            same_x = impl.base.base.x_of-minus a;
            even_y = ap (λ k. k % 2) (impl.base.base.y_of-minus a n) ∙ e;
            lifted_y = rw f (sym (impl.base.base.y_of-minus a n));
          }
      split false t =
          let (e, f) = even_test (y_of a) t in
          record { finite = n; same_x = refl; even_y = e; lifted_y = rw f refl }

  -- s * G = R + e * Q on the points with an even y.
  module _ (challenge_value s : ℕ) (q r : G) (finite_q : q ≢ zero_point) (finite_r : r ≢ zero_point)
      (bound : s < ops.ec.n) (reduced : challenge_value ≤ ops.ec.n)
      (equation : nmul grp s g ≡ plus (even r) (nmul grp challenge_value (even q))) where
    abbrev sig : Sig
    sig = record { r = (point_of r).x; s = s }

    pub equation-assert_valid : assert_valid ops sig ≡ ok tt
    unfolding assert_valid
    equation-assert_valid =
        rw
          (
            ap ops.is_x_coordinate (x_of_point r finite_r) ∙ impl.base.x_known r finite_r,
            lt→ltb s ops.ec.n bound,
          )
          refl

    nonce_is_r : nonce_point impl.base challenge_value (even q) sig ≡ even r
    nonce_is_r =
        ap (plus (nmul grp (ops.ec.n - challenge_value) (even q))) (equation ∙ plus_comm (even r) _)
        ∙ sym (plus_assoc _ _ (even r))
        ∙ ap (λ a. plus a (even r))
            (sym (nmul-add grp (ops.ec.n - challenge_value) challenge_value (even q))
              ∙ ap (λ k. nmul grp k (even q)) {x = ops.ec.n - challenge_value + challenge_value}
                  {y = ops.ec.n} (omega arith)
              ∙ impl.order_all (even q))
        ∙ zero_plus grp (even r)

    abbrev lifted : JacPoint
    lifted = record { x = (point_of q).x; y = y_of (even q); z = 1 }

    accepted : assert_as_valid challenge_value lifted sig ops ≡ ok tt
    accepted =
        let even_r = even-IsEven r finite_r in
        let even_q = even-IsEven q finite_q in
        (assert_as_valid_bip340 impl.base challenge_value lifted sig
            (subst (λ x. Shows (record { x = x; y = y_of (even q); z = 1 }) (even q))
              (even_q.same_x ∙ sym (x_of_point q finite_q))
              (impl.base.base.lifted-Shows (even q) even_q.finite))
            (subst (λ x. x < ops.ec.p) (sym (x_of_point r finite_r))
              (impl.base.base.x_of_lt r finite_r))
            bound reduced).1
          (record {
            finite = λ z. even_r.finite (sym nonce_is_r ∙ z);
            even = ap (λ a. y_of a % 2) nonce_is_r ∙ even_r.even_y;
            same_x = ap x_of nonce_is_r ∙ even_r.same_x ∙ sym (x_of_point r finite_r);
          })

    -- It is accepted with the challenge of its message.
    pub equation-assert_as_valid_single :
        {Msg : Type 0} (challenge : Msg → ℕ → ℕ → Result ℕ)
        (sums : List ℕ → List Point → Result Point) (msg : Msg)
        → challenge msg (point_of q).x (point_of r).x ≡ ok challenge_value
        → assert_as_valid_single
            (record { ops = ops; challenge = challenge; multi_mult = sums })
            msg
            (point_of q).x
            sig
          ≡ ok tt
    unfolding assert_as_valid_single
    equation-assert_as_valid_single challenge sums msg e =
        rw (equation-assert_valid, found, e) accepted
      where
        found : ops.y_even_in_subgroup (point_of q).x ≡ ok (y_of (even q))
        found =
            ap ops.y_even_in_subgroup (x_of_point q finite_q)
            ∙ impl.base.lift_in_subgroup q finite_q
            ∙ ap ok (even-IsEven q finite_q).lifted_y
