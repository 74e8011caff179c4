-- ===== src/Musig2/Partial.antt =====
-- ecc/musig2.py: the partial signature of a signer, and its verification.
use native.Mathlib.Nat
use ellipticcurves.Prelude.{
  lt→ltb, ℕ, ◌+◌, ◌*◌, ◌%◌, ◌<◌, ◌≤◌, ◌≡◌, refl, sym, ap, ap₂, ◌∙◌, subst, arith, Bool, true, false,
  ltb, not, ◌&&◌, if◌then◌else◌,
}
use ellipticcurves.Prelude.Result.{
  ok, >>=-ok, ok_inj, refuse-ok, first_nonce_range, second_nonce_range, prv_key_range,
  other_pub_key,
}
use ellipticcurves.Curve.{Point}
use ellipticcurves.Group.{AbelianGroup, nmul}
use ellipticcurves.Group.Multiple.{nmul-add, nmul-mul}
use ellipticcurves.Points.{same_point}
use ellipticcurves.Points.Laws.{
  turn, turn-plus, nmul-turn, nmul_rest, nmul_opposite, same_point_lem,
}
use ellipticcurves.Musig2.{
  MusigOps, Session, SessionValues, SecNonce, public_nonce, session_key_agg_coeff, is_odd, sign_of,
  turn_scalar, sign_values, sign, holds_for, partial_sig_verify,
}
use ellipticcurves.Musig2.Nonce.{sign-ok}
use ellipticcurves.Musig2.Interface.{ImplementsMusig}

module _ {G Msg : Type 0} {mu : MusigOps Msg} {grp : AbelianGroup G}
    (impl : ImplementsMusig mu grp) where
  open mu use {points, ops}
  open grp use {plus}
  open impl.arith_lem use {point_of}
  open impl.arith_lem.base.base use {g}

  -- The sign of a key and of a nonce, on the multiples.
  pub nmul_turned :
      (odd : Bool) (k : ℕ) (a : G)
      → k ≤ ops.ec.n
      → nmul grp (turn_scalar mu odd k) a ≡ turn grp odd (nmul grp k a)
  nmul_turned true k a h = nmul_opposite impl.arith_lem k a h
  nmul_turned false k a h = refl

  -- What `sign` adds up, for the coefficient a.
  abbrev pub Share : SessionValues → SecNonce → ℕ → ℕ → ℕ → Type 0
  Share values nonce d a s =
      (s < ops.ec.n)
      × (nmul grp s g
          ≡ plus
              (turn grp (is_odd mu values.R)
                (plus (nmul grp nonce.k_1 g) (nmul grp values.b (nmul grp nonce.k_2 g))))
              (nmul grp (values.e * a * (sign_of mu values.Q * values.gacc % ops.ec.n))
                (nmul grp d g)))

  partial_sum :
      (values : SessionValues) (nonce : SecNonce) (d a : ℕ)
      → nonce.k_1 < ops.ec.n
      → nonce.k_2 < ops.ec.n
      → Share values nonce d a (
          (turn_scalar mu (is_odd mu values.R) nonce.k_1
            + values.b * turn_scalar mu (is_odd mu values.R) nonce.k_2
            + values.e * a * (sign_of mu values.Q * values.gacc * d % ops.ec.n))
          % ops.ec.n)
  partial_sum values nonce d a l1 l2 =
      let odd = is_odd mu values.R in
      let k_1 = turn_scalar mu odd nonce.k_1 in
      let k_2 = turn_scalar mu odd nonce.k_2 in
      let w = sign_of mu values.Q * values.gacc in
      (
        Nat.mod-lt _ (omega (arith, l1)),
        nmul_rest impl.arith_lem (k_1 + values.b * k_2 + values.e * a * (w * d % ops.ec.n)) g
            ∙ nmul-add grp (k_1 + values.b * k_2) (values.e * a * (w * d % ops.ec.n)) g
            ∙ ap₂ plus
                (nmul-add grp k_1 (values.b * k_2) g
                  ∙ ap₂ plus (nmul_turned odd nonce.k_1 g (omega (arith, l1))) (
                      nmul-mul grp values.b k_2 g
                      ∙ ap (nmul grp values.b) (nmul_turned odd nonce.k_2 g (omega (arith, l2)))
                      ∙ nmul-turn grp odd values.b (nmul grp nonce.k_2 g))
                  ∙ sym (
                      turn-plus grp odd (nmul grp nonce.k_1 g)
                        (nmul grp values.b (nmul grp nonce.k_2 g))))
                (nmul-mul grp (values.e * a) (w * d % ops.ec.n) g
                  ∙ ap (nmul grp (values.e * a)) (
                      nmul_rest impl.arith_lem (w * d) g
                      ∙ nmul-mul grp w d g
                      ∙ sym (nmul_rest impl.arith_lem w (nmul grp d g)))
                  ∙ sym (nmul-mul grp (values.e * a) (w % ops.ec.n) (nmul grp d g))),
      )

  below_n : (k n : ℕ) → not (ltb 0 k && ltb k n) ≡ false → (0 < k) × (k < n)
  below_n k n e = ground arith

  pub multiple_of_gen : (d : ℕ) → points.mult d points.gen ≡ point_of (nmul grp d g)
  multiple_of_gen d = ap (points.mult d) impl.arith_lem.gen_lem ∙ impl.arith_lem.mult_lem d g

  pub sign_values-Share :
      (values : SessionValues) (nonce : SecNonce) (d : ℕ) (session : Session Msg) {s : ℕ}
      → sign_values mu values nonce d session ≡ ok s
      → (a : ℕ) × (session_key_agg_coeff mu values session (points.mult d points.gen) ≡ ok a)
        × Share values nonce d a s
  unfolding sign_values
  sign_values-Share values nonce d session {s} e =
      let (t1, e1) =
        refuse-ok (not (ltb 0 nonce.k_1 && ltb nonce.k_1 ops.ec.n)) first_nonce_range _ e in
      let (t2, e2) =
        refuse-ok (not (ltb 0 nonce.k_2 && ltb nonce.k_2 ops.ec.n)) second_nonce_range _ e1 in
      let (t3, e3) = refuse-ok (not (ltb 0 d && ltb d ops.ec.n)) prv_key_range _ e2 in
      let (t4, e4) =
        refuse-ok (not (same_point (points.mult d points.gen) nonce.pub_key)) other_pub_key _ e3 in
      let (a, e5, e6) =
        >>=-ok (session_key_agg_coeff mu values session (points.mult d points.gen)) _ e4 in
      (
        a,
        e5,
        subst (Share values nonce d a) (ok_inj e6) (
            partial_sum values nonce d a (below_n nonce.k_1 ops.ec.n t1).1
              (below_n nonce.k_2 ops.ec.n t2).1),
      )

  holds_for_lem :
      (values : SessionValues) (nonce : SecNonce) (d : ℕ) (session : Session Msg) {a s : ℕ}
      → session_key_agg_coeff mu values session (points.mult d points.gen) ≡ ok a
      → Share values nonce d a s
      → holds_for mu values s (public_nonce mu nonce) (points.mult d points.gen) session ≡ ok true
  unfolding holds_for
  holds_for_lem values nonce d session {a} {s} e share = rw e (
      ap ok (
        same_point_lem _ _ (
          multiple_of_gen s
          ∙ ap point_of share.1
          ∙ sym (impl.arith_lem.add_lem _ _)
          ∙ ap₂ points.add
              (sym (
                turned (is_odd mu values.R) _ _ (
                  ap₂ (λ P Q. points.add P (points.mult values.b Q)) (multiple_of_gen nonce.k_1)
                    (multiple_of_gen nonce.k_2)
                  ∙ ap (points.add _) (impl.arith_lem.mult_lem values.b _)
                  ∙ impl.arith_lem.add_lem _ _)))
              (ap point_of (sym (nmul_rest impl.arith_lem (values.e * a * w) (nmul grp d g)))
                ∙ sym (
                    ap (points.mult (values.e * a * w % ops.ec.n)) (multiple_of_gen d)
                    ∙ impl.arith_lem.mult_lem _ _)))))
    where
      w : ℕ
      w = sign_of mu values.Q * values.gacc % ops.ec.n

      turned :
          (odd : Bool) (P : Point) (b : G)
          → P ≡ point_of b
          → (if odd then points.negate P else P) ≡ point_of (turn grp odd b)
      turned true P b f = ap points.negate f ∙ impl.arith_lem.negate_lem b
      turned false P b f = f

  -- For operations on points that return what a group does whose every element n annihilates
  -- (multi_mult_var for as many scalars as points, two at least), and challenges from 1 to n
  -- - 1: when sign returns a partial signature for a key d, partial_sig_verify_ accepts it,
  -- in the same session, with the public nonces of the secret nonce and the public key d * G.
  pub partial_sig_verify-sign :
      (nonce : SecNonce) (d : ℕ) (session : Session Msg) {s : ℕ}
      → (sign mu nonce d session).0 ≡ ok s
      → partial_sig_verify mu s (public_nonce mu nonce) (points.mult d points.gen) session ≡ ok true
  unfolding partial_sig_verify
  partial_sig_verify-sign nonce d session {s} e =
      let (values, f, h) = (sign-ok mu nonce d session e).0 in
      let (a, k, share) = sign_values-Share values nonce d session h in
      rw (f, lt→ltb s ops.ec.n share.0) (holds_for_lem values nonce d session k share)
