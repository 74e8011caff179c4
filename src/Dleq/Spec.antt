-- ===== src/Dleq/Spec.antt =====
-- ecc/dleq.py: the proofs that are accepted, by their equations in the group.
use ellipticcurves.Prelude.{
  passed_lt, lt→ltb, passed_eq, ℕ, ◌<◌, ◌≡◌, ◌≢◌, ◌↔◌, refl, sym, ap, ap₂, ◌∙◌, Bool, true, false,
  ltb, ◌==◌, ◌||◌, not, ==_iff, List, [], ◌∷◌,
}
use ellipticcurves.Prelude.Int.{pos, neg_ℤ}
use ellipticcurves.Prelude.Result.{
  refuse_last, ok, ok_inj, >>=-ok, refuse-ok, no_public_key, s_not_in_range, infinite_r1,
  infinite_r2, invalid_challenge, no_octets,
}
use ellipticcurves.Curve.{Point}
use ellipticcurves.Group.{AbelianGroup, nmul}
use ellipticcurves.Group.Multiple.{zmul-pos, zmul-neg_ℤ}
use ellipticcurves.Ssa.{SsaOps}
use ellipticcurves.Points.{PointArith}
use ellipticcurves.Points.Interface.{ImplementsPoints}
use ellipticcurves.Points.Laws.{finite_of_y, y_of_finite}
use ellipticcurves.Dleq.{DleqOps, Proof, some_infinite, challenge, assert_proof_as_valid}

module _ {Aux Msg G : Type 0} {points : PointArith} {ops : SsaOps} {grp : AbelianGroup G}
    (impl : ImplementsPoints points ops grp) (nonce_hash : Aux → ℕ → Point → Point → Msg → ℕ)
    (challenge_hash : List Point → Msg → ℕ) where
  open grp use {zero_point, plus, minus, plus_assoc, plus_comm}
  open impl use {point_of}

  abbrev dleq : DleqOps Aux Msg
  dleq = record {
    points = points;
    n = ops.ec.n;
    nonce_hash = nonce_hash;
    challenge_hash = challenge_hash;
  }

  -- The points are not infinity, the two equations hold, and e is the hash.
  pub record Proves (a b c h : G) (proof : Proof) (msg : Msg) : Type 0 where
    pub finite : (a ≢ zero_point) × (b ≢ zero_point) × (c ≢ zero_point) × (h ≢ zero_point)
    pub bound : proof.s < ops.ec.n
    pub r_1 : G
    pub r_2 : G
    pub finite_r : (r_1 ≢ zero_point) × (r_2 ≢ zero_point)
    pub equation_1 : nmul grp proof.s h ≡ plus r_1 (nmul grp proof.e a)
    pub equation_2 : nmul grp proof.s b ≡ plus r_2 (nmul grp proof.e c)
    pub hash :
        proof.e
        ≡ challenge_hash
            (point_of a ∷ point_of b ∷ point_of c ∷ point_of h ∷ point_of r_1 ∷ point_of r_2 ∷ [])
            msg

  -- s * H - e * Q
  abbrev rest : ℕ → ℕ → G → G → G
  rest s e h q = plus (nmul grp s h) (minus (nmul grp e q))

  double_mult-rest :
      (s e : ℕ) (h q : G)
      → points.double_mult (pos s) (point_of h) (neg_ℤ (pos e)) (point_of q)
        ≡ point_of (rest s e h q)
  double_mult-rest s e h q =
      impl.double_mult_lem (pos s) (neg_ℤ (pos e)) h q
      ∙ ap₂ (λ k l. point_of (plus k l)) (zmul-pos grp s h)
          (zmul-neg_ℤ grp (pos e) q ∙ ap minus (zmul-pos grp e q))

  rest_equation : (s e : ℕ) (h q : G) → nmul grp s h ≡ plus (rest s e h q) (nmul grp e q)
  rest_equation s e h q = sym (
      plus_assoc (nmul grp s h) (minus (nmul grp e q)) (nmul grp e q)
      ∙ ap (plus (nmul grp s h))
          (plus_comm (minus (nmul grp e q)) (nmul grp e q) ∙ grp.plus_minus (nmul grp e q))
      ∙ grp.plus_zero (nmul grp s h))

  rest_of_equation : (s e : ℕ) (h q r : G) → nmul grp s h ≡ plus r (nmul grp e q) → rest s e h q ≡ r
  rest_of_equation s e h q r eq =
      ap (λ k. plus k (minus (nmul grp e q))) eq
      ∙ plus_assoc r (nmul grp e q) (minus (nmul grp e q))
      ∙ ap (plus r) (grp.plus_minus (nmul grp e q))
      ∙ grp.plus_zero r

  -- For points that implement a group whose order is the prime n: assert_proof_as_valid
  -- accepts a proof (e, s) for A, B, C and G exactly if s is below n, none of them is
  -- infinity, and there are points R1 and R2, not infinity, with s * G = R1 + e * A and s * B
  -- = R2 + e * C, of which e is the challenge hash.
  pub assert_proof_as_valid_iff :
      (a b c h : G) (proof : Proof) (msg : Msg)
      → (assert_proof_as_valid dleq (point_of a) (point_of b) (point_of c) proof (point_of h) msg
          ≡ ok tt)
        ↔ Proves a b c h proof msg
  unfolding assert_proof_as_valid challenge
  assert_proof_as_valid_iff a b c h proof msg = (accepted, proves)
    where
      or_false : (s t : Bool) → (s || t) ≡ false → (s ≡ false) × (t ≡ false)
      or_false false t e = (refl, e)
      or_false true t e = cc

      proves :
          Proves a b c h proof msg
          → assert_proof_as_valid dleq (point_of a) (point_of b) (point_of c) proof (point_of h) msg
            ≡ ok tt
      proves p =
          rw
            (
              y_of_finite impl a p.finite.0,
              y_of_finite impl b p.finite.1,
              y_of_finite impl c p.finite.2,
              y_of_finite impl h p.finite.3,
              lt→ltb proof.s ops.ec.n p.bound,
              double_mult-rest proof.s proof.e h a
                  ∙ ap point_of (rest_of_equation proof.s proof.e h a p.r_1 p.equation_1),
              double_mult-rest proof.s proof.e b c
                  ∙ ap point_of (rest_of_equation proof.s proof.e b c p.r_2 p.equation_2),
              y_of_finite impl p.r_1 p.finite_r.0,
              y_of_finite impl p.r_2 p.finite_r.1,
              (==_iff proof.e _).1 p.hash,
            )
            refl

      accepted :
          assert_proof_as_valid dleq (point_of a) (point_of b) (point_of c) proof (point_of h) msg
            ≡ ok tt
          → Proves a b c h proof msg
      accepted v =
          let (t1, v1) =
            refuse-ok (some_infinite (point_of a ∷ point_of b ∷ point_of c ∷ point_of h ∷ []))
              no_public_key _ v in
          let (ya, t2) = or_false ((point_of a).y == 0) _ t1 in
          let (yb, t3) = or_false ((point_of b).y == 0) _ t2 in
          let (yc, t4) = or_false ((point_of c).y == 0) _ t3 in
          let (yh, t5) = or_false ((point_of h).y == 0) _ t4 in
          let (t6, v2) = refuse-ok (not (ltb proof.s ops.ec.n)) s_not_in_range _ v1 in
          let (t7, v3) =
            refuse-ok
              ((points.double_mult (pos proof.s) (point_of h) (neg_ℤ (pos proof.e)) (point_of a)).y
                == 0)
              infinite_r1 _ v2 in
          let (t8, v4) =
            refuse-ok
              ((points.double_mult (pos proof.s) (point_of b) (neg_ℤ (pos proof.e)) (point_of c)).y
                == 0)
              infinite_r2 _ v3 in
          let (e, h1, h2) =
            >>=-ok
              (challenge dleq (point_of a) (point_of b) (point_of c)
                (points.double_mult (pos proof.s) (point_of h) (neg_ℤ (pos proof.e)) (point_of a))
                (points.double_mult (pos proof.s) (point_of b) (neg_ℤ (pos proof.e)) (point_of c))
                (point_of h) msg)
              _ v4 in
          let (t9, h3) =
            refuse-ok
              (some_infinite (
                point_of a
                ∷ point_of b
                ∷ point_of c
                ∷ point_of h
                ∷ points.double_mult (pos proof.s) (point_of h) (neg_ℤ (pos proof.e)) (point_of a)
                ∷ points.double_mult (pos proof.s) (point_of b) (neg_ℤ (pos proof.e)) (point_of c)
                ∷ []))
              no_octets _ h1 in
          let z1 = ap (λ (P : Point). P.y == 0) (sym (double_mult-rest proof.s proof.e h a)) ∙ t7 in
          let z2 = ap (λ (P : Point). P.y == 0) (sym (double_mult-rest proof.s proof.e b c)) ∙ t8 in
          record {
            finite = (
              finite_of_y impl _ a refl ya,
              finite_of_y impl _ b refl yb,
              finite_of_y impl _ c refl yc,
              finite_of_y impl _ h refl yh,
            );
            bound = passed_lt proof.s ops.ec.n t6;
            r_1 = rest proof.s proof.e h a;
            r_2 = rest proof.s proof.e b c;
            finite_r = (finite_of_y impl _ _ refl z1, finite_of_y impl _ _ refl z2);
            equation_1 = rest_equation proof.s proof.e h a;
            equation_2 = rest_equation proof.s proof.e b c;
            hash =
                passed_eq proof.e e (refuse_last (not (proof.e == e)) invalid_challenge h2)
                ∙ sym (ok_inj h3)
                ∙ ap₂
                    (λ P Q.
                      challenge_hash
                        (point_of a ∷ point_of b ∷ point_of c ∷ point_of h ∷ P ∷ Q ∷ []) msg)
                    (double_mult-rest proof.s proof.e h a) (double_mult-rest proof.s proof.e b c);
          }
