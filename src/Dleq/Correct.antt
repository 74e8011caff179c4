-- ===== src/Dleq/Correct.antt =====
-- ecc/dleq.py: the proof that generate_proof makes is accepted.
use native.Mathlib.Nat
use ellipticcurves.Prelude.{
  lt→ltb, positive_test, ℕ, ◌+◌, ◌*◌, ◌%◌, ◌<◌, ◌≡◌, ◌≢◌, refl, sym, ap, ap₂, ◌∙◌, arith, true,
  false, ltb, ◌==◌, ==_iff, List, [], ◌∷◌,
}
use ellipticcurves.Prelude.Int.{pos, neg_ℤ}
use ellipticcurves.Prelude.Result.{ok}
use ellipticcurves.Curve.{Point}
use ellipticcurves.Ecdsa.Signing.Verify.{inverse_found}
use ellipticcurves.Group.{AbelianGroup, nmul}
use ellipticcurves.Group.Multiple.{
  nmul-add, nmul-mul, nmul-one, nmul-zero_point, zmul-pos, zmul-neg_ℤ,
}
use ellipticcurves.Ssa.{SsaOps}
use ellipticcurves.Points.{PointArith}
use ellipticcurves.Points.Interface.{ImplementsPoints}
use ellipticcurves.Points.Laws.{nmul_rest, nmul_cong, y_of_finite}
use ellipticcurves.Dleq.{DleqOps, Proof, verify_proof, assert_proof_as_valid, generate_proof}

module _ {Aux Msg G : Type 0} {points : PointArith} {ops : SsaOps} {grp : AbelianGroup G}
    (impl : ImplementsPoints points ops grp) (nonce_hash : Aux → ℕ → Point → Point → Msg → ℕ)
    (challenge_hash : List Point → Msg → ℕ) where
  open grp use {zero_point, plus, minus, plus_assoc, plus_comm}
  open impl use {point_of}

  abbrev pub dleq : DleqOps Aux Msg
  dleq = record {
    points = points;
    n = ops.ec.n;
    nonce_hash = nonce_hash;
    challenge_hash = challenge_hash;
  }

  -- In a group of prime order no multiple below the order is infinity.
  pub multiple_finite :
      (k : ℕ) (a : G) → 0 < k → k < ops.ec.n → a ≢ zero_point → nmul grp k a ≢ zero_point
  multiple_finite k a h l f z =
      let (i, e) = impl.base.base.prime k h l in
      f (
        sym (nmul-one grp a)
        ∙ nmul_cong impl 1 (i * k) a (
            sym (
              ap (λ m. m % ops.ec.n) (Nat.mul_comm i k)
              ∙ inverse_found k ops.ec.n i (omega arith) e))
        ∙ nmul-mul grp i k a
        ∙ ap (nmul grp i) z
        ∙ nmul-zero_point grp i)

  -- `s * H - e * Q` for `s = k + e * a` and `Q = a * H`.
  nonce_back :
      (k e a : ℕ) (H : G)
      → points.double_mult
          (pos ((k + e * a) % ops.ec.n))
          (point_of H)
          (neg_ℤ (pos e))
          (point_of (nmul grp a H))
        ≡ point_of (nmul grp k H)
  nonce_back k e a H =
      impl.double_mult_lem (pos ((k + e * a) % ops.ec.n)) (neg_ℤ (pos e)) H (nmul grp a H)
      ∙ ap point_of (
          ap₂ plus
            (zmul-pos grp ((k + e * a) % ops.ec.n) H
              ∙ nmul_rest impl (k + e * a) H
              ∙ nmul-add grp k (e * a) H)
            (zmul-neg_ℤ grp (pos e) (nmul grp a H)
              ∙ ap minus (zmul-pos grp e (nmul grp a H) ∙ sym (nmul-mul grp e a H)))
          ∙ plus_assoc (nmul grp k H) (nmul grp (e * a) H) _
          ∙ ap (plus (nmul grp k H)) (grp.plus_minus (nmul grp (e * a) H))
          ∙ grp.plus_zero (nmul grp k H))

  -- The points of a proof are finite.
  record Hashed (a k : ℕ) (b h : G) : Type 0 where
    pub finite_h : ((point_of h).y == 0) ≡ false
    pub finite_b : ((point_of b).y == 0) ≡ false
    pub finite_A : ((points.mult a (point_of h)).y == 0) ≡ false
    pub finite_C : ((points.mult a (point_of b)).y == 0) ≡ false
    pub finite_R_1 : ((points.mult k (point_of h)).y == 0) ≡ false
    pub finite_R_2 : ((points.mult k (point_of b)).y == 0) ≡ false

  finite_multiple :
      (k : ℕ) (a : G)
      → 0 < k
      → k < ops.ec.n
      → a ≢ zero_point
      → ((points.mult k (point_of a)).y == 0) ≡ false
  finite_multiple k a l1 l2 f =
      ap (λ (P : Point). P.y == 0) (impl.mult_lem k a)
      ∙ y_of_finite impl (nmul grp k a) (multiple_finite k a l1 l2 f)

  hashed :
      (a k : ℕ) (b h : G)
      → 0 < a
      → a < ops.ec.n
      → 0 < k
      → k < ops.ec.n
      → b ≢ zero_point
      → h ≢ zero_point
      → Hashed a k b h
  hashed a k b h l1 l2 l3 l4 f1 f2 = record {
    finite_h = y_of_finite impl h f2;
    finite_b = y_of_finite impl b f1;
    finite_A = finite_multiple a h l1 l2 f2;
    finite_C = finite_multiple a b l1 l2 f1;
    finite_R_1 = finite_multiple k h l3 l4 f2;
    finite_R_2 = finite_multiple k b l3 l4 f1;
  }

  nonce_found :
      (k e a : ℕ) (H : G)
      → points.double_mult
          (pos ((k + e * a) % ops.ec.n))
          (point_of H)
          (neg_ℤ (pos e))
          (points.mult a (point_of H))
        ≡ points.mult k (point_of H)
  nonce_found k e a H =
      ap (points.double_mult (pos ((k + e * a) % ops.ec.n)) (point_of H) (neg_ℤ (pos e)))
        (impl.mult_lem a H)
      ∙ nonce_back k e a H
      ∙ sym (impl.mult_lem k H)

  abbrev hash_of : ℕ → ℕ → G → G → Msg → ℕ
  hash_of a k b h msg =
      challenge_hash
        (points.mult a (point_of h)
          ∷ point_of b
          ∷ points.mult a (point_of b)
          ∷ point_of h
          ∷ points.mult k (point_of h)
          ∷ points.mult k (point_of b)
          ∷ [])
        msg

  accepts :
      (a k : ℕ) (b h : G) (msg : Msg)
      → Hashed a k b h
      → assert_proof_as_valid dleq
          (points.mult a (point_of h))
          (point_of b)
          (points.mult a (point_of b))
          (record { e = hash_of a k b h msg; s = (k + hash_of a k b h msg * a) % ops.ec.n })
          (point_of h)
          msg
        ≡ ok tt
  unfolding assert_proof_as_valid
  accepts a k b h msg f =
      rw
        (
          f.finite_A,
          f.finite_b,
          f.finite_C,
          f.finite_h,
          lt→ltb ((k + hash_of a k b h msg * a) % ops.ec.n) ops.ec.n
              (Nat.mod-lt (k + hash_of a k b h msg * a) (omega (arith, impl.above_two))),
          nonce_found k (hash_of a k b h msg) a h,
          nonce_found k (hash_of a k b h msg) a b,
          f.finite_R_1,
          f.finite_R_2,
          (==_iff (hash_of a k b h msg) (hash_of a k b h msg)).1 refl,
        )
        refl

  verify_proof-ok :
      (A B C : Point) (proof : Proof) (H : Point) (msg : Msg)
      → assert_proof_as_valid dleq A B C proof H msg ≡ ok tt
      → verify_proof dleq A B C proof H msg ≡ true
  verify_proof-ok A B C proof H msg e = rw (verify_proof, e) refl

  -- For points that implement a group whose order is the prime n: for an a from 1 to n - 1,
  -- bases B and G that are not infinity and a nonce hash that is not zero modulo n,
  -- generate_proof returns a proof, and assert_proof_as_valid accepts it for a * G, B and a *
  -- B.
  pub generate_proof-accepted :
      (a : ℕ) (b h : G) (aux : Aux) (msg : Msg)
      → 0 < a
      → a < ops.ec.n
      → b ≢ zero_point
      → h ≢ zero_point
      → 0
        < nonce_hash aux a (points.mult a (point_of h)) (points.mult a (point_of b)) msg % ops.ec.n
      → (proof : Proof) × (generate_proof dleq a (point_of b) aux (point_of h) msg ≡ ok proof)
        × (assert_proof_as_valid dleq
              (points.mult a (point_of h))
              (point_of b)
              (points.mult a (point_of b))
              proof
              (point_of h)
              msg
            ≡ ok tt)
  unfolding generate_proof
  generate_proof-accepted a b h aux msg l1 l2 f1 f2 l3 =
      let k =
        nonce_hash aux a (points.mult a (point_of h)) (points.mult a (point_of b)) msg % ops.ec.n in
      let f = hashed a k b h l1 l2 l3 (Nat.mod-lt _ (omega (arith, impl.above_two))) f1 f2 in
      let accepted = accepts a k b h msg f in
      let verified =
        verify_proof-ok (points.mult a (point_of h)) (point_of b) (points.mult a (point_of b))
          (record { e = hash_of a k b h msg; s = (k + hash_of a k b h msg * a) % ops.ec.n })
          (point_of h) msg accepted in
      (
        record { e = hash_of a k b h msg; s = (k + hash_of a k b h msg * a) % ops.ec.n },
        rw
            (
              above l1,
              lt→ltb a ops.ec.n l2,
              f.finite_b,
              f.finite_h,
              f.finite_A,
              f.finite_C,
              positive_test k l3,
              f.finite_R_1,
              f.finite_R_2,
              verified,
            )
            refl,
        accepted,
      )
    where
      above : 0 < a → ltb 0 a ≡ true
      above l = ground arith
