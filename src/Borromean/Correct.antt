-- ===== src/Borromean/Correct.antt =====
-- ecc/borromean.py: what sign returns, assert_as_valid accepts.
use ellipticcurves.Prelude.{
  ℕ, suc, ◌+◌, ◌*◌, ◌%◌, ◌≡◌, refl, sym, ap, ap₂, ◌∙◌, subst, arith, true, List, [], ◌∷◌, ◌++◌,
  length, ==_iff, not,
}
use ellipticcurves.Prelude.Int.{pos, neg_ℤ}
use ellipticcurves.Prelude.Result.{
  pass, ok, ok_inj, >>=-ok, refuse, ring_shape, failed_verification,
}
use ellipticcurves.Curve.{Point}
use ellipticcurves.Group.{AbelianGroup, nmul}
use ellipticcurves.Group.Multiple.{nmul-add, nmul-mul, zmul-pos, zmul-neg_ℤ, zero_plus}
use ellipticcurves.Ssa.{SsaOps}
use ellipticcurves.Points.{PointArith}
use ellipticcurves.Points.Interface.{ImplementsPoints}
use ellipticcurves.Points.Laws.{nmul_rest}
use ellipticcurves.Borromean.{
  RingOps, RingInput, BorromeanSig, zip, rings_of, same_octets, matches_pubk_rings,
  bytes_from_ring_point, get_msg_format, ring_challenge, ring_point, close_ring, close_rings,
  sign_ring, sign_rings, assert_valid_inputs, assert_valid, sign_, sign, walk, walk_rings,
  assert_as_valid, rings_bytes,
}
use ellipticcurves.Borromean.Ring.{IsInput, sign_ring-walk, length-sign_ring}

same_octets_refl : (xs : List ℕ) → same_octets xs xs ≡ true
same_octets_refl [] = refl
same_octets_refl (a ∷ xs) = rw ((==_iff a a).1 refl) (same_octets_refl xs)

-- Every ring has the key of its signer and the values that are drawn for it.
abbrev pub AreInputs : RingOps → List RingInput → Type 0
AreInputs ring [] = Unit
AreInputs ring (input ∷ inputs) = IsInput ring input × AreInputs ring inputs

module _ {G : Type 0} {points : PointArith} {ops : SsaOps} {grp : AbelianGroup G}
    (impl : ImplementsPoints points ops grp) (digest : List ℕ → List ℕ) (scalar_of : List ℕ → ℕ)
    (octets_of : Point → List ℕ) where
  open grp use {plus, minus, plus_assoc, plus_comm}
  open impl use {point_of}
  open impl.base.base use {g}

  abbrev pub ring : RingOps
  ring = record {
    points = points;
    n = ops.ec.n;
    digest = digest;
    scalar_of = scalar_of;
    octets_of = octets_of;
  }

  -- The value of the signer takes the walk back to k * G.
  equation :
      (k q e : ℕ)
      → ring_point ring e (points.mult q points.gen) ((k + q * e) % ops.ec.n)
        ≡ bytes_from_ring_point ring (points.mult k points.gen)
  unfolding ring_point
  equation k q e = ap (bytes_from_ring_point ring) (
      ap
        (λ P. points.double_mult (neg_ℤ (pos e)) (points.mult q P) (pos ((k + q * e) % ops.ec.n)) P)
        impl.gen_lem
      ∙ ap (λ Q. points.double_mult (neg_ℤ (pos e)) Q (pos ((k + q * e) % ops.ec.n)) (point_of g))
          (impl.mult_lem q g)
      ∙ impl.double_mult_lem (neg_ℤ (pos e)) (pos ((k + q * e) % ops.ec.n)) (nmul grp q g) g
      ∙ ap point_of (
          ap₂ plus
            (zmul-neg_ℤ grp (pos e) (nmul grp q g)
              ∙ ap minus (zmul-pos grp e (nmul grp q g) ∙ sym (nmul-mul grp e q g)))
            (zmul-pos grp ((k + q * e) % ops.ec.n) g
              ∙ nmul_rest impl (k + q * e) g
              ∙ ap (λ m. nmul grp m g) {x = k + q * e} {y = e * q + k} (omega arith)
              ∙ nmul-add grp (e * q) k g)
          ∙ sym (plus_assoc (minus (nmul grp (e * q) g)) (nmul grp (e * q) g) (nmul grp k g))
          ∙ ap (λ a. plus a (nmul grp k g))
              (plus_comm (minus (nmul grp (e * q) g)) (nmul grp (e * q) g)
                ∙ grp.plus_minus (nmul grp (e * q) g))
          ∙ zero_plus grp (nmul grp k g))
      ∙ sym (impl.mult_lem k g)
      ∙ ap (points.mult k) (sym impl.gen_lem))

  rings_walk :
      (m e0 : List ℕ) (i : ℕ) (inputs : List RingInput) {s : List (List ℕ)} {r : List ℕ}
      → AreInputs ring inputs
      → close_rings ring m i inputs ≡ ok r
      → sign_rings ring m e0 i inputs ≡ ok s
      → walk_rings ring m e0 i (rings_of inputs) s ≡ ok r
  unfolding close_rings sign_rings walk_rings
  rings_walk m e0 i [] {s} {r} is c f = subst (λ s. walk_rings ring m e0 i [] s ≡ ok r) (ok_inj f) c
  rings_walk m e0 i (input ∷ inputs) {s} {r} is c f =
      let (r1, c1, c2) = >>=-ok (close_ring ring m i input) _ c in
      let (r2, c3, c4) = >>=-ok (close_rings ring m (suc i) inputs) _ c2 in
      let (values, f1, f2) = >>=-ok (sign_ring ring m e0 i input) _ f in
      let (rest, f3, f4) = >>=-ok (sign_rings ring m e0 (suc i) inputs) _ f2 in
      let (e, w1, w2) = sign_ring-walk ring m i e0 input (equation input.k input.q) is.0 c1 f1 in
      ap (walk_rings ring m e0 i (rings_of (input ∷ inputs))) (sym (ok_inj f4))
      ∙ pass (ring_challenge ring m e0 i 0) _ w1
      ∙ pass (walk ring m i 0 e (zip input.keys values)) _ w2
      ∙ pass (walk_rings ring m e0 (suc i) (rings_of inputs) rest) _
          (rings_walk m e0 (suc i) inputs is.1 c3 f3)
      ∙ c4

  matches :
      (m e0 : List ℕ) (i : ℕ) (inputs : List RingInput) {s : List (List ℕ)}
      → AreInputs ring inputs
      → sign_rings ring m e0 i inputs ≡ ok s
      → matches_pubk_rings (rings_of inputs) s ≡ true
  unfolding sign_rings matches_pubk_rings
  matches m e0 i [] is f = subst (λ s. matches_pubk_rings [] s ≡ true) (ok_inj f) refl
  matches m e0 i (input ∷ inputs) is f =
      let (values, f1, f2) = >>=-ok (sign_ring ring m e0 i input) _ f in
      let (rest, f3, f4) = >>=-ok (sign_rings ring m e0 (suc i) inputs) _ f2 in
      subst (λ s. matches_pubk_rings (rings_of (input ∷ inputs)) s ≡ true) (ok_inj f4)
        (rw
          ((==_iff (length values) (length input.keys)).1
            (length-sign_ring ring m i e0 input is.0 f1))
          (matches m e0 (suc i) inputs is.1 f3))

  -- For points that implement a group whose order is the prime n: when sign returns a
  -- borromean ring signature for rings whose key at sign_key_idx is the signing key times the
  -- generator, with a value drawn for each position, assert_as_valid accepts it for the
  -- message and these rings.
  pub sign-assert_as_valid :
      (msg : List ℕ) (inputs : List RingInput) {sig : BorromeanSig}
      → AreInputs ring inputs
      → sign ring msg inputs ≡ ok sig
      → assert_as_valid ring msg sig (rings_of inputs) ≡ ok tt
  unfolding sign sign_ assert_as_valid
  sign-assert_as_valid msg inputs {sig} is f =
      let (m, f1, f2) = >>=-ok (get_msg_format ring msg (rings_of inputs)) _ f in
      let (_, f3, f4) = >>=-ok (rings_bytes ring (rings_of inputs)) _ f2 in
      let (_, f5, f6) = >>=-ok (assert_valid_inputs ring inputs) _ f4 in
      let (e0bytes, f7, f8) = >>=-ok (close_rings ring m 0 inputs) _ f6 in
      let e0 = digest (e0bytes ++ m) in
      let (s, f9, f10) = >>=-ok (sign_rings ring m e0 0 inputs) _ f8 in
      let made : BorromeanSig = record { e0 = e0; s = s } in
      let (_, f11, f12) = >>=-ok (assert_valid ops.ec.n made) _ f10 in
      subst (λ sig. assert_as_valid ring msg sig (rings_of inputs) ≡ ok tt) (ok_inj f12)
        (pass (assert_valid ops.ec.n made) _ f11
          ∙ pass (refuse (not (matches_pubk_rings (rings_of inputs) s)) ring_shape) _
              (ap (λ t. refuse (not t) ring_shape) (matches m e0 0 inputs is f9))
          ∙ pass (get_msg_format ring msg (rings_of inputs)) _ f1
          ∙ pass (walk_rings ring m e0 0 (rings_of inputs) s) _ (rings_walk m e0 0 inputs is f7 f9)
          ∙ ap (λ t. refuse (not t) failed_verification) (same_octets_refl e0))
