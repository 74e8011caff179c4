-- ===== src/Ssa/Verify.antt =====
-- ecc/ssa.py: `_assert_as_valid_` against the verification of BIP340.
use ellipticcurves.Prelude.{
  ℕ, ◌-◌, ◌*◌, ◌%◌, ◌<◌, ◌≤◌, ◌≡◌, ◌≢◌, ◌↔◌, sym, ap, ◌∙◌, subst, arith, false, ◌==◌, ==_iff, not,
}
use ellipticcurves.Prelude.Result.{
  ok, err, refuse, >>=-ok, ok_inj, refuse-ok, odd_y, failed_verification, no_coordinate,
}
use ellipticcurves.Curve.{JacPoint}
use ellipticcurves.Group.{AbelianGroup, nmul}
use ellipticcurves.Ssa.{SsaOps, Sig, assert_as_valid}
use ellipticcurves.Ssa.Interface.{ImplementsSsa}

module _ {G : Type 0} {ops : SsaOps} {grp : AbelianGroup G} (impl : ImplementsSsa ops grp) where
  open grp use {zero_point, plus}
  open impl.base use {Shows, g, x_of, y_of}

  abbrev pub nonce_point : ℕ → G → Sig → G
  nonce_point c Q sig = plus (nmul grp (ops.ec.n - c) Q) (nmul grp sig.s g)

  -- The verification of BIP340.
  pub record Accepts (c : ℕ) (Q : G) (sig : Sig) : Type 0 where
    pub finite : nonce_point c Q sig ≢ zero_point
    pub even : y_of (nonce_point c Q sig) % 2 ≡ 0
    pub same_x : x_of (nonce_point c Q sig) ≡ sig.r

  module _ (c : ℕ) (QJ : JacPoint) {Q : G} (sig : Sig) (key : Shows QJ Q)
      (h : sig.r < ops.ec.p) where
    abbrev K_tuple : JacPoint
    K_tuple = ops.ec.double_mult (ops.ec.n - c) QJ sig.s ops.ec.gen

    computed : Shows K_tuple (nonce_point c Q sig)
    computed =
        impl.base.double_mult-Shows (ops.ec.n - c) sig.s QJ ops.ec.gen key impl.base.gen-Shows

    has_y : (y : ℕ) → ops.y_aff K_tuple ≡ ok y → nonce_point c Q sig ≢ zero_point
    has_y y e z =
        no_result (sym (impl.y_aff-infinity K_tuple (subst (Shows K_tuple) z computed)) ∙ e)
      where
        no_result : err no_coordinate ≡ ok y → ⊥
        no_result q = cc

    assert_as_valid-Accepts : assert_as_valid c QJ sig ops ≡ ok tt → Accepts c Q sig
    unfolding assert_as_valid
    assert_as_valid-Accepts e =
        let (y, e1, e2) = >>=-ok (ops.y_aff K_tuple) _ e in
        let (t, e3) = refuse-ok (not (y % 2 == 0)) odd_y _ e2 in
        let finite = has_y y e1 in
        let same = ok_inj (sym e1 ∙ impl.y_aff_lem K_tuple computed finite) in
        record {
          finite = finite;
          even = ap (λ k. k % 2) (sym same) ∙ passed_even y t;
          same_x = (impl.x_matches K_tuple sig.r computed finite h).0 (passed_same _ _ e3);
        }
      where
        passed_even : (y : ℕ) → not (y % 2 == 0) ≡ false → y % 2 ≡ 0
        passed_even y t = ground arith

        passed_same : (a b : ℕ) → refuse (not (a == b)) failed_verification ≡ ok tt → a ≡ b
        passed_same a b e = ground arith

    Accepts-assert_as_valid : Accepts c Q sig → assert_as_valid c QJ sig ops ≡ ok tt
    unfolding assert_as_valid
    Accepts-assert_as_valid a = rw (
      impl.y_aff_lem K_tuple computed a.finite,
      (==_iff (y_of (nonce_point c Q sig) % 2) 0).1 a.even,
      (==_iff K_tuple.x (K_tuple.z * K_tuple.z * sig.r % ops.ec.p)).1
          ((impl.x_matches K_tuple sig.r computed a.finite h).1 a.same_x),
    )

    -- For the operations of a curve whose generator has prime order n, a tuple that stands
    -- for the key Q, an r below p, an s below n and a challenge c of at most n:
    -- _assert_as_valid_ of ecc/ssa.py accepts exactly the signatures that BIP340 does,
    -- those for which (n - c) * Q + s * G is not infinity, has an even y and has the
    -- x-coordinate r.
    pub assert_as_valid_bip340 :
        sig.s < ops.ec.n → c ≤ ops.ec.n → (assert_as_valid c QJ sig ops ≡ ok tt) ↔ Accepts c Q sig
    assert_as_valid_bip340 bound reduced = (assert_as_valid-Accepts, Accepts-assert_as_valid)
