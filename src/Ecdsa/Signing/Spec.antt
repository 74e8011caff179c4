-- ===== src/Ecdsa/Signing/Spec.antt =====
-- ecc/dsa.py: `_assert_as_valid_` against the textbook verification, and its malleability.
use native.Mathlib.Nat
use ellipticcurves.Prelude.{
  ℕ, ◌+◌, ◌-◌, ◌*◌, ◌/◌, ◌%◌, ◌<◌, ◌≡◌, ◌≢◌, ◌↔◌, refl, sym, ap, ◌∙◌, subst, arith, Bool, true,
  false, ltb, ◌==◌, not, ◌&&◌,
}
use ellipticcurves.Prelude.Int.{pos}
use ellipticcurves.Prelude.Modular.{mod_ℤ-pos, mod-mul_left, mod_of_multiples}
use ellipticcurves.Prelude.Result.{
  ok, refuse, >>=-ok, ok_inj, refuse-ok, high_s, infinite_key, failed_verification,
}
use ellipticcurves.NumberTheory.{mod_inv_var}
use ellipticcurves.NumberTheory.Inverse.{IsInverse, IsInverse-of, mod_inv_var-Inverts, agree}
use ellipticcurves.Curve.{JacPoint}
use ellipticcurves.Group.{AbelianGroup, nmul}
use ellipticcurves.Group.Multiple.{nmul-add, minus_unique}
use ellipticcurves.Ecdsa.{Sig}
use ellipticcurves.Ecdsa.Signing.{EcOps, assert_as_valid}
use ellipticcurves.Ecdsa.Signing.Interface.{Implements}
use ellipticcurves.Ecdsa.Signing.Modular.{opposite_product, inverse_positive}
use ellipticcurves.Ecdsa.Signing.Verify.{nmul-cong, combination, accepted}
use ellipticcurves.Ecdsa.Signing.Correct.{minus_not_zero}

same_number : (a b : ℕ) → refuse (not (a == b)) failed_verification ≡ ok tt → a ≡ b
same_number a b e = ground arith

module _ {G : Type 0} {ec : EcOps} {grp : AbelianGroup G} (impl : Implements ec grp) where
  open grp use {zero_point, plus, minus, plus_comm}
  open impl use {Shows, g, x_of}

  abbrev pub verified_point : ℕ → G → Sig → ℕ → G
  verified_point c Q sig w = plus (nmul grp (sig.r * w % ec.n) Q) (nmul grp (c * w % ec.n) g)

  -- The textbook verification of a signature of the challenge `c` by the key `Q`.
  pub record Accepts (c : ℕ) (Q : G) (sig : Sig) (lower_s : Bool) : Type 0 where
    pub low : (lower_s && ltb (ec.n / 2) sig.s) ≡ false
    pub w : ℕ
    pub inverse : IsInverse (pos sig.s) ec.n w
    pub finite : verified_point c Q sig w ≢ zero_point
    pub congruent : sig.r ≡ x_of (verified_point c Q sig w) % ec.n

  module _ (c : ℕ) (QJ : JacPoint) {Q : G} (sig : Sig) (lower_s : Bool) (key : Shows QJ Q)
      (h : 0 < ec.n) where
    computed :
        (w : ℕ)
        → Shows
            (ec.double_mult (sig.r * w % ec.n) QJ (c * w % ec.n) ec.gen)
            (verified_point c Q sig w)
    computed w =
        impl.double_mult-Shows (sig.r * w % ec.n) (c * w % ec.n) QJ ec.gen key impl.gen-Shows

    not_infinity :
        (w : ℕ)
        → ((ec.double_mult (sig.r * w % ec.n) QJ (c * w % ec.n) ec.gen).z == 0) ≡ false
        → verified_point c Q sig w ≢ zero_point
    not_infinity w z e = no_bool (
        sym (
          impl.infinity _ (
            subst (Shows (ec.double_mult (sig.r * w % ec.n) QJ (c * w % ec.n) ec.gen)) e
              (computed w)))
        ∙ z)
      where
        no_bool : true ≡ false → ⊥
        no_bool q = cc

    assert_as_valid-Accepts : assert_as_valid c QJ sig ec lower_s ≡ ok tt → Accepts c Q sig lower_s
    unfolding assert_as_valid
    assert_as_valid-Accepts e =
        let (l, e1) = refuse-ok (lower_s && ltb (ec.n / 2) sig.s) high_s _ e in
        let (w, e2, e3) = >>=-ok (mod_inv_var (pos sig.s) (pos ec.n)) _ e1 in
        let KJ = ec.double_mult (sig.r * w % ec.n) QJ (c * w % ec.n) ec.gen in
        let (z, e4) = refuse-ok (KJ.z == 0) infinite_key _ e3 in
        let (i, e5, e6) = >>=-ok (mod_inv_var (pos (KJ.z * KJ.z)) (pos ec.p)) _ e4 in
        let finite = not_infinity w z in
        let (z', (j, f, x)) = impl.affine KJ (computed w) finite in
        record {
          low = l;
          w = w;
          inverse = IsInverse-of (pos sig.s) ec.n w h e2;
          finite = finite;
          congruent =
              same_number sig.r (KJ.x * i % ec.p % ec.n) e6
              ∙ ap (λ k. KJ.x * k % ec.p % ec.n) (ok_inj (sym e5 ∙ f))
              ∙ ap (λ k. k % ec.n) x;
        }

    Accepts-assert_as_valid : Accepts c Q sig lower_s → assert_as_valid c QJ sig ec lower_s ≡ ok tt
    Accepts-assert_as_valid a =
        accepted impl c a.w QJ sig lower_s a.low
          (sym (
            agree (pos sig.s) ec.n a.w (mod_inv_var (pos sig.s) (pos ec.n)) a.inverse
              (mod_inv_var-Inverts (pos sig.s) ec.n h)))
          (computed a.w) a.finite a.congruent

    -- For the operations of a curve whose generator has prime order n, and a tuple that
    -- stands for a key: _assert_as_valid_ accepts a signature exactly when the textbook
    -- verification does, that is when s is low if it has to be, s has an inverse w, the
    -- point (r * w) * Q + (c * w) * G is not infinity and its x-coordinate modulo n is r.
    pub assert_as_valid_iff :
        (assert_as_valid c QJ sig ec lower_s ≡ ok tt) ↔ Accepts c Q sig lower_s
    assert_as_valid_iff = (assert_as_valid-Accepts, Accepts-assert_as_valid)

  module _ (c q : ℕ) (r s : ℕ) (p : 0 < s) (l : s < ec.n) where
    abbrev opposite_sig : Sig
    opposite_sig = record { r = r; s = ec.n - s }

    opposite_point :
        (w : ℕ)
        → w < ec.n
        → verified_point c (nmul grp q g) opposite_sig (ec.n - w)
          ≡ minus (verified_point c (nmul grp q g) (record { r = r; s = s }) w)
    opposite_point w h =
        combination impl q (c * (ec.n - w) % ec.n) (r * (ec.n - w) % ec.n) (ec.n - w) c r
          (Nat.mod-mod _ ec.n) (Nat.mod-mod _ ec.n)
        ∙ minus_unique grp (nmul grp (w * (c + r * q)) g) (nmul grp ((ec.n - w) * (c + r * q)) g) (
            sym (nmul-add grp (w * (c + r * q)) ((ec.n - w) * (c + r * q)) g)
            ∙ nmul-cong impl (w * (c + r * q) + (ec.n - w) * (c + r * q)) 0 (whole w h)
            ∙ unfold nmul in refl)
        ∙ ap minus (
            sym (
              combination impl q (c * w % ec.n) (r * w % ec.n) w c r (Nat.mod-mod _ ec.n)
                (Nat.mod-mod _ ec.n)))
      where
        sum_times : (a b e : ℕ) → a * e + b * e ≡ (a + b) * e
        sum_times a b e = omega arith

        whole : (w : ℕ) → w < ec.n → (w * (c + r * q) + (ec.n - w) * (c + r * q)) % ec.n ≡ 0 % ec.n
        whole w h =
            mod_of_multiples ec.n (w * (c + r * q) + (ec.n - w) * (c + r * q)) 0 0 (c + r * q) (
              omega arith
              ∙ sum_times w (ec.n - w) (c + r * q)
              ∙ ap (λ k. k * (c + r * q)) {x = w + (ec.n - w)} {y = ec.n} (omega arith)
              ∙ omega arith)

    opposite-IsInverse :
        (w : ℕ) → IsInverse (pos s) ec.n w → IsInverse (pos (ec.n - s)) ec.n (ec.n - w)
    opposite-IsInverse w v = record {
      reduced = omega (arith, v.reduced, inverse_positive ec.n s w (omega arith) product);
      inverse =
          ap (λ k. k * (ec.n - w) % ec.n) (mod_ℤ-pos (ec.n - s) ec.n)
          ∙ mod-mul_left (ec.n - s) (ec.n - w) ec.n
          ∙ opposite_product ec.n s w (omega arith) (omega (arith, v.reduced))
          ∙ product;
    }
      where
        product : s * w % ec.n ≡ 1 % ec.n
        product =
            sym (mod-mul_left s w ec.n)
            ∙ ap (λ k. k * w % ec.n) (sym (mod_ℤ-pos s ec.n))
            ∙ v.inverse

    opposite-Accepts :
        Accepts c (nmul grp q g) (record { r = r; s = s }) false
        → Accepts c (nmul grp q g) opposite_sig false
    opposite-Accepts a = record {
      low = refl;
      w = ec.n - a.w;
      inverse = opposite-IsInverse a.w a.inverse;
      finite = λ e. minus_not_zero impl _ a.finite (sym (opposite_point a.w a.inverse.reduced) ∙ e);
      congruent =
          a.congruent
          ∙ ap (λ k. k % ec.n)
              (sym (impl.x_of-minus _) ∙ ap x_of (sym (opposite_point a.w a.inverse.reduced)));
    }

    -- For the operations of a curve whose generator has prime order n, a tuple that stands
    -- for q * G and an s from 1 to n - 1: if _assert_as_valid_ accepts (r, s) without the
    -- low-s rule, it accepts (r, n - s) too.
    pub assert_as_valid-opposite :
        (QJ : JacPoint)
        → Shows QJ (nmul grp q g)
        → assert_as_valid c QJ (record { r = r; s = s }) ec false ≡ ok tt
        → assert_as_valid c QJ opposite_sig ec false ≡ ok tt
    assert_as_valid-opposite QJ key e =
        (assert_as_valid_iff c QJ opposite_sig false key (omega arith)).1 (
          opposite-Accepts
            ((assert_as_valid_iff c QJ (record { r = r; s = s }) false key (omega arith)).0 e))
