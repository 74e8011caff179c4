-- ===== src/Ssa/Correct.antt =====
-- ecc/ssa.py: what `_sign_` returns is accepted by `_assert_as_valid_` and gives the key back.
use native.Mathlib.Nat
use ellipticcurves.Prelude.{
  positive_test, ℕ, ◌+◌, ◌-◌, ◌*◌, ◌%◌, ◌<◌, ◌≡◌, sym, ap, ◌∙◌, subst, arith, lt→ltb, ==_iff,
}
use ellipticcurves.Prelude.Int.{pos}
use ellipticcurves.Prelude.Modular.{mod-mul_right, mod_of_multiples}
use ellipticcurves.Prelude.Result.{ok}
use ellipticcurves.NumberTheory.Inverse.{IsInverse-of}
use ellipticcurves.Curve.{JacPoint}
use ellipticcurves.Group.{AbelianGroup, nmul}
use ellipticcurves.Group.Multiple.{nmul-add, nmul-mul}
use ellipticcurves.Ecdsa.Signing.Modular.{mod_times_one}
use ellipticcurves.Ecdsa.Signing.Verify.{nmul-cong, inverse_found}
use ellipticcurves.Ecdsa.Signing.Correct.{multiple_not_zero}
use ellipticcurves.Ssa.{SsaOps, Sig, assert_valid, sign, assert_as_valid, recover_pub_key}
use ellipticcurves.Ssa.Interface.{ImplementsSsa}
use ellipticcurves.Ssa.Verify.{nonce_point, assert_as_valid_bip340}

module _ {G : Type 0} {ops : SsaOps} {grp : AbelianGroup G} (impl : ImplementsSsa ops grp) where
  open grp use {zero_point, plus}
  open impl.base use {Shows, g, x_of, y_of}

  module _ (c q k : ℕ) (pc : 0 < c) (lc : c < ops.ec.n) (pk : 0 < k) (lk : k < ops.ec.n) where
    n_positive : 0 < ops.ec.n
    n_positive = omega (arith, lc)

    abbrev K : G
    K = nmul grp k g

    abbrev signature : Sig
    signature = record { r = x_of K; s = (k + c * q) % ops.ec.n }

    sum_back : ((ops.ec.n - c) * q + (k + c * q) % ops.ec.n) % ops.ec.n ≡ k % ops.ec.n
    sum_back =
        Nat.add-mod-mod ((ops.ec.n - c) * q) (k + c * q) ops.ec.n
        ∙ ap (λ t. t % ops.ec.n)
            (sum (ops.ec.n - c)
              ∙ ap (λ t. k + t * q) {x = ops.ec.n - c + c} {y = ops.ec.n} (omega arith))
        ∙ mod_of_multiples ops.ec.n (k + ops.ec.n * q) k 0 q (omega arith)
      where
        sum : (d : ℕ) → d * q + (k + c * q) ≡ k + (d + c) * q
        sum d = omega arith

    nonce_point_back : nonce_point impl c (nmul grp q g) signature ≡ K
    nonce_point_back =
        ap (λ a. plus a (nmul grp ((k + c * q) % ops.ec.n) g))
          (sym (nmul-mul grp (ops.ec.n - c) q g))
        ∙ sym (nmul-add grp ((ops.ec.n - c) * q) ((k + c * q) % ops.ec.n) g)
        ∙ nmul-cong impl.base ((ops.ec.n - c) * q + (k + c * q) % ops.ec.n) k sum_back

    signed : sign c q k (x_of K) ops ≡ ok signature
    unfolding sign assert_valid
    signed = rw (
      positive_test c pc,
      impl.x_known K (multiple_not_zero impl.base k pk lk),
      lt→ltb ((k + c * q) % ops.ec.n) ops.ec.n (Nat.mod-lt (k + c * q) n_positive),
    )

    -- For the operations of a curve whose generator has prime order n, a challenge c and a
    -- nonce k from 1 to n - 1, a tuple that stands for q * G, and a k * G whose y is even:
    -- _sign_ with the x-coordinate of k * G returns a signature, and _assert_as_valid_ of
    -- ecc/ssa.py accepts it.
    pub sign-accepted :
        (QJ : JacPoint)
        → Shows QJ (nmul grp q g)
        → y_of K % 2 ≡ 0
        → (sig : Sig) × (sign c q k (x_of K) ops ≡ ok sig) × (assert_as_valid c QJ sig ops ≡ ok tt)
    sign-accepted QJ key even =
        let finite = multiple_not_zero impl.base k pk lk in
        (
          signature,
          signed,
          (assert_as_valid_bip340 impl c QJ signature key (impl.base.x_of_lt K finite)
                (Nat.mod-lt (k + c * q) (omega arith)) (omega arith)).1
              (record {
                finite = λ e. finite (sym nonce_point_back ∙ e);
                even = ap (λ a. y_of a % 2) nonce_point_back ∙ even;
                same_x = ap x_of nonce_point_back;
              }),
        )

    key_scalar :
        (e1 : ℕ)
        → e1 < ops.ec.n
        → c * e1 % ops.ec.n ≡ 1 % ops.ec.n
        → ((ops.ec.n - e1) * k + e1 * ((k + c * q) % ops.ec.n)) % ops.ec.n ≡ q % ops.ec.n
    key_scalar e1 l e =
        sym (Nat.add-mod-mod ((ops.ec.n - e1) * k) (e1 * ((k + c * q) % ops.ec.n)) ops.ec.n)
        ∙ ap (λ t. ((ops.ec.n - e1) * k + t) % ops.ec.n) (mod-mul_right e1 (k + c * q) ops.ec.n)
        ∙ Nat.add-mod-mod ((ops.ec.n - e1) * k) (e1 * (k + c * q)) ops.ec.n
        ∙ ap (λ t. t % ops.ec.n)
            (sum (ops.ec.n - e1)
              ∙ ap (λ t. q * (c * e1) + t * k) {x = ops.ec.n - e1 + e1} {y = ops.ec.n}
                  (omega arith))
        ∙ mod_of_multiples ops.ec.n (q * (c * e1) + ops.ec.n * k) (q * (c * e1)) 0 k (omega arith)
        ∙ mod_times_one ops.ec.n q (c * e1) e
      where
        sum : (d : ℕ) → d * k + e1 * (k + c * q) ≡ q * (c * e1) + (d + e1) * k
        sum d = omega arith

    -- For the operations of a curve whose generator has prime order n, a challenge c, a key
    -- q and a nonce k from 1 to n - 1, and a k * G whose y is even: _sign_ returns a
    -- signature, from which _recover_pub_key_ of ecc/ssa.py returns the x-coordinate of q *
    -- G.
    pub recover_pub_key-sign :
        0 < q
        → q < ops.ec.n
        → y_of K % 2 ≡ 0
        → (sig : Sig) × (sign c q k (x_of K) ops ≡ ok sig)
          × (recover_pub_key c sig ops ≡ ok (x_of (nmul grp q g)))
    unfolding recover_pub_key
    recover_pub_key-sign pq lq even =
        let finite = multiple_not_zero impl.base k pk lk in
        let (e1, e) = impl.base.prime c pc lc in
        let KJ : JacPoint = record { x = x_of K; y = y_of K; z = 1 } in
        let QJ = ops.ec.double_mult (ops.ec.n - e1) KJ (e1 * signature.s) ops.ec.gen in
        let back : plus (nmul grp (ops.ec.n - e1) K) (nmul grp (e1 * signature.s) g)
            ≡ nmul grp q g =
          ap (λ a. plus a (nmul grp (e1 * signature.s) g)) (sym (nmul-mul grp (ops.ec.n - e1) k g))
          ∙ sym (nmul-add grp ((ops.ec.n - e1) * k) (e1 * signature.s) g)
          ∙ nmul-cong impl.base ((ops.ec.n - e1) * k + e1 * signature.s) q (
              key_scalar e1 (IsInverse-of (pos c) ops.ec.n e1 n_positive e).reduced
                (inverse_found c ops.ec.n e1 n_positive e)) in
        let key : Shows QJ (nmul grp q g) = subst (Shows QJ) back (
          impl.base.double_mult-Shows (ops.ec.n - e1) (e1 * signature.s) KJ ops.ec.gen
            (impl.base.lifted-Shows K finite) impl.base.gen-Shows) in
        let key_finite = multiple_not_zero impl.base q pq lq in
        let (z, _) = impl.base.affine QJ key key_finite in
        (
          signature,
          signed,
          rw (
            positive_test c pc,
            impl.lift_in_subgroup K finite,
            (==_iff (y_of K % 2) 0).1 even,
            e,
            z,
            impl.x_aff_lem QJ key key_finite,
          ),
        )
