-- ===== src/Ecdsa/Signing/Recover.antt =====
-- ecc/dsa.py: `_recover_pub_key_` returns the key of the signer, on a curve of cofactor 1.
use native.Mathlib.Nat
use ellipticcurves.Prelude.{
  ℕ, ◌+◌, ◌-◌, ◌*◌, ◌/◌, ◌%◌, ◌<◌, ◌≤◌, ◌≡◌, ◌≢◌, refl, sym, ap, ap₂, ◌∙◌, subst, arith, Bool, true,
  false, ltb, lt→ltb, ◌==◌, ==_iff, ◌&&◌, if◌then◌else◌,
}
use ellipticcurves.Prelude.Int.{
  pos, neg_ℤ, mod_ℤ, ◌*ℤ◌, pos_part, neg_part, pos_part-*ℤ, neg_part-*ℤ,
}
use ellipticcurves.Prelude.Modular.{
  mod_ℤ_parts, mod-mul_left, mod-mul_right, mod_cong_add, mod_of_multiples,
}
use ellipticcurves.Prelude.Result.{ok}
use ellipticcurves.NumberTheory.{mod_inv_var}
use ellipticcurves.Curve.{JacPoint}
use ellipticcurves.Group.{AbelianGroup, nmul}
use ellipticcurves.Group.Multiple.{nmul-add, nmul-mul, nmul-minus, minus_unique}
use ellipticcurves.Ecdsa.{Sig}
use ellipticcurves.Ecdsa.Signing.{EcOps, recover_pub_key, candidate_x, flip_low_bit}
use ellipticcurves.Ecdsa.Signing.Interface.{Implements}
use ellipticcurves.Ecdsa.Signing.Modular.{mod_times_one}
use ellipticcurves.Ecdsa.Signing.Verify.{inverse_found, nmul-cong}
use ellipticcurves.Ecdsa.Signing.Correct.{
  first_r, first_s, first_id, minus_not_zero, multiple_not_zero, half_lt,
}

-- The scalar of the generator in the recovery.
abbrev negated : ℕ → ℕ → ℕ → ℕ
negated r_1 c n = mod_ℤ (neg_ℤ (pos r_1) *ℤ pos c) n

opposite_parts : (k : ℕ) → (pos_part (neg_ℤ (pos k)) ≡ 0) × (neg_part (neg_ℤ (pos k)) ≡ k)
unfolding neg_ℤ
opposite_parts k = ground arith

negated_sum : (r_1 c n : ℕ) → 0 < n → (negated r_1 c n + r_1 * c) % n ≡ 0 % n
negated_sum r_1 c n h =
    let (u, v, e) = mod_ℤ_parts (neg_ℤ (pos r_1) *ℤ pos c) n h in
    let (a, b) = opposite_parts r_1 in
    mod_of_multiples n (negated r_1 c n + r_1 * c) 0 u v (
      omega (
        arith,
        e,
        pos_part-*ℤ (neg_ℤ (pos r_1)) (pos c),
        neg_part-*ℤ (neg_ℤ (pos r_1)) (pos c),
        ap (λ (t : ℕ). t * c) a,
        ap (λ (t : ℕ). t * c) b,
      ))

-- The recovered scalar is the key.
key_back :
    (n r r_1 c q k i t : ℕ)
    → r * r_1 % n ≡ 1 % n
    → k * i % n ≡ 1 % n
    → (t + r_1 * c) % n ≡ 0 % n
    → (r_1 * (i * (c + r * q) % n) * k + t) % n ≡ q % n
key_back n r r_1 c q k i t hr hk ht =
    mod_cong_add n (r_1 * (i * e % n) * k) (r_1 * e) t (
      ap (λ a. a % n) {x = r_1 * (i * e % n) * k} {y = r_1 * k * (i * e % n)} (omega arith)
      ∙ mod-mul_right (r_1 * k) (i * e) n
      ∙ ap (λ a. a % n) {x = r_1 * k * (i * e)} {y = r_1 * e * (k * i)} (omega arith)
      ∙ mod_times_one n (r_1 * e) (k * i) hk)
    ∙ ap (λ a. a % n) {x = r_1 * e + t} {y = t + r_1 * c + q * (r * r_1)} (omega arith)
    ∙ mod_cong_add n (t + r_1 * c) 0 (q * (r * r_1)) ht
    ∙ ap (λ a. a % n) {x = 0 + q * (r * r_1)} {y = q * (r * r_1)} (omega arith)
    ∙ mod_times_one n q (r * r_1) hr
  where
    e : ℕ
    e = c + r * q

root_back :
    (key_id y p : ℕ)
    → key_id % 2 ≡ y % 2
    → y < p
    → (if key_id % 2 == 0
        then (if y % 2 == 0 then y else p - y)
        else p - (if y % 2 == 0 then y else p - y))
      ≡ y
root_back key_id y p e h = ground arith

candidate_x_prime :
    (ec : EcOps) (key_id r x : ℕ)
    → ec.cofactor ≡ 1
    → r + key_id / 2 * ec.n ≡ x
    → x < ec.p
    → candidate_x key_id r ec ≡ ok x
unfolding candidate_x
candidate_x_prime ec key_id r x h e l = rw ((==_iff ec.cofactor 1).1 h, e, lt→ltb x ec.p l)

module _ {G : Type 0} {ec : EcOps} {grp : AbelianGroup G} (impl : Implements ec grp)
    (prime_order : ec.cofactor ≡ 1) where
  open grp use {zero_point, plus, minus, plus_comm}
  open impl use {Shows, g, x_of, y_of}

  -- The candidate of a `key_id` that names the point `a`.
  recovered :
      (key_id c q : ℕ) (sig : Sig) (lower_s : Bool) (a : G) (r_1 : ℕ)
      → (lower_s && ltb (ec.n / 2) sig.s) ≡ false
      → a ≢ zero_point
      → sig.r + key_id / 2 * ec.n ≡ x_of a
      → key_id % 2 ≡ y_of a % 2
      → mod_inv_var (pos sig.r) (pos ec.n) ≡ ok r_1
      → plus (nmul grp (r_1 * sig.s % ec.n) a) (nmul grp (negated r_1 c ec.n) g) ≡ nmul grp q g
      → 0 < q
      → q < ec.n
      → (QJ : JacPoint) × (recover_pub_key key_id c sig ec lower_s ≡ ok QJ)
        × Shows QJ (nmul grp q g)
  unfolding recover_pub_key
  recovered key_id c q sig lower_s a r_1 low finite x parity inverse sum p l =
      let KJ : JacPoint = record { x = x_of a; y = y_of a; z = 1 } in
      let QJ = ec.double_mult (r_1 * sig.s % ec.n) KJ (negated r_1 c ec.n) ec.gen in
      let key : Shows QJ (nmul grp q g) =
        subst (Shows QJ) sum
          (impl.double_mult-Shows _ _ KJ ec.gen (impl.lifted-Shows a finite) impl.gen-Shows) in
      let (z, _) = impl.affine QJ key (multiple_not_zero impl q p l) in
      (
        QJ,
        rw (
          low,
          candidate_x_prime ec key_id sig.r (x_of a) prime_order x (impl.x_of_lt a finite),
          inverse,
          impl.lift a finite,
          root_back key_id (y_of a) ec.p parity (impl.y_of_lt a finite),
          (==_iff ec.cofactor 1).1 prime_order,
          z,
        ),
        key,
      )

  times_reduced : (a k : ℕ) → nmul grp (a % ec.n) (nmul grp k g) ≡ nmul grp (a * k) g
  times_reduced a k =
      sym (nmul-mul grp (a % ec.n) k g)
      ∙ nmul-cong impl (a % ec.n * k) (a * k) (mod-mul_left a k ec.n)

  -- A scalar and its opposite, on a point and its opposite.
  times_opposite :
      (a s k : ℕ)
      → s ≤ ec.n
      → nmul grp (a * (ec.n - s) % ec.n) (minus (nmul grp k g))
        ≡ nmul grp (a * s % ec.n) (nmul grp k g)
  times_opposite a s k h =
      nmul-minus grp (a * (ec.n - s) % ec.n) (nmul grp k g)
      ∙ sym (
          minus_unique grp (nmul grp (a * (ec.n - s) % ec.n) (nmul grp k g))
            (nmul grp (a * s % ec.n) (nmul grp k g))
            (ap₂ plus (times_reduced (a * (ec.n - s)) k) (times_reduced (a * s) k)
              ∙ sym (nmul-add grp (a * (ec.n - s) * k) (a * s * k) g)
              ∙ nmul-cong impl (a * (ec.n - s) * k + a * s * k) 0 whole
              ∙ unfold nmul in refl))
    where
      product : (b : ℕ) → a * b * k + a * s * k ≡ (b + s) * (a * k)
      product b = omega arith

      whole : (a * (ec.n - s) * k + a * s * k) % ec.n ≡ 0 % ec.n
      whole = mod_of_multiples ec.n (a * (ec.n - s) * k + a * s * k) 0 0 (a * k) (
          omega arith
          ∙ product (ec.n - s)
          ∙ ap (λ b. b * (a * k)) {x = ec.n - s + s} {y = ec.n} (omega arith)
          ∙ omega arith)

  module _ (c q nonce : ℕ) (lower_s : Bool) (p : 0 < q) (l : q < ec.n) (pk : 0 < nonce)
      (lk : nonce < ec.n) where
    K : G
    K = nmul grp nonce g

    n_positive : 0 < ec.n
    n_positive = omega (arith, l)

    x_named :
        (key_id : ℕ)
        → key_id / 2 ≡ (ec.mult_gen nonce).x / ec.n
        → first_r ec nonce + key_id / 2 * ec.n ≡ x_of K
    unfolding K
    x_named key_id e =
        ap (λ k. first_r ec nonce + k * ec.n) e
        ∙ omega arith
        ∙ Nat.div-add-mod (ec.mult_gen nonce).x ec.n
        ∙ impl.mult_gen_x nonce pk lk

    recovered_sum :
        (r_1 i : ℕ)
        → first_r ec nonce * r_1 % ec.n ≡ 1 % ec.n
        → nonce * i % ec.n ≡ 1 % ec.n
        → plus (nmul grp (r_1 * first_s ec i c q nonce % ec.n) K) (nmul grp (negated r_1 c ec.n) g)
          ≡ nmul grp q g
    unfolding K
    recovered_sum r_1 i hr hk =
        ap (λ a. plus a (nmul grp (negated r_1 c ec.n) g))
          (times_reduced (r_1 * first_s ec i c q nonce) nonce)
        ∙ sym (nmul-add grp (r_1 * first_s ec i c q nonce * nonce) (negated r_1 c ec.n) g)
        ∙ nmul-cong impl (r_1 * first_s ec i c q nonce * nonce + negated r_1 c ec.n) q (
            key_back ec.n (first_r ec nonce) r_1 c q nonce i (negated r_1 c ec.n) hr hk
              (negated_sum r_1 c ec.n n_positive))

    pub recover_unchanged :
        (i : ℕ)
        → nonce * i % ec.n ≡ 1 % ec.n
        → 0 < first_r ec nonce
        → (lower_s && ltb (ec.n / 2) (first_s ec i c q nonce)) ≡ false
        → (QJ : JacPoint) × (recover_pub_key
              (first_id ec nonce)
              c
              (record { r = first_r ec nonce; s = first_s ec i c q nonce })
              ec
              lower_s
            ≡ ok QJ)
          × Shows QJ (nmul grp q g)
    unfolding K
    recover_unchanged i hk hr low =
        let (r_1, e) = impl.prime (first_r ec nonce) hr (Nat.mod-lt _ n_positive) in
        recovered (first_id ec nonce) c q
          (record { r = first_r ec nonce; s = first_s ec i c q nonce }) lower_s K r_1 low
          (multiple_not_zero impl nonce pk lk) (x_named (first_id ec nonce) (omega arith))
          (omega (arith, impl.mult_gen_y nonce pk lk)) e
          (recovered_sum r_1 i (inverse_found (first_r ec nonce) ec.n r_1 n_positive e) hk) p l

    pub recover_lowered :
        (i : ℕ)
        → nonce * i % ec.n ≡ 1 % ec.n
        → 0 < first_r ec nonce
        → (lower_s && ltb (ec.n / 2) (first_s ec i c q nonce)) ≡ true
        → (QJ : JacPoint) × (recover_pub_key
              (flip_low_bit (first_id ec nonce))
              c
              (record { r = first_r ec nonce; s = ec.n - first_s ec i c q nonce })
              ec
              lower_s
            ≡ ok QJ)
          × Shows QJ (nmul grp q g)
    unfolding K
    recover_lowered i hk hr high =
        let (r_1, e) = impl.prime (first_r ec nonce) hr (Nat.mod-lt _ n_positive) in
        let s0 = first_s ec i c q nonce in
        let size : s0 < ec.n = Nat.mod-lt _ n_positive in
        let finite = multiple_not_zero impl nonce pk lk in
        let id = first_id ec nonce in
        recovered (flip_low_bit id) c q (record { r = first_r ec nonce; s = ec.n - s0 }) lower_s
          (minus K) r_1 (half_lt ec.n s0 lower_s size high) (minus_not_zero impl K finite)
          (x_named (flip_low_bit id) (omega arith) ∙ sym (impl.x_of-minus K))
          (omega (
            arith,
            impl.mult_gen_y nonce pk lk,
            impl.y_of-minus K finite,
            impl.y_of_lt K finite,
            impl.odd_p,
          ))
          e
          (ap (λ a. plus a (nmul grp (negated r_1 c ec.n) g))
              (times_opposite r_1 s0 nonce (omega arith))
            ∙ recovered_sum r_1 i (inverse_found (first_r ec nonce) ec.n r_1 n_positive e) hk)
          p l
