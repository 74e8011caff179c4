-- ===== src/Ecdsa/Signing/Correct.antt =====
-- ecc/dsa.py: a signature that `_sign_recoverable_` returns is accepted by `_assert_as_valid_`.
use native.Mathlib.Nat
use ellipticcurves.Prelude.{
  ℕ, ◌+◌, ◌-◌, ◌*◌, ◌/◌, ◌%◌, ◌<◌, ◌≡◌, ◌≢◌, refl, sym, ap, ◌∙◌, subst, arith, Bool, true, false,
  ltb, ◌==◌, ◌&&◌, if◌then◌else◌, Bool-cases, inl, inr,
}
use ellipticcurves.Prelude.Int.{pos}
use ellipticcurves.Prelude.Result.{ok, >>=-ok, ok_inj, refuse-ok, zero_r, zero_s}
use ellipticcurves.NumberTheory.{mod_inv}
use ellipticcurves.NumberTheory.Inverse.{mod_inv-eq-mod_inv_var}
use ellipticcurves.Curve.{JacPoint}
use ellipticcurves.Group.{AbelianGroup, nmul}
use ellipticcurves.Group.Multiple.{nmul-add, minus_unique}
use ellipticcurves.Ecdsa.{Sig}
use ellipticcurves.Ecdsa.Signing.{EcOps, sign_recoverable, assert_as_valid, flip_low_bit}
use ellipticcurves.Ecdsa.Signing.Interface.{Implements}
use ellipticcurves.Ecdsa.Signing.Modular.{nonce_back, nonce_opposite}
use ellipticcurves.Ecdsa.Signing.Verify.{inverse_found, nmul-cong, combination, accepted}

-- r and s before the choice of the low s, and the key_id then.
abbrev pub first_r : EcOps → ℕ → ℕ
first_r ec nonce = (ec.mult_gen nonce).x % ec.n

abbrev pub first_s : EcOps → ℕ → ℕ → ℕ → ℕ → ℕ
first_s ec i c q nonce = i * (c + first_r ec nonce * q) % ec.n

abbrev pub first_id : EcOps → ℕ → ℕ
first_id ec nonce = 2 * ((ec.mult_gen nonce).x / ec.n) + (ec.mult_gen nonce).y % 2

abbrev pub lowered : EcOps → ℕ → ℕ → ℕ → Bool → Sig × ℕ
lowered ec nonce r s lower_s =
    if lower_s && ltb (ec.n / 2) s
    then (record { r = r; s = ec.n - s }, flip_low_bit (first_id ec nonce))
    else (record { r = r; s = s }, first_id ec nonce)

-- What a successful signing has computed; `i` is the inverse of the nonce.
pub record IsSigned (ec : EcOps) (c q nonce : ℕ) (lower_s : Bool) (signed : Sig × ℕ) : Type 0 where
  pub i : ℕ
  pub inverse : nonce * i % ec.n ≡ 1 % ec.n
  pub r_positive : 0 < first_r ec nonce
  pub s_positive : 0 < first_s ec i c q nonce
  pub chosen : lowered ec nonce (first_r ec nonce) (first_s ec i c q nonce) lower_s ≡ signed

not_zero : (k : ℕ) → (k == 0) ≡ false → 0 < k
not_zero k e = ground arith

pub sign_recoverable-IsSigned :
    (ec : EcOps) (b c q nonce : ℕ) (lower_s : Bool) {signed : Sig × ℕ}
    → 0 < ec.n
    → sign_recoverable b c q nonce lower_s ec ≡ ok signed
    → IsSigned ec c q nonce lower_s signed
unfolding sign_recoverable
sign_recoverable-IsSigned ec b c q nonce lower_s h e =
    let r = first_r ec nonce in
    let (x, e1) = refuse-ok (r == 0) zero_r _ e in
    let (i, e2, e3) = >>=-ok (mod_inv b (pos nonce) (pos ec.n)) _ e1 in
    let (y, e4) = refuse-ok (first_s ec i c q nonce == 0) zero_s _ e3 in
    record {
      i = i;
      inverse =
          inverse_found nonce ec.n i h (sym (mod_inv-eq-mod_inv_var b (pos nonce) ec.n h) ∙ e2);
      r_positive = not_zero r x;
      s_positive = not_zero (first_s ec i c q nonce) y;
      chosen = ok_inj e4;
    }

pub half_lt :
    (n s : ℕ) (lower_s : Bool)
    → s < n
    → (lower_s && ltb (n / 2) s) ≡ true
    → (lower_s && ltb (n / 2) (n - s)) ≡ false
half_lt n s lower_s h e = ground arith

module _ {G : Type 0} {ec : EcOps} {grp : AbelianGroup G} (impl : Implements ec grp) where
  open grp use {zero_point, plus, minus, plus_comm, plus_zero, plus_minus}
  open impl use {Shows, g, x_of, y_of}

  pub minus_not_zero : (a : G) → a ≢ zero_point → minus a ≢ zero_point
  minus_not_zero a n e = n (sym (plus_zero a) ∙ ap (plus a) (sym e) ∙ plus_minus a)

  pub multiple_not_zero : (m : ℕ) → 0 < m → m < ec.n → nmul grp m g ≢ zero_point
  multiple_not_zero m p l e = absurd (omega (arith, impl.exact m l e))

  module _ (c q nonce : ℕ) (QJ : JacPoint) (lower_s : Bool) (key : Shows QJ (nmul grp q g))
      (p : 0 < nonce) (l : nonce < ec.n) where
    -- The point of the verification, for the inverse `w` of s.
    point_shown :
        (r w : ℕ)
        → Shows
            (ec.double_mult (r * w % ec.n) QJ (c * w % ec.n) ec.gen)
            (nmul grp (w * (c + r * q)) g)
    point_shown r w =
        subst (Shows (ec.double_mult (r * w % ec.n) QJ (c * w % ec.n) ec.gen))
          (combination impl q (c * w % ec.n) (r * w % ec.n) w c r (Nat.mod-mod (c * w) ec.n)
            (Nat.mod-mod (r * w) ec.n))
          (impl.double_mult-Shows (r * w % ec.n) (c * w % ec.n) QJ ec.gen key impl.gen-Shows)

    unchanged_accepted :
        (i : ℕ)
        → nonce * i % ec.n ≡ 1 % ec.n
        → 0 < first_s ec i c q nonce
        → (lower_s && ltb (ec.n / 2) (first_s ec i c q nonce)) ≡ false
        → assert_as_valid c QJ
            (record { r = first_r ec nonce; s = first_s ec i c q nonce })
            ec
            lower_s
          ≡ ok tt
    unchanged_accepted i e s f =
        let size : first_s ec i c q nonce < ec.n = Nat.mod-lt _ (omega (arith, l)) in
        let (w, v) = impl.prime (first_s ec i c q nonce) s size in
        let r = first_r ec nonce in
        let back =
          nonce_back ec.n (c + r * q) nonce i w e
            (inverse_found (first_s ec i c q nonce) ec.n w (omega (arith, l)) v) in
        accepted impl c w QJ (record { r = r; s = first_s ec i c q nonce }) lower_s f v
          (subst (Shows (ec.double_mult (r * w % ec.n) QJ (c * w % ec.n) ec.gen))
            (nmul-cong impl (w * (c + r * q)) nonce back) (point_shown r w))
          (multiple_not_zero nonce p l) (ap (λ k. k % ec.n) (impl.mult_gen_x nonce p l))

    -- Two multiples that add up to a multiple of n are opposite.
    opposite_multiple :
        (m : ℕ) → (m + nonce) % ec.n ≡ 0 % ec.n → nmul grp m g ≡ minus (nmul grp nonce g)
    opposite_multiple m e = minus_unique grp (nmul grp nonce g) (nmul grp m g) (
        plus_comm (nmul grp nonce g) (nmul grp m g)
        ∙ sym (nmul-add grp m nonce g)
        ∙ nmul-cong impl (m + nonce) 0 e
        ∙ unfold nmul in refl)

    lowered_accepted :
        (i : ℕ)
        → nonce * i % ec.n ≡ 1 % ec.n
        → 0 < first_s ec i c q nonce
        → (lower_s && ltb (ec.n / 2) (first_s ec i c q nonce)) ≡ true
        → assert_as_valid c QJ
            (record { r = first_r ec nonce; s = ec.n - first_s ec i c q nonce })
            ec
            lower_s
          ≡ ok tt
    lowered_accepted i e s f =
        let s0 = first_s ec i c q nonce in
        let n_positive : 0 < ec.n = omega (arith, l) in
        let size : s0 < ec.n = Nat.mod-lt _ n_positive in
        let (w, v) = impl.prime (ec.n - s0) (omega arith) (omega arith) in
        let r = first_r ec nonce in
        let opposite =
          nonce_opposite ec.n (c + r * q) nonce i w n_positive e
            (inverse_found (ec.n - s0) ec.n w n_positive v) in
        accepted impl c w QJ (record { r = r; s = ec.n - s0 }) lower_s
          (half_lt ec.n s0 lower_s size f) v
          (subst (Shows (ec.double_mult (r * w % ec.n) QJ (c * w % ec.n) ec.gen))
            (opposite_multiple (w * (c + r * q)) opposite) (point_shown r w))
          (minus_not_zero (nmul grp nonce g) (multiple_not_zero nonce p l))
          (ap (λ k. k % ec.n)
            (impl.mult_gen_x nonce p l ∙ sym (impl.x_of-minus (nmul grp nonce g))))

    -- For the operations of a curve whose generator has prime order n, a tuple that stands
    -- for q * G and a nonce from 1 to n - 1: the signature that _sign_recoverable_ returns,
    -- with the low s or without, is accepted by _assert_as_valid_ for the same challenge
    -- and the same choice of the low s.
    pub sign_recoverable-accepted :
        (b : ℕ) {signed : Sig × ℕ}
        → sign_recoverable b c q nonce lower_s ec ≡ ok signed
        → assert_as_valid c QJ signed.0 ec lower_s ≡ ok tt
    sign_recoverable-accepted b e =
        let z = sign_recoverable-IsSigned ec b c q nonce lower_s (omega (arith, l)) e in
        elim (Bool-cases (lower_s && ltb (ec.n / 2) (first_s ec z.i c q nonce))) [
          | inl t ↦
              ap (λ k. assert_as_valid c QJ k.0 ec lower_s)
                (sym z.chosen ∙ ap (λ k. choice k z.i) t)
              ∙ lowered_accepted z.i z.inverse z.s_positive t
          | inr t ↦
              ap (λ k. assert_as_valid c QJ k.0 ec lower_s)
                (sym z.chosen ∙ ap (λ k. choice k z.i) t)
              ∙ unchanged_accepted z.i z.inverse z.s_positive t
        ]
      where
        choice : Bool → ℕ → Sig × ℕ
        choice t i =
            if t
            then (
              record { r = first_r ec nonce; s = ec.n - first_s ec i c q nonce },
              flip_low_bit (first_id ec nonce),
            )
            else (record { r = first_r ec nonce; s = first_s ec i c q nonce }, first_id ec nonce)
