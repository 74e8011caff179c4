-- ===== src/Ecdsa/Signing/Keys.antt =====
-- ecc/dsa.py: the key of the signer is among those that `_recover_pub_keys_` returns.
use native.Mathlib.Nat
use ellipticcurves.Prelude.{
  ℕ, zero, suc, ◌+◌, ◌-◌, ◌*◌, ◌/◌, ◌<◌, ◌≤◌, ◌≡◌, ◌⊎◌, sym, ap, ◌∙◌, subst, arith, Bool, ltb, ◌&&◌,
  if◌then◌else◌, List, [], ◌∷◌, inl, inr, dec_lt, Bool-cases,
}
use ellipticcurves.Prelude.Result.{Result, ok, err}
use ellipticcurves.Curve.{JacPoint}
use ellipticcurves.Group.{AbelianGroup, nmul}
use ellipticcurves.Ecdsa.{Sig}
use ellipticcurves.Ecdsa.Signing.{
  EcOps, sign_recoverable, recover_pub_key, add_key, collect_keys, recover_pub_keys, flip_low_bit,
}
use ellipticcurves.Ecdsa.Signing.Interface.{Implements}
use ellipticcurves.Ecdsa.Signing.Correct.{
  first_r, first_s, first_id, lowered, sign_recoverable-IsSigned, multiple_not_zero,
}
use ellipticcurves.Ecdsa.Signing.RoundTrip.{recover_pub_key-sign_recoverable}

-- Some member of the list satisfies `P`.
abbrev pub Among : (JacPoint → Type 0) → List JacPoint → Type 0
Among P [] = ⊥
Among P (X ∷ Xs) = P X ⊎ Among P Xs

add_key-Among :
    (P : JacPoint → Type 0) (r : Result JacPoint) (keys : List JacPoint)
    → Among P keys
    → Among P (add_key r keys)
unfolding add_key
add_key-Among P (err e) keys a = a
add_key-Among P (ok QJ) keys a = inr a

collect_keys-Among :
    (P : JacPoint → Type 0) (recover : ℕ → Result JacPoint) (count start key_id : ℕ) (QJ : JacPoint)
    → start ≤ key_id
    → key_id < start + count
    → recover key_id ≡ ok QJ
    → P QJ
    → Among P (collect_keys recover count start)
unfolding collect_keys
collect_keys-Among P recover zero start key_id QJ h l e p = absurd (omega arith)
collect_keys-Among P recover (suc count) start key_id QJ h l e p = elim (dec_lt start key_id) [
  | yes m ↦
      add_key-Among P (recover start) (collect_keys recover count (suc start))
        (collect_keys-Among P recover count (suc start) key_id QJ m (omega arith) e p)
  | no m ↦
      let same : start ≡ key_id = omega arith in
      subst (λ r. Among P (add_key r (collect_keys recover count (suc start))))
        (sym (ap recover same ∙ e)) (found p)
]
  where
    found : P QJ → Among P (add_key (ok QJ) (collect_keys recover count (suc start)))
    found p = unfold add_key in inl p

lowered_id :
    (ec : EcOps) (nonce r s : ℕ) (lower_s : Bool)
    → (ec.mult_gen nonce).x < 2 * ec.n
    → (lowered ec nonce r s lower_s).1 < 4
lowered_id ec nonce r s lower_s h = elim (Bool-cases (lower_s && ltb (ec.n / 2) s)) [
  | inl t ↦ subst (λ t. (choice t).1 < 4) (sym t) (omega (arith, quotient))
  | inr t ↦ subst (λ t. (choice t).1 < 4) (sym t) (omega (arith, quotient))
]
  where
    quotient : (ec.mult_gen nonce).x / ec.n < 2
    quotient = (Nat.div-lt_iff_lt-mul (omega (arith, h))).1 h

    choice : Bool → Sig × ℕ
    choice t =
        if t
        then (record { r = r; s = ec.n - s }, flip_low_bit (first_id ec nonce))
        else (record { r = r; s = s }, first_id ec nonce)

module _ {G : Type 0} {ec : EcOps} {grp : AbelianGroup G} (impl : Implements ec grp) where
  -- For the operations of a curve whose generator has prime order n, of cofactor 1 and with p
  -- at most 2 * n, and a key and a nonce from 1 to n - 1: some tuple among those that
  -- _recover_pub_keys_ returns for a signature of _sign_recoverable_ stands for q * G.
  pub recover_pub_keys-sign_recoverable :
      (b c q nonce : ℕ) (lower_s : Bool) {signed : Sig × ℕ}
      → ec.cofactor ≡ 1
      → ec.p ≤ 2 * ec.n
      → 0 < q
      → q < ec.n
      → 0 < nonce
      → nonce < ec.n
      → sign_recoverable b c q nonce lower_s ec ≡ ok signed
      → Among (λ QJ. impl.Shows QJ (nmul grp q impl.g)) (recover_pub_keys c signed.0 ec lower_s)
  unfolding recover_pub_keys
  recover_pub_keys-sign_recoverable b c q nonce lower_s {signed} prime_order range p l pk lk e =
      let (QJ, f, s) =
        recover_pub_key-sign_recoverable impl b c q nonce lower_s prime_order p l pk lk e in
      let z = sign_recoverable-IsSigned ec b c q nonce lower_s (omega (arith, l)) e in
      let x : (ec.mult_gen nonce).x < 2 * ec.n = omega (
        arith,
        range,
        impl.mult_gen_x nonce pk lk,
        impl.x_of_lt (nmul grp nonce impl.g) (multiple_not_zero impl nonce pk lk),
      ) in
      collect_keys-Among (λ QJ. impl.Shows QJ (nmul grp q impl.g))
        (λ key_id. recover_pub_key key_id c signed.0 ec lower_s) (2 * (ec.cofactor + 1)) 0 signed.1
        QJ (omega arith)
        (omega (
          arith,
          prime_order,
          ap (λ k. k.1) z.chosen,
          lowered_id ec nonce (first_r ec nonce) (first_s ec z.i c q nonce) lower_s x,
        ))
        f s
