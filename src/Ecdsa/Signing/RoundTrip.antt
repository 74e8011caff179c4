-- ===== src/Ecdsa/Signing/RoundTrip.antt =====
-- ecc/dsa.py: the key_id that `_sign_recoverable_` returns names the key of the signer.
use ellipticcurves.Prelude.{
  ℕ, ◌-◌, ◌/◌, ◌<◌, ◌≡◌, sym, ap, ◌∙◌, arith, Bool, ltb, ◌&&◌, if◌then◌else◌, Bool-cases, inl, inr,
}
use ellipticcurves.Prelude.Result.{ok}
use ellipticcurves.Curve.{JacPoint}
use ellipticcurves.Group.{AbelianGroup, nmul}
use ellipticcurves.Ecdsa.{Sig}
use ellipticcurves.Ecdsa.Signing.{EcOps, sign_recoverable, recover_pub_key, flip_low_bit}
use ellipticcurves.Ecdsa.Signing.Interface.{Implements}
use ellipticcurves.Ecdsa.Signing.Correct.{first_r, first_s, first_id, sign_recoverable-IsSigned}
use ellipticcurves.Ecdsa.Signing.Recover.{recover_unchanged, recover_lowered}

module _ {G : Type 0} {ec : EcOps} {grp : AbelianGroup G} (impl : Implements ec grp) where
  -- For the operations of a curve whose generator has prime order n, of cofactor 1, and a key
  -- and a nonce from 1 to n - 1: from the signature and the key_id that _sign_recoverable_
  -- returns, _recover_pub_key_ returns a tuple that stands for q * G.
  pub recover_pub_key-sign_recoverable :
      (b c q nonce : ℕ) (lower_s : Bool) {signed : Sig × ℕ}
      → ec.cofactor ≡ 1
      → 0 < q
      → q < ec.n
      → 0 < nonce
      → nonce < ec.n
      → sign_recoverable b c q nonce lower_s ec ≡ ok signed
      → (QJ : JacPoint) × (recover_pub_key signed.1 c signed.0 ec lower_s ≡ ok QJ)
        × impl.Shows QJ (nmul grp q impl.g)
  recover_pub_key-sign_recoverable b c q nonce lower_s {signed} prime_order p l pk lk e =
      let z = sign_recoverable-IsSigned ec b c q nonce lower_s (omega (arith, l)) e in
      elim (Bool-cases (lower_s && ltb (ec.n / 2) (first_s ec z.i c q nonce))) [
        | inl t ↦
            let (QJ, f, s) =
              recover_lowered impl prime_order c q nonce lower_s p l pk lk z.i z.inverse
                z.r_positive t in
            (
              QJ,
              ap (λ k. recover_pub_key k.1 c k.0 ec lower_s) (sym z.chosen ∙ ap (choice z.i) t) ∙ f,
              s,
            )
        | inr t ↦
            let (QJ, f, s) =
              recover_unchanged impl prime_order c q nonce lower_s p l pk lk z.i z.inverse
                z.r_positive t in
            (
              QJ,
              ap (λ k. recover_pub_key k.1 c k.0 ec lower_s) (sym z.chosen ∙ ap (choice z.i) t) ∙ f,
              s,
            )
      ]
    where
      choice : ℕ → Bool → Sig × ℕ
      choice i t =
          if t
          then (
            record { r = first_r ec nonce; s = ec.n - first_s ec i c q nonce },
            flip_low_bit (first_id ec nonce),
          )
          else (record { r = first_r ec nonce; s = first_s ec i c q nonce }, first_id ec nonce)
