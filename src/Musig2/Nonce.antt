-- ===== src/Musig2/Nonce.antt =====
-- ecc/musig2.py: a nonce signs once.
use ellipticcurves.Prelude.{ℕ, ◌≡◌, ◌≢◌, refl, sym, ◌∙◌, arith, inl, inr}
use ellipticcurves.Prelude.Result.{Error, Result, ok, err, Result-cases}
use ellipticcurves.Musig2.{
  MusigOps, Session, SessionValues, SecNonce, session_values, sign_values, sign,
}

module _ {Msg : Type 0} (mu : MusigOps Msg) where
  sign_values_spent :
      (values : SessionValues) (nonce : SecNonce) (d : ℕ) (session : Session Msg) {s : ℕ}
      → nonce.k_1 ≡ 0
      → sign_values mu values nonce d session ≢ ok s
  unfolding sign_values
  sign_values_spent values nonce d session z e = ground (arith, z, e)

  sign_spent :
      (nonce : SecNonce) (d : ℕ) (session : Session Msg) {s : ℕ}
      → nonce.k_1 ≡ 0
      → (sign mu nonce d session).0 ≢ ok s
  unfolding sign
  sign_spent nonce d session {s} z e = split (session_values mu session) e
    where
      split :
          (r : Result SessionValues)
          → (elim r as (λ _. Result ℕ × SecNonce) [
            | err raised ↦ (err raised, nonce)
            | ok values ↦ (sign_values mu values nonce d session, record nonce { k_1 = 0; k_2 = 0 })
          ]).0
            ≡ ok s
          → ⊥
      split (err raised) e = cc
      split (ok values) e = sign_values_spent values nonce d session z e

  -- A signature comes from a session that is assembled, and leaves a nonce of zeros.
  pub sign-ok :
      (nonce : SecNonce) (d : ℕ) (session : Session Msg) {s : ℕ}
      → (sign mu nonce d session).0 ≡ ok s
      → ((values : SessionValues) × (session_values mu session ≡ ok values)
          × (sign_values mu values nonce d session ≡ ok s))
        × ((sign mu nonce d session).1.k_1 ≡ 0)
  unfolding sign
  sign-ok nonce d session {s} e = elim (Result-cases (session_values mu session)) [
    | inl (values, f) ↦ ((values, f, sym (rw (f, sign) refl) ∙ e), rw (f, sign))
    | inr (raised, f) ↦ absurd (no_signature raised (sym (rw (f, sign) refl) ∙ e))
  ]
    where
      no_signature : (raised : Error) → err raised ≡ ok s → ⊥
      no_signature raised q = cc

  -- After sign returned a partial signature, no later call of sign with what is left of the
  -- secret nonce returns one, for any key and any session.
  pub sign_once :
      (nonce : SecNonce) (d d' : ℕ) (session session' : Session Msg) {s s' : ℕ}
      → (sign mu nonce d session).0 ≡ ok s
      → (sign mu (sign mu nonce d session).1 d' session').0 ≢ ok s'
  sign_once nonce d d' session session' e =
      sign_spent (sign mu nonce d session).1 d' session' (sign-ok nonce d session e).1
