-- ===== src/Musig2/Correct.antt =====
-- ecc/musig2.py: the aggregate of the partial signatures verifies in ecc/ssa.py.
use ellipticcurves.Prelude.{
  ℕ, ◌<◌, ◌≤◌, ◌≡◌, ◌≢◌, refl, sym, ap, ap₂, ◌∙◌, subst, arith, Bool, false, none, List, ◌∷◌, ◌==◌,
}
use ellipticcurves.Prelude.Result.{ok}
use ellipticcurves.Curve.{Point}
use ellipticcurves.Group.{AbelianGroup, nmul}
use ellipticcurves.Points.Laws.{turn}
use ellipticcurves.Points.Bip340.{
  odd_y, even, equation-assert_valid, equation-assert_as_valid_single,
}
use ellipticcurves.Ssa.{Sig, assert_valid}
use ellipticcurves.Ssa.Batch.{BatchOps, assert_as_valid_single}
use ellipticcurves.Musig2.{MusigOps, Session, SessionValues, session_values, partial_sig_agg}
use ellipticcurves.Musig2.Interface.{ImplementsMusig}
use ellipticcurves.Musig2.Shares.{Signer, EachSigned}
use ellipticcurves.Musig2.Signers.{session_of, nonce_sum, nonce_total, session-Assembled}

-- What ecc/ssa.py verifies with.
abbrev pub verifier : {Msg : Type 0} → MusigOps Msg → BatchOps Msg
verifier mu = record { ops = mu.ops; challenge = mu.challenge; multi_mult = mu.points.multi_mult }

module _ {G Msg : Type 0} {mu : MusigOps Msg} {grp : AbelianGroup G}
    (impl : ImplementsMusig mu grp) where
  open mu use {points, ops}
  open grp use {zero_point, plus}
  open impl.arith_lem use {point_of}
  open impl.arith_lem.base.base use {g}

  -- Equal values give equal verifications.
  pub Assembled-accepted :
      (session : Session Msg) (values : SessionValues) (q r : G) (s : ℕ)
      → values.Q ≡ point_of q
      → values.R ≡ point_of r
      → (q ≢ zero_point) × (r ≢ zero_point)
      → s < ops.ec.n
      → mu.challenge session.msg values.Q.x values.R.x ≡ ok values.e
      → nmul grp s g
        ≡ plus (turn grp (odd_y values.R) r) (nmul grp values.e (turn grp (odd_y values.Q) q))
      → (assert_valid ops (record { r = values.R.x; s = s }) ≡ ok tt)
        × (assert_as_valid_single
              (verifier mu)
              session.msg
              values.Q.x
              (record { r = values.R.x; s = s })
            ≡ ok tt)
  Assembled-accepted session values q r s is_Q is_R finite l c e =
      let same_challenge : mu.challenge session.msg (point_of q).x (point_of r).x ≡ ok values.e =
        sym (ap₂ (λ (P Q : Point). mu.challenge session.msg P.x Q.x) is_Q is_R) ∙ c in
      let reduced : values.e ≤ ops.ec.n = omega (arith, impl.challenge_range _ _ _ c) in
      let same_equation : nmul grp s g
          ≡ plus (even impl.arith_lem r) (nmul grp values.e (even impl.arith_lem q)) =
        e
        ∙ ap₂
            (λ (P Q : Point).
              plus (turn grp (odd_y P) r) (nmul grp values.e (turn grp (odd_y Q) q)))
            is_R is_Q in
      subst
        (λ (P : Point).
          (assert_valid ops (record { r = P.x; s = s }) ≡ ok tt)
          × (assert_as_valid_single (verifier mu) session.msg values.Q.x (record { r = P.x; s = s })
              ≡ ok tt))
        (sym is_R)
        (subst
          (λ (Q : Point).
            (assert_valid ops (record { r = (point_of r).x; s = s }) ≡ ok tt)
            × (assert_as_valid_single (verifier mu) session.msg Q.x
                  (record { r = (point_of r).x; s = s })
                ≡ ok tt))
          (sym is_Q)
          (
            equation-assert_valid impl.arith_lem values.e s q r finite.0 finite.1 l reduced
                same_equation,
            equation-assert_as_valid_single impl.arith_lem values.e s q r finite.0 finite.1 l
                reduced same_equation mu.challenge mu.points.multi_mult session.msg same_challenge,
          ))

  -- For operations on points that return what a group does whose every element n annihilates
  -- (multi_mult_var for as many scalars as points, two at least), and challenges from 1 to n
  -- - 1: when the session of some signers, with any tweaks and no adaptor, assembles, its
  -- aggregate nonce R_1 + b * R_2 is not infinity, and sign returned a partial signature to
  -- each signer, then partial_sig_agg of these returns a signature, and the Python arm of
  -- assert_as_valid_ of ecc/ssa.py accepts it for the message under the x-coordinate of the
  -- aggregate key.
  pub partial_sig_agg-accepted :
      (signer : Signer) (signers : List Signer) (tweaks : List (ℕ × Bool)) (msg : Msg)
      (psigs : List ℕ) {values : SessionValues}
      → session_values mu (session_of mu signer signers tweaks msg none) ≡ ok values
      → ((nonce_sum impl (session_of mu signer signers tweaks msg none) values).y == 0) ≡ false
      → EachSigned mu (session_of mu signer signers tweaks msg none) (signer ∷ signers) psigs
      → (sig : Sig) × (partial_sig_agg mu psigs (session_of mu signer signers tweaks msg none)
          ≡ ok sig)
        × (assert_as_valid_single (verifier mu) msg values.Q.x sig ≡ ok tt)
  unfolding partial_sig_agg
  partial_sig_agg-accepted signer signers tweaks msg psigs {values} f t signed =
      let session = session_of mu signer signers tweaks msg none in
      let all =
        session-Assembled impl signer signers tweaks msg none psigs zero_point
          (λ a. ap point_of (sym (grp.plus_zero a))) f signed t in
      let (valid, accepted) =
        Assembled-accepted session values all.q _ all.s all.is_Q all.is_R
          (all.finite_q, all.finite_r) all.bound all.challenged
          (all.equation
            ∙ ap
                (λ a.
                  plus (turn grp (odd_y values.R) a)
                    (nmul grp values.e (turn grp (odd_y values.Q) all.q)))
                (sym (grp.plus_zero (nonce_total impl values.b (signer ∷ signers))))) in
      (record { r = values.R.x; s = all.s }, rw (all.summed, valid) refl, accepted)
