-- ===== src/Musig2/Shares.antt =====
-- ecc/musig2.py: the sum of the partial signatures of all signers.
use native.Mathlib.Nat
use ellipticcurves.Prelude.{
  ℕ, ◌+◌, ◌*◌, ◌%◌, ◌<◌, ◌≡◌, refl, sym, ap, ap₂, ◌∙◌, subst, arith, Bool, false, List, [], ◌∷◌,
  map, ltb, not,
}
use ellipticcurves.Prelude.Result.{ok, ok_inj, refuse-ok, foreign_key}
use ellipticcurves.Group.{AbelianGroup, nmul, sum_of}
use ellipticcurves.Group.Multiple.{
  nmul-add, nmul-mul, nmul-plus, nmul-zero_point, plus_interchange, zero_plus,
}
use ellipticcurves.Points.Laws.{turn, turn-plus, turn-zero_point, nmul_rest, total}
use ellipticcurves.Musig2.{
  MusigOps, Session, SessionValues, SecNonce, is_odd, sign_of, is_member, key_agg_coeff,
  session_key_agg_coeff, session_values, sign_values, sign, add_psigs, agg_s,
}
use ellipticcurves.Musig2.Interface.{ImplementsMusig}
use ellipticcurves.Musig2.KeyAgg.{nmul-sign_of}
use ellipticcurves.Musig2.Nonce.{sign-ok}
use ellipticcurves.Musig2.Partial.{sign_values-Share, multiple_of_gen}

pub record Signer : Type 0 where
  pub nonce : SecNonce
  pub d : ℕ

module _ {Msg : Type 0} (mu : MusigOps Msg) where
  -- Every signer has signed the session.
  abbrev pub EachSigned : Session Msg → List Signer → List ℕ → Type 0
  EachSigned session [] [] = Unit
  EachSigned session (signer ∷ signers) (s ∷ psigs) =
      ((sign mu signer.nonce signer.d session).0 ≡ ok s) × EachSigned session signers psigs
  EachSigned _ _ _ = ⊥

module _ {G Msg : Type 0} {mu : MusigOps Msg} {grp : AbelianGroup G}
    (impl : ImplementsMusig mu grp) where
  open mu use {points, ops}
  open grp use {zero_point, plus, plus_assoc, plus_comm}
  open impl.arith_lem use {point_of}
  open impl.arith_lem.base.base use {g}

  abbrev pub key_of : Signer → G
  key_of signer = nmul grp signer.d g

  abbrev pub nonce_1 : Signer → G
  nonce_1 signer = nmul grp signer.nonce.k_1 g

  abbrev pub nonce_2 : Signer → G
  nonce_2 signer = nmul grp signer.nonce.k_2 g

  abbrev pub coeff : Session Msg → SessionValues → G → ℕ
  coeff session values key = key_agg_coeff mu session.pub_keys values.second (point_of key)

  -- The signatures add up to this, for the factor w of the keys.
  abbrev pub all_shares : SessionValues → (G → ℕ) → ℕ → List Signer → G
  all_shares values a w signers =
      plus
        (turn grp (is_odd mu values.R) (
          plus (total grp (map nonce_1 signers))
            (nmul grp values.b (total grp (map nonce_2 signers)))))
        (nmul grp w (sum_of grp (map a (map key_of signers)) (map key_of signers)))

  share_step :
      (odd : Bool) (b e a w : ℕ) (k_1 k_2 K_1 K_2 P S : G)
      → plus
          (plus (turn grp odd (plus k_1 (nmul grp b k_2))) (nmul grp (e * a * w) P))
          (plus (turn grp odd (plus K_1 (nmul grp b K_2))) (nmul grp (e * w) S))
        ≡ plus
            (turn grp odd (plus (plus k_1 K_1) (nmul grp b (plus k_2 K_2))))
            (nmul grp (e * w) (plus (nmul grp a P) S))
  share_step odd b e a w k_1 k_2 K_1 K_2 P S =
      plus_interchange grp _ _ _ _
      ∙ ap₂ plus
          (sym (turn-plus grp odd _ _)
            ∙ ap (turn grp odd) (
                plus_interchange grp k_1 (nmul grp b k_2) K_1 (nmul grp b K_2)
                ∙ ap (plus (plus k_1 K_1)) (sym (nmul-plus grp b k_2 K_2))))
          (ap (λ c. plus c (nmul grp (e * w) S))
              (ap (λ k. nmul grp k P) {x = e * a * w} {y = e * w * a} (omega arith)
                ∙ nmul-mul grp (e * w) a P)
            ∙ sym (nmul-plus grp (e * w) (nmul grp a P) S))

  own_coeff :
      (session : Session Msg) (values : SessionValues) (signer : Signer) {a : ℕ}
      → session_key_agg_coeff mu values session (points.mult signer.d points.gen) ≡ ok a
      → a ≡ coeff session values (key_of signer)
  unfolding session_key_agg_coeff
  own_coeff session values signer k =
      let (t, e) = refuse-ok (not (is_member _ session.pub_keys)) foreign_key _ k in
      ok_inj (sym e)
      ∙ ap (key_agg_coeff mu session.pub_keys values.second) (multiple_of_gen impl signer.d)

  no_shares :
      (odd : Bool) (b w : ℕ)
      → plus (turn grp odd (plus zero_point (nmul grp b zero_point))) (nmul grp w zero_point)
        ≡ zero_point
  no_shares odd b w =
      ap₂ plus
        (ap (turn grp odd) (zero_plus grp _ ∙ nmul-zero_point grp b) ∙ turn-zero_point grp odd)
        (nmul-zero_point grp w)
      ∙ zero_plus grp zero_point

  allowed : (k n : ℕ) → k < n → not (ltb k n) ≡ false
  allowed k n l = ground arith

  -- Each partial signature is below n, and together they are the shares.
  shares_add_up :
      (session : Session Msg) (values : SessionValues) (signers : List Signer) (psigs : List ℕ)
      → session_values mu session ≡ ok values
      → EachSigned mu session signers psigs
      → (s : ℕ)
      → (r : ℕ) × (add_psigs mu s psigs ≡ ok r)
        × (nmul grp r g
            ≡ plus (nmul grp s g) (
                all_shares values
                  (coeff session values)
                  (values.e * (sign_of mu values.Q * values.gacc % ops.ec.n))
                  signers))
  unfolding add_psigs total sum_of
  shares_add_up session values [] [] f h s = (
    s,
    refl,
    sym (
        ap (plus (nmul grp s g)) (no_shares (is_odd mu values.R) values.b _)
        ∙ grp.plus_zero (nmul grp s g)),
  )
  shares_add_up session values (signer ∷ signers) (s_i ∷ psigs) f h s =
      let (values', f', signed) = (sign-ok mu signer.nonce signer.d session h.0).0 in
      let here =
        subst (λ v. sign_values mu v signer.nonce signer.d session ≡ ok s_i) (ok_inj (sym f' ∙ f))
          signed in
      let (a, k, bound) = sign_values-Share impl values signer.nonce signer.d session here in
      let (r, e, sum) = shares_add_up session values signers psigs f h.1 ((s + s_i) % ops.ec.n) in
      let w = sign_of mu values.Q * values.gacc % ops.ec.n in
      let rest = all_shares values (coeff session values) (values.e * w) signers in
      let nonces =
        turn grp (is_odd mu values.R)
          (plus (nonce_1 signer) (nmul grp values.b (nonce_2 signer))) in
      (
        r,
        rw (allowed s_i ops.ec.n bound.0) e,
        sum
            ∙ ap (λ c. plus c rest) (nmul_rest impl.arith_lem (s + s_i) g ∙ nmul-add grp s s_i g)
            ∙ plus_assoc (nmul grp s g) (nmul grp s_i g) rest
            ∙ ap (plus (nmul grp s g)) (
                ap (λ c. plus c rest)
                  (bound.1
                    ∙ ap (λ m. plus nonces (nmul grp (values.e * m * w) (key_of signer)))
                        (own_coeff session values signer k))
                ∙ share_step (is_odd mu values.R) values.b values.e
                    (coeff session values (key_of signer)) w (nonce_1 signer) (nonce_2 signer) _ _
                    (key_of signer) _),
      )
  shares_add_up session values [] (s_i ∷ psigs) f h s = absurd h
  shares_add_up session values (signer ∷ signers) [] f h s = absurd h

  collect :
      (A K : G) (e sign gacc tacc : ℕ)
      → plus (plus A (nmul grp (e * (sign * gacc % ops.ec.n)) K)) (nmul grp (e * sign * tacc) g)
        ≡ plus A (nmul grp e (nmul grp sign (plus (nmul grp gacc K) (nmul grp tacc g))))
  collect A K e sign gacc tacc =
      plus_assoc A (nmul grp (e * (sign * gacc % ops.ec.n)) K) (nmul grp (e * sign * tacc) g)
      ∙ ap (plus A) (
          ap₂ plus
            (nmul-mul grp e (sign * gacc % ops.ec.n) K
              ∙ ap (nmul grp e)
                  (nmul_rest impl.arith_lem (sign * gacc) K ∙ nmul-mul grp sign gacc K))
            (nmul-mul grp (e * sign) tacc g ∙ nmul-mul grp e sign (nmul grp tacc g))
          ∙ sym
              (nmul-plus grp e (nmul grp sign (nmul grp gacc K)) (nmul grp sign (nmul grp tacc g)))
          ∙ ap (nmul grp e) (sym (nmul-plus grp sign (nmul grp gacc K) (nmul grp tacc g))))

  -- What `agg_s` returns, for the aggregate K of the keys.
  pub agg_s_lem :
      (session : Session Msg) (values : SessionValues) (signers : List Signer) (psigs : List ℕ)
      (K : G)
      → session_values mu session ≡ ok values
      → EachSigned mu session signers psigs
      → K ≡ sum_of grp (map (coeff session values) (map key_of signers)) (map key_of signers)
      → (s : ℕ) × (agg_s mu psigs session ≡ ok (record { r = values.R.x; s = s }))
        × (s < ops.ec.n)
        × (nmul grp s g
            ≡ plus
                (turn grp (is_odd mu values.R) (
                  plus
                    (total grp (map nonce_1 signers))
                    (nmul grp values.b (total grp (map nonce_2 signers)))))
                (nmul grp values.e (
                  turn grp
                    (is_odd mu values.Q)
                    (plus (nmul grp values.gacc K) (nmul grp values.tacc g)))))
  unfolding agg_s
  agg_s_lem session values signers psigs K f h k =
      let (r, e, sum) = shares_add_up session values signers psigs f h 0 in
      let sign = sign_of mu values.Q in
      let shares =
        all_shares values (coeff session values) (values.e * (sign * values.gacc % ops.ec.n))
          signers in
      let nonces = turn grp (is_odd mu values.R) (
        plus (total grp (map nonce_1 signers))
          (nmul grp values.b (total grp (map nonce_2 signers)))) in
      (
        (r + values.e * sign * values.tacc) % ops.ec.n,
        rw (f, e) refl,
        Nat.mod-lt _ (omega (arith, impl.arith_lem.above_two)),
        nmul_rest impl.arith_lem (r + values.e * sign * values.tacc) g
            ∙ nmul-add grp r (values.e * sign * values.tacc) g
            ∙ ap (λ c. plus c (nmul grp (values.e * sign * values.tacc) g))
                (sum
                  ∙ ap (λ c. plus c shares) (no_multiple g)
                  ∙ zero_plus grp shares
                  ∙ ap (λ c. plus nonces (nmul grp (values.e * (sign * values.gacc % ops.ec.n)) c))
                      (sym k))
            ∙ collect nonces K values.e sign values.gacc values.tacc
            ∙ ap (λ c. plus nonces (nmul grp values.e c)) (nmul-sign_of impl values.Q _),
      )
    where
      no_multiple : (a : G) → nmul grp 0 a ≡ zero_point
      no_multiple a = unfold nmul in refl
