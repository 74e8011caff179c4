-- ===== src/Musig2/Adaptor.antt =====
-- ecc/musig2.py: a pre-signature, its adaptation and the extraction of the secret.
use native.Mathlib.Nat
use ellipticcurves.Prelude.{
  ℕ, ◌+◌, ◌-◌, ◌%◌, ◌<◌, ◌≡◌, refl, sym, ap, ap₂, ◌∙◌, arith, Bool, true, false, some, List, ◌∷◌,
  ◌==◌, ltb, ◌&&◌, not, if◌then◌else◌,
}
use ellipticcurves.Prelude.Int.{pos, ◌-ℤ◌, neg_ℤ, mod_ℤ}
use ellipticcurves.Prelude.Modular.{mod_cancel_add, mod_ℤ--ℤ, mod_ℤ-pos, mod_ℤ-lt}
use ellipticcurves.Prelude.Result.{ok}
use ellipticcurves.Group.{AbelianGroup, nmul}
use ellipticcurves.Group.Multiple.{nmul-add}
use ellipticcurves.Points.Laws.{turn, turn-plus, nmul_rest}
use ellipticcurves.Points.Bip340.{odd_y}
use ellipticcurves.Ssa.{Sig}
use ellipticcurves.Ssa.Batch.{assert_as_valid_single}
use ellipticcurves.Musig2.{
  MusigOps, SessionValues, PreSignature, turn_scalar, session_values, partial_sig_agg_adaptor,
  adapt, extract_adaptor,
}
use ellipticcurves.Musig2.Interface.{ImplementsMusig}
use ellipticcurves.Musig2.Partial.{nmul_turned, multiple_of_gen}
use ellipticcurves.Musig2.Shares.{Signer, EachSigned}
use ellipticcurves.Musig2.Signers.{session_of, nonce_sum, nonce_total, session-Assembled}
use ellipticcurves.Musig2.Correct.{verifier, Assembled-accepted}

-- (a + t) % n - a is t modulo n.
difference : (a t n : ℕ) → t < n → mod_ℤ (pos ((a + t) % n) -ℤ pos a) n ≡ t
difference a t n l =
    sym (Nat.mod-eq_of_lt (mod_ℤ-lt (pos ((a + t) % n) -ℤ pos a) n (omega arith)))
    ∙ mod_cancel_add n (mod_ℤ (pos ((a + t) % n) -ℤ pos a) n) t (a % n) (omega arith) (
        ap (λ k. (mod_ℤ (pos ((a + t) % n) -ℤ pos a) n + k) % n) (sym (mod_ℤ-pos a n))
        ∙ mod_ℤ--ℤ (pos ((a + t) % n)) (pos a) n (omega arith)
        ∙ mod_ℤ-pos ((a + t) % n) n
        ∙ Nat.mod-eq_of_lt (Nat.mod-lt (a + t) (omega arith))
        ∙ sym (Nat.mod-add-mod a n t)
        ∙ ap (λ k. k % n) {x = a % n + t} {y = t + a % n} (omega arith))
    ∙ Nat.mod-eq_of_lt l

negated : (t n : ℕ) → 0 < t → t < n → mod_ℤ (neg_ℤ (pos (n - t))) n ≡ t
unfolding mod_ℤ neg_ℤ
negated t n h l = grind (arith, Nat.mod-eq_of_lt)

module _ {G Msg : Type 0} {mu : MusigOps Msg} {grp : AbelianGroup G}
    (impl : ImplementsMusig mu grp) where
  open mu use {points, ops}
  open grp use {plus}
  open impl.arith_lem use {point_of}
  open impl.arith_lem.base.base use {g}

  recovered :
      (odd : Bool) (a t : ℕ)
      → 0 < t
      → t < ops.ec.n
      → (let s = mod_ℤ (pos ((a + turn_scalar mu odd t) % ops.ec.n) -ℤ pos a) ops.ec.n in
          if odd then mod_ℤ (neg_ℤ (pos s)) ops.ec.n else s)
        ≡ t
  recovered true a t h l =
      ap (λ k. mod_ℤ (neg_ℤ (pos k)) ops.ec.n) (difference a (ops.ec.n - t) ops.ec.n (omega arith))
      ∙ negated t ops.ec.n h l
  recovered false a t h l = difference a t ops.ec.n l

  in_range : (t n : ℕ) → 0 < t → t < n → not (ltb 0 t && ltb t n) ≡ false
  in_range t n h l = ground arith

  -- For operations on points that return what a group does whose every element n annihilates
  -- (multi_mult_var for as many scalars as points, two at least), and challenges from 1 to n
  -- - 1: for a t from 1 to n - 1 and a session with the adaptor t * G that assembles, whose
  -- nonce with the adaptor is not infinity and which each signer has signed:
  -- partial_sig_agg_adaptor returns a pre-signature, adapt completes it with t to a signature
  -- that the Python arm of assert_as_valid_ of ecc/ssa.py accepts, and extract_adaptor
  -- returns t from the two.
  pub adapt-accepted :
      (signer : Signer) (signers : List Signer) (tweaks : List (ℕ × Bool)) (msg : Msg)
      (psigs : List ℕ) (t : ℕ) {values : SessionValues}
      → 0 < t
      → t < ops.ec.n
      → session_values mu
          (session_of mu signer signers tweaks msg (some (points.mult t points.gen)))
        ≡ ok values
      → ((nonce_sum impl
            (session_of mu signer signers tweaks msg (some (points.mult t points.gen)))
            values).y
          == 0)
        ≡ false
      → EachSigned mu
          (session_of mu signer signers tweaks msg (some (points.mult t points.gen)))
          (signer ∷ signers)
          psigs
      → (pre : PreSignature) × (partial_sig_agg_adaptor mu psigs
            (session_of mu signer signers tweaks msg (some (points.mult t points.gen)))
          ≡ ok pre)
        × (sig : Sig) × (adapt mu pre t
              (session_of mu signer signers tweaks msg (some (points.mult t points.gen)))
            ≡ ok sig)
        × (assert_as_valid_single (verifier mu) msg values.Q.x sig ≡ ok tt)
        × (extract_adaptor mu sig pre
              (session_of mu signer signers tweaks msg (some (points.mult t points.gen)))
            ≡ ok t)
  unfolding partial_sig_agg_adaptor adapt extract_adaptor
  adapt-accepted signer signers tweaks msg psigs t {values} h l f y signed =
      let session = session_of mu signer signers tweaks msg (some (points.mult t points.gen)) in
      let tau = nmul grp t g in
      let all =
        session-Assembled impl signer signers tweaks msg (some (points.mult t points.gen)) psigs tau
          (λ a.
            ap (points.add (point_of a)) (multiple_of_gen impl t) ∙ impl.arith_lem.add_lem a tau)
          f signed y in
      let odd = odd_y values.R in
      let s = (all.s + turn_scalar mu odd t) % ops.ec.n in
      let key = nmul grp values.e (turn grp (odd_y values.Q) all.q) in
      let nonces = nonce_total impl values.b (signer ∷ signers) in
      let equation : nmul grp s g ≡ plus (turn grp odd (plus nonces tau)) key =
        nmul_rest impl.arith_lem (all.s + turn_scalar mu odd t) g
        ∙ nmul-add grp all.s (turn_scalar mu odd t) g
        ∙ ap₂ plus all.equation (nmul_turned impl odd t g (omega arith))
        ∙ grp.plus_assoc (turn grp odd nonces) key (turn grp odd tau)
        ∙ ap (plus (turn grp odd nonces)) (grp.plus_comm key (turn grp odd tau))
        ∙ sym (grp.plus_assoc (turn grp odd nonces) (turn grp odd tau) key)
        ∙ ap (λ a. plus a key) (sym (turn-plus grp odd nonces tau)) in
      let (valid, accepted) =
        Assembled-accepted impl session values all.q _ s all.is_Q all.is_R
          (all.finite_q, all.finite_r) (Nat.mod-lt _ (omega arith)) all.challenged equation in
      (
        record { r = values.R.x; s = all.s },
        all.summed,
        record { r = values.R.x; s = s },
        rw (f, in_range t ops.ec.n h l, valid) refl,
        accepted,
        rw f (ap ok (recovered odd all.s t h l)),
      )
