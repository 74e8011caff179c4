-- ===== src/Tests/Musig2.antt =====
-- Two signers on the curve of SevenOps.
use ellipticcurves.Prelude.{
  ℕ, ◌<◌, ◌≡◌, ◌≢◌, refl, subst, arith, Bool, true, Option, none, some, List, [], ◌∷◌,
}
use ellipticcurves.Prelude.Int.{mod_ℤ, ◌-ℤ◌, ◌*ℤ◌}
use ellipticcurves.Prelude.Result.{ok, err, ok_inj, first_nonce_range}
use ellipticcurves.NumberTheory.{mod_inv_var, pow_inverse, xgcd_var}
use ellipticcurves.Curve.{Point, negate}
use ellipticcurves.Curve.Affine.{add_var}
use ellipticcurves.Mult.DoubleAndAdd.{mult_aff_var}
use ellipticcurves.Curve.Cyclic3.{c1, c2, plus3, cyclic3}
use ellipticcurves.Group.{nmul}
use ellipticcurves.Ssa.{Sig}
use ellipticcurves.Ssa.Batch.{assert_as_valid_single}
use ellipticcurves.Musig2.{
  MusigOps, Session, SessionValues, PreSignature, public_nonce, nonce_agg, key_agg_and_tweak,
  session_values, sign, partial_sig_verify, partial_sig_agg, partial_sig_agg_adaptor, adapt,
  extract_adaptor,
}
use ellipticcurves.Musig2.Interface.{ImplementsMusig}
use ellipticcurves.Musig2.Nonce.{sign_once}
use ellipticcurves.Musig2.Partial.{partial_sig_verify-sign}
use ellipticcurves.Musig2.KeyAgg.{IsAggregate, aggregate, key_agg_and_tweak-IsAggregate}
use ellipticcurves.Musig2.Shares.{Signer}
use ellipticcurves.Musig2.Signers.{session_of}
use ellipticcurves.Musig2.Correct.{verifier, partial_sig_agg-accepted}
use ellipticcurves.Musig2.Adaptor.{adapt-accepted}
use ellipticcurves.Tests.SevenOps.{ops, small_point}
use ellipticcurves.Tests.SevenPoints.{seven_arith, mult, implements_seven}
use ellipticcurves.Tests.Ssa.{ssa_ops}

-- Every hash is 1.
unfoldable mu : MusigOps ℕ
mu = record {
  points = seven_arith;
  ops = ssa_ops;
  key_agg_hash = λ L pk. 1;
  nonce_coeff_hash = λ R_1 R_2 x_Q msg. 1;
  challenge = λ msg x_Q x_K. ok 1;
}

one_in_range : (c : ℕ) → ok 1 ≡ ok c → (0 < c) × (c < 3)
one_in_range c e = subst (λ k. (0 < k) × (k < 3)) (ok_inj e) (omega arith)

unfoldable implements_musig : ImplementsMusig mu cyclic3
unfolding mu ssa_ops ops
implements_musig = record {
  arith_lem = implements_seven;
  challenge_range = λ msg x_Q x_K {c} e. one_in_range c e;
}

abbrev signer : Signer
signer = record { nonce = record { k_1 = 1; k_2 = 1; pub_key = small_point c1 }; d = 1 }

abbrev tweaks : List (ℕ × Bool)
tweaks = (1, true) ∷ []

one_below : 1 < mu.ops.ec.n
unfolding mu ssa_ops ops
one_below = omega arith

unfoldable session : Option Point → Session ℕ
unfolding mu seven_arith nmul plus3 nonce_agg
session adaptor = session_of mu signer (signer ∷ []) tweaks 7 adaptor

abbrev values : SessionValues
values = record {
  Q = small_point c2;
  gacc = 2;
  tacc = 1;
  b = 1;
  R = small_point c1;
  e = 1;
  second = none;
}

assembled : session_values mu (session none) ≡ ok values
unfolding session mu seven_arith ssa_ops ops session_values add_var mult mult_aff_var mod_inv_var
    pow_inverse xgcd_var mod_ℤ ◌-ℤ◌ ◌*ℤ◌ negate
assembled = refl

partial_signature : (sign mu signer.nonce 1 (session none)).0 ≡ ok 0
unfolding session mu seven_arith ssa_ops ops sign add_var mult mult_aff_var mod_inv_var pow_inverse
    xgcd_var mod_ℤ ◌-ℤ◌ ◌*ℤ◌ negate
partial_signature = refl

partial_sig_verify-sign_example :
    partial_sig_verify mu 0
      (public_nonce mu signer.nonce)
      (mu.points.mult 1 mu.points.gen)
      (session none)
    ≡ ok true
partial_sig_verify-sign_example =
    partial_sig_verify-sign implements_musig signer.nonce 1 (session none) partial_signature

sign_once_example : (sign mu (sign mu signer.nonce 1 (session none)).1 1 (session none)).0 ≢ ok 0
sign_once_example = sign_once mu signer.nonce 1 1 (session none) (session none) partial_signature

aggregated :
    key_agg_and_tweak mu (small_point c1 ∷ small_point c1 ∷ []) tweaks
    ≡ ok (record { Q = small_point c2; gacc = 2; tacc = 1 })
unfolding mu seven_arith ssa_ops ops key_agg_and_tweak add_var mult mult_aff_var mod_inv_var
    pow_inverse xgcd_var mod_ℤ ◌-ℤ◌ ◌*ℤ◌ negate
aggregated = refl

key_agg_and_tweak-IsAggregate_example :
    IsAggregate implements_musig
      (aggregate implements_musig (c1 ∷ c1 ∷ []))
      (record { Q = small_point c2; gacc = 2; tacc = 1 })
unfolding implements_musig implements_seven
key_agg_and_tweak-IsAggregate_example =
    key_agg_and_tweak-IsAggregate implements_musig c1 (c1 ∷ []) tweaks aggregated

partial_sig_agg-accepted_example :
    (sig : Sig) × (partial_sig_agg mu (0 ∷ 0 ∷ []) (session none) ≡ ok sig)
    × (assert_as_valid_single (verifier mu) 7 0 sig ≡ ok tt)
unfolding session add_var mult mult_aff_var mod_inv_var pow_inverse xgcd_var mod_ℤ ◌-ℤ◌ ◌*ℤ◌
partial_sig_agg-accepted_example =
    partial_sig_agg-accepted implements_musig signer (signer ∷ []) tweaks 7 (0 ∷ 0 ∷ []) assembled
      refl (partial_signature, (partial_signature, tt))

abbrev adapted_values : SessionValues
adapted_values = record {
  Q = small_point c2;
  gacc = 2;
  tacc = 1;
  b = 1;
  R = small_point c2;
  e = 1;
  second = none;
}

adapted_assembled :
    session_values mu (session (some (mu.points.mult 1 mu.points.gen))) ≡ ok adapted_values
unfolding session mu seven_arith ssa_ops ops session_values add_var mult mult_aff_var mod_inv_var
    pow_inverse xgcd_var mod_ℤ ◌-ℤ◌ ◌*ℤ◌ negate
adapted_assembled = refl

adapted_signature :
    (sign mu signer.nonce 1 (session (some (mu.points.mult 1 mu.points.gen)))).0 ≡ ok 2
unfolding session mu seven_arith ssa_ops ops sign add_var mult mult_aff_var mod_inv_var pow_inverse
    xgcd_var mod_ℤ ◌-ℤ◌ ◌*ℤ◌ negate
adapted_signature = refl

adapt-accepted_example :
    (pre : PreSignature) × (partial_sig_agg_adaptor mu
        (2 ∷ 2 ∷ [])
        (session (some (mu.points.mult 1 mu.points.gen)))
      ≡ ok pre)
    × (sig : Sig) × (adapt mu pre 1 (session (some (mu.points.mult 1 mu.points.gen))) ≡ ok sig)
    × (assert_as_valid_single (verifier mu) 7 0 sig ≡ ok tt)
    × (extract_adaptor mu sig pre (session (some (mu.points.mult 1 mu.points.gen))) ≡ ok 1)
unfolding session add_var mult mult_aff_var mod_inv_var pow_inverse xgcd_var mod_ℤ ◌-ℤ◌ ◌*ℤ◌
adapt-accepted_example =
    adapt-accepted implements_musig signer (signer ∷ []) tweaks 7 (2 ∷ 2 ∷ []) 1 (omega arith)
      one_below adapted_assembled refl (adapted_signature, (adapted_signature, tt))

-- A nonce that has signed signs no more.
spent :
    (sign mu (record { k_1 = 0; k_2 = 0; pub_key = small_point c1 }) 1 (session none)).0
    ≡ err first_nonce_range
unfolding session mu seven_arith ssa_ops ops sign add_var mult mult_aff_var mod_inv_var pow_inverse
    xgcd_var mod_ℤ ◌-ℤ◌ ◌*ℤ◌ negate
spent = refl
