-- ===== src/Tests/Signing.antt =====
-- Runs of the signing of ecc/dsa.py on the curve of SmallOps.
use ellipticcurves.Prelude.{
  length, ◌≤◌, ◌<◌, ◌+◌, some, ℕ, zero, suc, ◌≡◌, ◌≢◌, ◌↔◌, refl, ap, ◌∙◌, arith, true, false, ◌==◌,
  if◌then◌else◌,
}
use ellipticcurves.Prelude.Int.{ℤ, pos, ◌*ℤ◌, ◌-ℤ◌, mod_ℤ}
use ellipticcurves.Prelude.Result.{Result, ok, err, no_inverse, s_not_in_range, not_the_same_curve}
use ellipticcurves.NumberTheory.{mod_inv_var, mod_inv, pow_inverse, xgcd_var}
use ellipticcurves.Curve.{JacPoint}
use ellipticcurves.Curve.Cyclic3.{c1, plus3, cyclic3}
use ellipticcurves.Group.{nmul}
use ellipticcurves.Ecdsa.Signing.{
  sign_recoverable, assert_as_valid, recover_pub_key, recover_pub_keys, is_low_r, grind_low_r,
  CurveKey, same_curve, crack_prv_key_var,
}
use ellipticcurves.Ecdsa.Signing.RoundTrip.{recover_pub_key-sign_recoverable}
use ellipticcurves.Ecdsa.Signing.Spec.{Accepts, assert_as_valid_iff, assert_as_valid-opposite}
use ellipticcurves.Ecdsa.Signing.Crack.{crack_prv_key_var_lem}
use ellipticcurves.Prelude.Modular.{mod_ℤ-lt}
use ellipticcurves.Ecdsa.Signing.Correct.{sign_recoverable-accepted}
use ellipticcurves.Prelude.Bytes.{bit_length, bits_of_fuel}
use ellipticcurves.Ecdsa.{Sig, congruence_loop, congruence_found, assert_valid}
use ellipticcurves.Ecdsa.Der.{serialize_scalar}
use ellipticcurves.Ecdsa.Signing.Keys.{Among, recover_pub_keys-sign_recoverable}
use ellipticcurves.Ecdsa.Signing.Grind.{IsFirstLow, grind_low_r_lem, is_low_r-length}
use ellipticcurves.Tests.SmallOps.{tuple_of, ops, implements, element_of}

-- The challenge 0 signed by the key 1 with the nonce 1: s is 2, and 1 when it is lowered.
signed_low : sign_recoverable 1 0 1 1 true ops ≡ ok (record { r = 2; s = 1 }, 1)
unfolding sign_recoverable ops nmul plus3 mod_inv mod_inv_var pow_inverse xgcd_var mod_ℤ ◌-ℤ◌ ◌*ℤ◌
signed_low = refl

key_one : implements.Shows (tuple_of c1) (nmul cyclic3 1 implements.g)
unfolding implements nmul plus3
key_one = refl

sign_recoverable-accepted_example :
    assert_as_valid 0 (tuple_of c1) (record { r = 2; s = 1 }) ops true ≡ ok tt
unfolding ops
sign_recoverable-accepted_example =
    sign_recoverable-accepted implements 0 1 1 (tuple_of c1) true key_one (omega arith)
      (omega arith) 1 signed_low

recover_pub_key-sign_recoverable_example :
    (QJ : JacPoint) × (recover_pub_key 1 0 (record { r = 2; s = 1 }) ops true ≡ ok QJ)
    × implements.Shows QJ (nmul cyclic3 1 implements.g)
unfolding ops
recover_pub_key-sign_recoverable_example =
    recover_pub_key-sign_recoverable implements 1 0 1 1 true refl (omega arith) (omega arith)
      (omega arith) (omega arith) signed_low

recover_pub_keys-sign_recoverable_example :
    Among
      (λ QJ. implements.Shows QJ (nmul cyclic3 1 implements.g))
      (recover_pub_keys 0 (record { r = 2; s = 1 }) ops true)
unfolding ops
recover_pub_keys-sign_recoverable_example =
    recover_pub_keys-sign_recoverable implements 1 0 1 1 true refl (omega arith) (omega arith)
      (omega arith) (omega arith) (omega arith) signed_low

-- The lowered signature, and the one that is not.
accepted_low : assert_as_valid 0 (tuple_of c1) (record { r = 2; s = 1 }) ops false ≡ ok tt
unfolding assert_as_valid ops nmul plus3 element_of mod_inv_var pow_inverse xgcd_var mod_ℤ ◌-ℤ◌ ◌*ℤ◌
accepted_low = refl

assert_as_valid_iff_example :
    (assert_as_valid 0 (tuple_of c1) (record { r = 2; s = 1 }) ops true ≡ ok tt)
    ↔ Accepts implements 0 (nmul cyclic3 1 implements.g) (record { r = 2; s = 1 }) true
unfolding ops
assert_as_valid_iff_example =
    assert_as_valid_iff implements 0 (tuple_of c1) (record { r = 2; s = 1 }) true key_one
      (omega arith)

assert_as_valid-opposite_example :
    assert_as_valid 0 (tuple_of c1) (record { r = 2; s = 2 }) ops false ≡ ok tt
unfolding ops
assert_as_valid-opposite_example =
    assert_as_valid-opposite implements 0 1 2 1 (omega arith) (omega arith) (tuple_of c1) key_one
      accepted_low

-- Modulo 3, every integer that is no multiple of 3 has an inverse.
inverse_of_residue : ℕ → Result ℕ
inverse_of_residue k = let r = xgcd_var k 3 in if r.g == 1 then ok (mod_ℤ r.x 3) else err no_inverse

by_residue : (a : ℤ) → mod_inv_var a (pos 3) ≡ inverse_of_residue (mod_ℤ a 3)
unfolding mod_inv_var pow_inverse inverse_of_residue
by_residue a = refl

inverses : (inverse_of_residue 1 ≡ ok 1) × (inverse_of_residue 2 ≡ ok 2)
unfolding inverse_of_residue xgcd_var mod_ℤ ◌-ℤ◌ ◌*ℤ◌
inverses = (refl, refl)

residue_inverse : (a : ℤ) (r : ℕ) → mod_ℤ a 3 ≡ r → r ≢ 0 → (i : ℕ) × (mod_inv_var a (pos 3) ≡ ok i)
residue_inverse a zero e n = absurd (n refl)
residue_inverse a (suc zero) e n = (1, by_residue a ∙ ap inverse_of_residue e ∙ inverses.0)
residue_inverse a (suc (suc zero)) e n = (2, by_residue a ∙ ap inverse_of_residue e ∙ inverses.1)
residue_inverse a (suc (suc (suc r))) e n = absurd (omega (arith, mod_ℤ-lt a 3 (omega arith)))

-- What a signature reads of the curve of SmallOps.
abbrev small_key : CurveKey
small_key = record {
  ec = record { n = 3; p = 5; is_x_coordinate = λ x. x == 2 };
  a = 4;
  b = 3;
  gen = record { x = 2; y = 2 };
  cofactor = 1;
}

valid_small :
    (assert_valid small_key.ec (record { r = 2; s = 1 }) ≡ ok tt)
    × (assert_valid small_key.ec (record { r = 2; s = 2 }) ≡ ok tt)
unfolding assert_valid congruence_found congruence_loop
valid_small = (refl, refl)

same_small : same_curve small_key small_key ≡ true
unfolding same_curve
same_small = refl

-- A signature with s = 0 is refused, and one on another curve.
zero_refused :
    crack_prv_key_var 0 small_key (record { r = 2; s = 0 }) 1 small_key (record { r = 2; s = 2 })
    ≡ err s_not_in_range
unfolding crack_prv_key_var assert_valid congruence_found congruence_loop
zero_refused = refl

curve_refused :
    crack_prv_key_var 0
      (record small_key { b = 1 })
      (record { r = 2; s = 1 })
      1
      small_key
      (record { r = 2; s = 2 })
    ≡ err not_the_same_curve
unfolding crack_prv_key_var assert_valid congruence_found congruence_loop same_curve
curve_refused = refl

-- The key 2 and the nonce 1 with r = 2: c = 0 gives s = 1, and c = 1 gives s = 2.
crack_prv_key_var_lem_example :
    crack_prv_key_var 0 small_key (record { r = 2; s = 1 }) 1 small_key (record { r = 2; s = 2 })
    ≡ ok (2, 1)
crack_prv_key_var_lem_example =
    crack_prv_key_var_lem small_key small_key 2 1 0 1 (record { r = 2; s = 1 })
      (record { r = 2; s = 2 }) valid_small.0 valid_small.1 same_small (omega arith) (omega arith)
      (record { reduced = omega arith; equation = refl })
      (record { reduced = omega arith; equation = refl }) refl (λ e. absurd (omega (arith, e)))
      (λ a n. residue_inverse a (mod_ℤ a 3) refl n)

-- Draws whose r is 200, 130 and 5, for scalars of one octet.
drawn : ℕ → Sig
drawn zero = record { r = 200; s = 1 }
drawn (suc zero) = record { r = 130; s = 1 }
drawn (suc (suc i)) = record { r = 5; s = 1 }

third_is_low : IsFirstLow 1 drawn 2
unfolding drawn is_low_r bit_length bits_of_fuel
third_is_low = record { low = refl; before = not_before }
  where
    not_before : (i : ℕ) → i < 2 → is_low_r 1 (drawn i).r ≡ false
    not_before zero l = refl
    not_before (suc zero) l = refl
    not_before (suc (suc i)) l = absurd (omega arith)

grind_low_r_lem_example : grind_low_r 4 (λ i. ok (drawn i)) true 1 ≡ ok (some (drawn 2))
grind_low_r_lem_example =
    grind_low_r_lem (λ i. ok (drawn i)) drawn 1 2 4 (λ i. refl) third_is_low (omega arith)

is_low_r-length_example : length (serialize_scalar 5) ≤ 1 + 2
unfolding drawn
is_low_r-length_example = is_low_r-length 1 5 (omega arith) (third_is_low.low)
