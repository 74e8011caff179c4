-- ===== src/Tests/Der.antt =====
-- The encodings of ecc/dsa.py of small signatures.
use ellipticcurves.Prelude.{ℕ, ◌%◌, ◌==◌, ◌≡◌, ◌↔◌, refl, true, false, List, [], ◌∷◌, ◌++◌, arith}
use ellipticcurves.Prelude.Bytes.{AreBytes, bit_length, bits_of_fuel, to_bytes}
use ellipticcurves.Prelude.Result.{ok, err, trailing_bytes, bad_padding, negative_scalar, long_form}
use ellipticcurves.Ecdsa.{SigCurve, Sig, assert_valid, checked, congruence_found, congruence_loop}
use ellipticcurves.Ecdsa.Validity.{IsValid, assert_valid_iff}
use ellipticcurves.Ecdsa.Der.{
  serialize, parse, serialize_scalar, der_length, parse_der_value, parse_scalars,
  deserialize_scalar, strict_scalar, parse_der_size, size_after_prefix,
}
use ellipticcurves.Ecdsa.Der.RoundTrip.{parse-serialize, parse-serialize-trailing, serialize-parse}

-- Only the numbers below 251 that leave 2 modulo 3 are x-coordinates.
abbrev curve : SigCurve
curve = record { n = 241; p = 251; is_x_coordinate = λ x. x % 3 == 2 }

abbrev sig : Sig
sig = record { r = 200; s = 3 }

abbrev octets : List ℕ
octets = 48 ∷ 7 ∷ 2 ∷ 2 ∷ 0 ∷ 200 ∷ 2 ∷ 1 ∷ 3 ∷ []

octets-AreBytes : AreBytes octets
octets-AreBytes = omega arith

written : serialize curve sig true ≡ ok octets
unfolding serialize checked assert_valid congruence_found congruence_loop serialize_scalar
    der_length bit_length bits_of_fuel to_bytes
written = refl

read : parse curve octets true true ≡ ok sig
read = parse-serialize curve sig true true octets (omega arith) (omega arith) written

padded : parse curve (48 ∷ 7 ∷ 2 ∷ 1 ∷ 5 ∷ 2 ∷ 2 ∷ 0 ∷ 3 ∷ []) false true ≡ err bad_padding
unfolding parse parse_der_value parse_scalars deserialize_scalar strict_scalar parse_der_size
    size_after_prefix
padded = refl

negative : parse curve (48 ∷ 6 ∷ 2 ∷ 1 ∷ 200 ∷ 2 ∷ 1 ∷ 3 ∷ []) false true ≡ err negative_scalar
unfolding parse parse_der_value parse_scalars deserialize_scalar strict_scalar parse_der_size
    size_after_prefix
negative = refl

long : parse curve (48 ∷ 129 ∷ 6 ∷ []) false true ≡ err long_form
unfolding parse parse_der_value parse_scalars deserialize_scalar strict_scalar parse_der_size
    size_after_prefix
long = refl

parse-serialize_example : parse curve octets true false ≡ ok sig
parse-serialize_example =
    parse-serialize curve sig true false octets (omega arith) (omega arith) written

parse-serialize-trailing_example :
    (parse curve (octets ++ (1 ∷ [])) true true ≡ err trailing_bytes)
    × (parse curve (octets ++ (1 ∷ [])) true false ≡ ok sig)
parse-serialize-trailing_example =
    parse-serialize-trailing curve sig true octets 1 [] (omega arith) (omega arith) written

serialize-parse_example : serialize curve sig true ≡ ok octets
serialize-parse_example = serialize-parse curve octets true sig octets-AreBytes read

assert_valid_iff_example : (assert_valid curve sig ≡ ok tt) ↔ IsValid curve sig
assert_valid_iff_example = assert_valid_iff curve sig (omega arith)
