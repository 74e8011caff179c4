-- ===== src/Tests/Sec.antt =====
-- Octets of points on y ^ 2 = x ^ 3 + 7 over the field of 11 elements, whose points of order 3 are
-- the multiples of (3, 1).
use ellipticcurves.Prelude.{◌≡◌, refl, arith, true, false, [], ◌∷◌}
use ellipticcurves.Prelude.Int.{mod_ℤ, ◌-ℤ◌, ◌*ℤ◌}
use ellipticcurves.Prelude.Bytes.{to_bytes, from_bytes}
use ellipticcurves.Prelude.Result.{ok, err, hybrid_parity, not_a_point, two_torsion, octets_size}
use ellipticcurves.Curve.{Point, jac_from_aff, add_jac, add_jac_framed, chord_sum, double_jac}
use ellipticcurves.Curve.Roots.{y_even_var}
use ellipticcurves.Sec.{
  Curve, as_octets, is_curve_point, assert_in_subgroup, bytes_from_point, from_compressed,
  from_uncompressed, point_from_octets, point_from_pub_key,
}
use ellipticcurves.Sec.Written.{point_from_octets-bytes_from_point}
use ellipticcurves.Sec.RoundTrip.{bytes_from_point-point_from_octets}
use ellipticcurves.Sec.Valid.{IsPoint, point_from_pub_key-IsPoint}

abbrev ec : Curve
ec = record { group = record { p = 11; a = 0; b = 7 }; p_size = 1; n = 3; cofactor = 4 }

abbrev point : Point
point = record { x = 3; y = 1 }

even_of_three : y_even_var ec.group 3 ≡ ok 10
unfolding y_even_var mod_ℤ
even_of_three = refl

of_order_three : assert_in_subgroup ec point ≡ ok tt
unfolding assert_in_subgroup add_jac add_jac_framed chord_sum double_jac jac_from_aff mod_ℤ ◌-ℤ◌
    ◌*ℤ◌
of_order_three = refl

written : bytes_from_point ec point true ≡ ok (3 ∷ 3 ∷ [])
unfolding bytes_from_point to_bytes
written = refl

read : point_from_octets (3 ∷ 3 ∷ []) ec false ≡ ok point
unfolding point_from_octets from_compressed from_bytes add_jac add_jac_framed chord_sum double_jac
    jac_from_aff mod_ℤ ◌-ℤ◌ ◌*ℤ◌
read = refl

point_from_octets-bytes_from_point_example : point_from_octets (3 ∷ 3 ∷ []) ec true ≡ ok point
point_from_octets-bytes_from_point_example =
    point_from_octets-bytes_from_point ec point true true (3 ∷ 3 ∷ []) (omega arith) even_of_three
      of_order_three written

bytes_from_point-point_from_octets_example : bytes_from_point ec point true ≡ ok (3 ∷ 3 ∷ [])
bytes_from_point-point_from_octets_example =
    bytes_from_point-point_from_octets ec (3 ∷ 3 ∷ []) refl (omega arith)
      (omega arith, (omega arith, tt)) read

key_read : point_from_pub_key (as_octets (4 ∷ 3 ∷ 1 ∷ [])) ec ≡ ok point
unfolding point_from_pub_key point_from_octets from_uncompressed from_bytes add_jac add_jac_framed
    chord_sum double_jac jac_from_aff mod_ℤ ◌-ℤ◌ ◌*ℤ◌
key_read = refl

point_from_pub_key-IsPoint_example : IsPoint ec point
point_from_pub_key-IsPoint_example =
    point_from_pub_key-IsPoint ec (as_octets (4 ∷ 3 ∷ 1 ∷ [])) refl (omega arith)
      (omega arith, (omega arith, (omega arith, tt))) key_read

hybrid_read : point_from_octets (7 ∷ 3 ∷ 1 ∷ []) ec true ≡ ok point
unfolding point_from_octets from_uncompressed from_bytes add_jac add_jac_framed chord_sum double_jac
    jac_from_aff mod_ℤ ◌-ℤ◌ ◌*ℤ◌
hybrid_read = refl

-- 6 says that y is even.
other_parity : point_from_octets (6 ∷ 3 ∷ 1 ∷ []) ec true ≡ err hybrid_parity
unfolding point_from_octets from_uncompressed from_bytes add_jac add_jac_framed chord_sum double_jac
    jac_from_aff mod_ℤ ◌-ℤ◌ ◌*ℤ◌
other_parity = refl

no_hybrid : point_from_octets (7 ∷ 3 ∷ 1 ∷ []) ec false ≡ err not_a_point
unfolding point_from_octets from_uncompressed from_bytes add_jac add_jac_framed chord_sum double_jac
    jac_from_aff mod_ℤ ◌-ℤ◌ ◌*ℤ◌
no_hybrid = refl

too_long : point_from_octets (4 ∷ 3 ∷ 1 ∷ 1 ∷ []) ec false ≡ err octets_size
unfolding point_from_octets
too_long = refl

-- 5 ^ 3 + 7 = 0 modulo 11, so that (5, 0) has order two.
ambiguous : is_curve_point ec (record { x = 5; y = 0 }) ≡ err two_torsion
unfolding is_curve_point
ambiguous = refl
