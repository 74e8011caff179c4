-- ===== src/Tests/Borromean.antt =====
-- Ring signatures of ecc/borromean.py on the curve of SevenOps.
use ellipticcurves.Prelude.{ℕ, ◌+◌, ◌-◌, ◌++◌, ◌%◌, ◌≡◌, refl, true, List, [], ◌∷◌}
use ellipticcurves.Prelude.Int.{neg_ℤ}
use ellipticcurves.Prelude.Bytes.{to_bytes, from_bytes, length-to_bytes}
use ellipticcurves.Prelude.Result.{
  ok, err, ring_shape, failed_verification, not_enough_data, trailing_bytes,
}
use ellipticcurves.Curve.{Point}
use ellipticcurves.Curve.Cyclic3.{c1, c2, plus3, minus3}
use ellipticcurves.Group.{nmul, zmul}
use ellipticcurves.Borromean.{RingOps, RingInput, BorromeanSig, rings_of, sign, assert_as_valid}
use ellipticcurves.Borromean.Wire.{
  secp256k1_n, secp256k1_n_size, serialize, parse, parse-serialize_back,
}
use ellipticcurves.Borromean.Correct.{ring, AreInputs, sign-assert_as_valid}
use ellipticcurves.Tests.SevenOps.{ops, small_point}
use ellipticcurves.Tests.SmallPoints.{small_arith, implements_points}
use ellipticcurves.Tests.Ssa.{ssa_ops}

-- A sum of octets stands for the hash.
abbrev sum_octets : List ℕ → ℕ
sum_octets [] = 1
sum_octets (a ∷ xs) = a + sum_octets xs

abbrev digest : List ℕ → List ℕ
digest xs = sum_octets xs ∷ []

abbrev scalar_of : List ℕ → ℕ
scalar_of xs = 1 + sum_octets xs % 2

abbrev octets_of : Point → List ℕ
octets_of P = P.y ∷ []

abbrev small_ring : RingOps
small_ring = ring implements_points digest scalar_of octets_of

abbrev first : RingInput
first = record {
  keys = small_point c1 ∷ small_point c2 ∷ [];
  j_star = 0;
  k = 1;
  q = 1;
  drawn = 0 ∷ 0 ∷ [];
  redrawn = [];
}

abbrev last : RingInput
last = record {
  keys = small_point c2 ∷ small_point c1 ∷ [];
  j_star = 1;
  k = 2;
  q = 1;
  drawn = 0 ∷ 0 ∷ [];
  redrawn = 0 ∷ [];
}

inputs-AreInputs : AreInputs small_ring (first ∷ last ∷ [])
unfolding implements_points small_arith nmul plus3
inputs-AreInputs = (
  record { key = refl; drawn = refl; redrawn = refl },
  (record { key = refl; drawn = refl; redrawn = refl }, tt),
)

abbrev sig : BorromeanSig
sig = record { e0 = 23 ∷ []; s = (2 ∷ 0 ∷ []) ∷ (0 ∷ 0 ∷ []) ∷ [] }

signed : sign small_ring [] (first ∷ last ∷ []) ≡ ok sig
unfolding implements_points small_arith ssa_ops ops sign to_bytes neg_ℤ nmul zmul plus3 minus3
signed = refl

sign-assert_as_valid_example :
    assert_as_valid small_ring [] sig (rings_of (first ∷ last ∷ [])) ≡ ok tt
sign-assert_as_valid_example =
    sign-assert_as_valid implements_points digest scalar_of octets_of [] (first ∷ last ∷ [])
      inputs-AreInputs signed

-- A ring with fewer values than keys.
other_shape :
    assert_as_valid small_ring []
      (record { e0 = 23 ∷ []; s = (2 ∷ []) ∷ (0 ∷ 0 ∷ []) ∷ [] })
      (rings_of (first ∷ last ∷ []))
    ≡ err ring_shape
unfolding implements_points small_arith ssa_ops ops assert_as_valid
other_shape = refl

other_value :
    assert_as_valid small_ring []
      (record { e0 = 25 ∷ []; s = (2 ∷ 0 ∷ []) ∷ (0 ∷ 0 ∷ []) ∷ [] })
      (rings_of (first ∷ last ∷ []))
    ≡ err failed_verification
unfolding implements_points small_arith ssa_ops ops assert_as_valid to_bytes neg_ℤ nmul zmul plus3
    minus3
other_value = refl

-- A signature of two rings on secp256k1, with an e0 of sha256.
abbrev wide_sig : BorromeanSig
wide_sig = record { e0 = to_bytes 32 17; s = ((secp256k1_n - 1) ∷ 2 ∷ []) ∷ (258 ∷ []) ∷ [] }

abbrev wide_octets : List ℕ
wide_octets = to_bytes 32 17 ++ to_bytes 32 (secp256k1_n - 1) ++ to_bytes 32 2 ++ to_bytes 32 258

serialized : serialize secp256k1_n secp256k1_n_size wide_sig true ≡ ok wide_octets
unfolding serialize to_bytes
serialized = refl

parse-serialize_back_example : parse wide_octets (2 ∷ 1 ∷ []) true ≡ ok wide_sig
parse-serialize_back_example =
    parse-serialize_back wide_sig wide_octets (length-to_bytes 32 17) serialized

trailing : parse wide_octets (2 ∷ []) true ≡ err trailing_bytes
unfolding parse from_bytes to_bytes
trailing = refl

-- What a curve with scalars of one octet serializes is not read back.
another_curve : serialize 3 1 sig true ≡ ok (23 ∷ 2 ∷ 0 ∷ 0 ∷ 0 ∷ [])
unfolding serialize to_bytes
another_curve = refl

refused : parse (23 ∷ 2 ∷ 0 ∷ 0 ∷ 0 ∷ []) (2 ∷ 2 ∷ []) true ≡ err not_enough_data
unfolding parse
refused = refl
