-- ===== src/Ecdsa/Der.antt =====
-- ecc/dsa.py: the DER encoding of a signature. A stream is the list of its bytes that are not yet
-- read, and what reads from it returns what is left.
pub mod Scalar
pub mod Value
pub mod Sequence
pub mod Content
pub mod RoundTrip
use ellipticcurves.Prelude.{
  ℕ, zero, suc, ◌+◌, ◌/◌, Bool, true, false, List, [], ◌∷◌, ◌++◌, length, take, drop, ltb, leb,
  ◌==◌, not, ◌&&◌, if◌then◌else◌,
}
use ellipticcurves.Prelude.Bytes.{bit_length, to_bytes, from_bytes, from_bytes_little}
use ellipticcurves.Prelude.Result.{
  Result, ok, err, refuse, ◌>>=◌, ◌>>◌, not_enough_data, long_form, non_canonical_length,
  length_too_big, zero_size, value_too_short, bad_header, bad_padding, negative_scalar,
  sequence_too_long, sequence_length, trailing_bytes,
}
use ellipticcurves.Ecdsa.{SigCurve, Sig, checked}

-- `0x80 | k` is the sum, for the `k` below 128 of every length that the source writes.
unfoldable pub der_length : ℕ → List ℕ
der_length n =
    let length_bytes = to_bytes ((bit_length n + 7) / 8) n in
    if ltb n 128 then n ∷ [] else (128 + length length_bytes) ∷ length_bytes

unfoldable pub serialize_scalar : ℕ → List ℕ
unfolding der_length
serialize_scalar scalar =
    let scalar_bytes = to_bytes (bit_length scalar / 8 + 1) scalar in
    2 ∷ (der_length (length scalar_bytes) ++ scalar_bytes)

unfoldable pub serialize : SigCurve → Sig → Bool → Result (List ℕ)
unfolding serialize_scalar der_length
serialize ec sig check_validity = do
  checked ec sig check_validity
  let out = serialize_scalar sig.r ++ serialize_scalar sig.s
  ok (48 ∷ (der_length (length out) ++ out))

-- A size of `width` octets, at least `minimum`.
unfoldable pub wide_size : ℕ → ℕ → List ℕ → Result (ℕ × List ℕ)
wide_size width minimum stream = do
  let data_read = take width stream
  refuse (not (length data_read == width)) not_enough_data
  let size = from_bytes_little data_read
  refuse (ltb size minimum) non_canonical_length
  ok (size, drop width stream)

-- `_WIDE_SIZE_PREFIXES`
unfoldable pub size_after_prefix : ℕ → List ℕ → Result (ℕ × List ℕ)
unfolding wide_size
size_after_prefix prefix stream =
    if prefix == 253
    then wide_size 2 253 stream
    else if prefix == 254
    then wide_size 4 65536 stream
    else if prefix == 255
    then wide_size 8 4294967296 stream
    else ok (prefix, stream)

unfoldable pub parse_der_size : List ℕ → Bool → Result (ℕ × List ℕ)
unfolding size_after_prefix
parse_der_size [] strict = err not_enough_data
parse_der_size (prefix ∷ stream) strict = do
  refuse (strict && leb 128 prefix) long_form
  sized ← size_after_prefix prefix stream
  refuse (ltb 33554432 sized.0) length_too_big
  ok sized

unfoldable pub parse_der_value : List ℕ → Bool → Result (List ℕ × List ℕ)
unfolding parse_der_size
parse_der_value stream strict = do
  sized ← parse_der_size stream strict
  refuse (sized.0 == 0) zero_size
  let value = take sized.0 sized.1
  refuse (not (length value == sized.0)) value_too_short
  ok (value, drop sized.0 sized.1)

-- The two refusals under `if strict`, of octets that are not empty.
unfoldable pub strict_scalar : List ℕ → Result (Unit {0})
strict_scalar [] = ok tt
strict_scalar (b ∷ []) = refuse (leb 128 b) negative_scalar
strict_scalar (b ∷ c ∷ bs) = do
  refuse (b == 0 && ltb c 128) bad_padding
  refuse (leb 128 b) negative_scalar

unfoldable pub deserialize_scalar : List ℕ → Bool → Result (ℕ × List ℕ)
unfolding parse_der_value strict_scalar
deserialize_scalar [] strict = err bad_header
deserialize_scalar (marker ∷ stream) strict = do
  refuse (not (marker == 2)) bad_header
  scalar_bytes ← parse_der_value stream strict
  (if strict then strict_scalar scalar_bytes.0 else ok tt)
  ok (from_bytes scalar_bytes.0, scalar_bytes.1)

-- `stream.read(1) != b""`
abbrev pub has_more : List ℕ → Bool
has_more [] = false
has_more (b ∷ bs) = true

-- The sequence's content: two scalars and nothing else.
unfoldable pub parse_scalars : List ℕ → Bool → Result Sig
unfolding deserialize_scalar
parse_scalars sig_data strict = do
  r ← deserialize_scalar sig_data strict
  s ← deserialize_scalar r.1 strict
  refuse (has_more s.1) sequence_length
  ok (record { r = r.0; s = s.0 })

-- `ec` is `secp256k1`.
unfoldable pub parse : SigCurve → List ℕ → Bool → Bool → Result Sig
unfolding parse_der_value parse_scalars
parse ec [] check_validity strict = err bad_header
parse ec (marker ∷ stream) check_validity strict = do
  refuse (not (marker == 48)) bad_header
  sig_data ← parse_der_value stream strict
  refuse (strict && ltb 70 (length sig_data.0)) sequence_too_long
  sig ← parse_scalars sig_data.0 strict
  refuse (strict && has_more sig_data.1) trailing_bytes
  checked ec sig check_validity
  ok sig
