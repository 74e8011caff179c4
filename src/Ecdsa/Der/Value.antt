-- ===== src/Ecdsa/Der/Value.antt =====
-- ecc/dsa.py: the sized value of a DER element and the scalar in it, written and read.
use ellipticcurves.Prelude.{
  ℕ, suc, ◌+◌, ◌/◌, ◌<◌, ◌≤◌, ◌≡◌, refl, sym, ap, ap₂, ◌∙◌, subst, ◌^◌, arith, Bool, true, false,
  List, [], ◌∷◌, ◌++◌, length, take, drop, take-append, drop-append, take-append-drop, ◌==◌, not,
  if◌then◌else◌, dec_lt,
}
use ellipticcurves.Prelude.Bytes.{
  bit_length, to_bytes, from_bytes, AreBytes, AreBytes-parts, length-to_bytes, to_bytes-AreBytes,
  from_bytes-to_bytes, to_bytes-from_bytes,
}
use ellipticcurves.Prelude.Result.{
  Result, ok, refuse, ◌>>=◌, ◌>>◌, zero_size, value_too_short, bad_header, >>=-ok, ok_inj,
  refuse-ok,
}
use ellipticcurves.Ecdsa.Der.{
  der_length, serialize_scalar, size_after_prefix, parse_der_size, parse_der_value, strict_scalar,
  deserialize_scalar,
}
use ellipticcurves.Ecdsa.Der.Scalar.{
  Fits, Fits-lt, bit_length-Fits, Fits-unique, strict_scalar-Fits, Fits-strict_scalar,
}

size_short : (k : ℕ) (stream : List ℕ) → k < 128 → size_after_prefix k stream ≡ ok (k, stream)
unfolding size_after_prefix
size_short k stream h = ground arith

parse_size_short :
    (k : ℕ) (stream : List ℕ) (strict : Bool)
    → k < 128
    → parse_der_size (k ∷ stream) strict ≡ ok (k, stream)
unfolding parse_der_size
parse_size_short k stream strict h = ground (arith, size_short k stream h)

-- What `parse_der_value` does once it has the size.
split_value : ℕ → List ℕ → Result (List ℕ × List ℕ)
split_value size stream = do
  refuse (size == 0) zero_size
  refuse (not (length (take size stream) == size)) value_too_short
  ok (take size stream, drop size stream)

value_of_size :
    (stream : List ℕ) (strict : Bool) (size : ℕ) (rest : List ℕ)
    → parse_der_size stream strict ≡ ok (size, rest)
    → parse_der_value stream strict ≡ split_value size rest
unfolding parse_der_value split_value
value_of_size stream strict size rest e = rw e

take_value :
    (size : ℕ) (stream : List ℕ)
    → 0 < size
    → length (take size stream) ≡ size
    → split_value size stream ≡ ok (take size stream, drop size stream)
unfolding split_value
take_value size stream p e = ground arith

pub parse_der_value-short :
    (value rest : List ℕ) (strict : Bool)
    → 0 < length value
    → length value < 128
    → parse_der_value (length value ∷ (value ++ rest)) strict ≡ ok (value, rest)
parse_der_value-short value rest strict p h =
    value_of_size (length value ∷ (value ++ rest)) strict (length value) (value ++ rest)
      (parse_size_short (length value) (value ++ rest) strict h)
    ∙ take_value (length value) (value ++ rest) p (ap length (take-append value rest))
    ∙ ap₂ (λ a b. ok (a, b)) (take-append value rest) (drop-append value rest)

long_refused :
    (k : ℕ) (stream : List ℕ) {sized : ℕ × List ℕ}
    → 128 ≤ k
    → parse_der_size (k ∷ stream) true ≡ ok sized
    → ⊥
unfolding parse_der_size
long_refused k stream h e = ground arith

parse_size_strict :
    (stream : List ℕ) {sized : ℕ × List ℕ}
    → parse_der_size stream true ≡ ok sized
    → (stream ≡ sized.0 ∷ sized.1) × (sized.0 < 128)
unfolding parse_der_size
parse_size_strict [] e = cc
parse_size_strict (k ∷ stream) e = elim (dec_lt k 128) [
  | yes l ↦
      let q = ok_inj (sym (parse_size_short k stream true l) ∙ e) in
      (ap (λ r. r.0 ∷ r.1) q, subst (λ r. r.0 < 128) q l)
  | no m ↦ absurd (long_refused k stream (omega arith) e)
]

split_value_parts :
    (size : ℕ) (stream : List ℕ) {read : List ℕ × List ℕ}
    → split_value size stream ≡ ok read
    → (0 < size) × (length read.0 ≡ size) × (stream ≡ read.0 ++ read.1)
unfolding split_value
split_value_parts size stream {read} e =
    let (a, e1) = refuse-ok (size == 0) zero_size _ e in
    let (b, e2) = refuse-ok (not (length (take size stream) == size)) value_too_short _ e1 in
    let q = ok_inj e2 in
    let l : length (take size stream) ≡ size = ground arith in
    (
      ground arith,
      ap (λ r. length r.0) (sym q) ∙ l,
      sym (take-append-drop size stream) ∙ ap (λ r. r.0 ++ r.1) q,
    )

pub parse_der_value_strict :
    (stream : List ℕ) {read : List ℕ × List ℕ}
    → parse_der_value stream true ≡ ok read
    → (stream ≡ length read.0 ∷ (read.0 ++ read.1)) × (0 < length read.0) × (length read.0 < 128)
unfolding parse_der_value split_value
parse_der_value_strict stream {read} e =
    let (sized, e1, e2) =
      >>=-ok (parse_der_size stream true) (λ sized. split_value sized.0 sized.1) e in
    let (a, b) = parse_size_strict stream e1 in
    let (c, d, f) = split_value_parts sized.0 sized.1 e2 in
    (a ∙ ap₂ (λ k st. k ∷ st) (sym d) f, omega arith, omega arith)

-- The octets of a scalar.
octets : ℕ → List ℕ
octets x = to_bytes (bit_length x / 8 + 1) x

octets_count : (x : ℕ) → length (octets x) ≡ bit_length x / 8 + 1
unfolding octets
octets_count x = length-to_bytes (bit_length x / 8 + 1) x

from_bytes-octets : (x : ℕ) → from_bytes (octets x) ≡ x
unfolding octets
from_bytes-octets x = from_bytes-to_bytes (bit_length x / 8 + 1) x (
    subst (λ k. x < 256 ^ k) {x = suc (bit_length x / 8)} (omega arith)
      (Fits-lt (bit_length x / 8) x (bit_length-Fits x)))

octets_strict : (x : ℕ) → strict_scalar (octets x) ≡ ok tt
unfolding octets
octets_strict x =
    strict_of (octets x) (bit_length x / 8) (to_bytes-AreBytes (bit_length x / 8 + 1) x)
      (octets_count x ∙ omega arith)
      (subst (Fits (bit_length x / 8)) (sym (from_bytes-octets x)) (bit_length-Fits x))
  where
    strict_of :
        (bs : List ℕ) (k : ℕ)
        → AreBytes bs
        → length bs ≡ suc k
        → Fits k (from_bytes bs)
        → strict_scalar bs ≡ ok tt
    strict_of [] k a l f = absurd (omega arith)
    strict_of (b ∷ bs) k a l f =
        Fits-strict_scalar b bs a (subst (λ j. Fits j (from_bytes (b ∷ bs))) (omega arith) f)

pub der_length_short : (n : ℕ) → n < 128 → der_length n ≡ n ∷ []
unfolding der_length
der_length_short n h = ground arith

serialize_scalar_short :
    (x : ℕ) → bit_length x / 8 < 127 → serialize_scalar x ≡ 2 ∷ (length (octets x) ∷ octets x)
unfolding serialize_scalar octets
serialize_scalar_short x h =
    ap (λ l. 2 ∷ (l ++ octets x))
      (der_length_short (length (octets x)) (omega (arith, octets_count x)))

pub length-serialize_scalar :
    (x : ℕ) → bit_length x / 8 < 127 → length (serialize_scalar x) ≡ bit_length x / 8 + 3
length-serialize_scalar x h = omega (arith, ap length (serialize_scalar_short x h), octets_count x)

-- What `deserialize_scalar` does once it has the octets.
scalar_of : Bool → List ℕ × List ℕ → Result (ℕ × List ℕ)
scalar_of strict value = do
  (if strict then strict_scalar value.0 else ok tt)
  ok (from_bytes value.0, value.1)

deserialize_marked :
    (stream : List ℕ) (strict : Bool)
    → deserialize_scalar (2 ∷ stream) strict ≡ (parse_der_value stream strict >>= scalar_of strict)
unfolding deserialize_scalar scalar_of
deserialize_marked stream strict = refl

scalar_of-octets :
    (x : ℕ) (rest : List ℕ) (strict : Bool) → scalar_of strict (octets x, rest) ≡ ok (x, rest)
unfolding scalar_of
scalar_of-octets x rest false = ap (λ v. ok (v, rest)) (from_bytes-octets x)
scalar_of-octets x rest true = rw (octets_strict x, from_bytes-octets x)

pub deserialize_scalar-serialize_scalar :
    (x : ℕ) (rest : List ℕ) (strict : Bool)
    → bit_length x / 8 < 127
    → deserialize_scalar (serialize_scalar x ++ rest) strict ≡ ok (x, rest)
deserialize_scalar-serialize_scalar x rest strict h =
    ap (λ st. deserialize_scalar (st ++ rest) strict) (serialize_scalar_short x h)
    ∙ deserialize_marked (length (octets x) ∷ (octets x ++ rest)) strict
    ∙ ap (λ v. v >>= scalar_of strict)
        (parse_der_value-short (octets x) rest strict (omega (arith, octets_count x))
          (omega (arith, octets_count x)))
    ∙ scalar_of-octets x rest strict

-- The octets that are accepted are those that are written.
strict_octets :
    (bs : List ℕ)
    → AreBytes bs
    → 0 < length bs
    → strict_scalar bs ≡ ok tt
    → bs ≡ octets (from_bytes bs)
unfolding octets
strict_octets [] a p e = absurd (omega arith)
strict_octets (b ∷ bs) a p e =
    let v = from_bytes (b ∷ bs) in
    let size : length bs ≡ bit_length v / 8 =
      Fits-unique (length bs) (bit_length v / 8) v (strict_scalar-Fits b bs a e)
        (bit_length-Fits v) in
    sym (to_bytes-from_bytes (b ∷ bs) a)
    ∙ ap (λ k. to_bytes k v) {x = suc (length bs)} {y = bit_length v / 8 + 1} (omega arith)

scalar_of_strict :
    (value rest : List ℕ) {read : ℕ × List ℕ}
    → scalar_of true (value, rest) ≡ ok read
    → (strict_scalar value ≡ ok tt) × ((from_bytes value, rest) ≡ read)
unfolding scalar_of
scalar_of_strict value rest e =
    let (t, e1, e2) = >>=-ok (strict_scalar value) (λ t. ok (from_bytes value, rest)) e in
    (e1, ok_inj e2)

serialized :
    (value rest : List ℕ) (x : ℕ)
    → value ≡ octets x
    → length value < 128
    → (2 ∷ (length value ∷ (value ++ rest)) ≡ serialize_scalar x ++ rest) × (bit_length x / 8 < 127)
serialized value rest x e l =
    let h : bit_length x / 8 < 127 = omega (arith, ap length e, octets_count x) in
    (
      ap (λ v. 2 ∷ (length v ∷ (v ++ rest))) e
          ∙ ap (λ v. v ++ rest) (sym (serialize_scalar_short x h)),
      h,
    )

marker_is_two :
    (marker : ℕ) (stream : List ℕ) {read : ℕ × List ℕ} (strict : Bool)
    → deserialize_scalar (marker ∷ stream) strict ≡ ok read
    → marker ≡ 2
unfolding deserialize_scalar
marker_is_two marker stream strict e =
    let (t, e1) = refuse-ok (not (marker == 2)) bad_header _ e in ground arith

pub deserialize_scalar_strict :
    (stream : List ℕ) {read : ℕ × List ℕ}
    → AreBytes stream
    → deserialize_scalar stream true ≡ ok read
    → (stream ≡ serialize_scalar read.0 ++ read.1) × (bit_length read.0 / 8 < 127)
deserialize_scalar_strict [] a e = absurd (unfold deserialize_scalar in cc)
deserialize_scalar_strict (marker ∷ stream) {read} a e =
    let m = marker_is_two marker stream true e in
    let (value, e1, e2) = >>=-ok (parse_der_value stream true) (scalar_of true) (
      sym (deserialize_marked stream true)
      ∙ ap (λ k. deserialize_scalar (k ∷ stream) true) (sym m)
      ∙ e) in
    let (b, p, l) = parse_der_value_strict stream e1 in
    let (c, q) = scalar_of_strict value.0 value.1 e2 in
    let bytes : AreBytes value.0 = (AreBytes-parts value.0 value.1 (subst AreBytes b a.1).1).0 in
    let (d, h) =
      serialized value.0 value.1 (from_bytes value.0) (strict_octets value.0 bytes p c) l in
    (
      ap₂ (λ k st. k ∷ st) m b ∙ d ∙ ap (λ r. serialize_scalar r.0 ++ r.1) q,
      subst (λ r. bit_length r.0 / 8 < 127) q h,
    )
