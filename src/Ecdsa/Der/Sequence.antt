-- ===== src/Ecdsa/Der/Sequence.antt =====
-- ecc/dsa.py: the two scalars inside the sequence, written and read.
use native.Mathlib.Nat
use ellipticcurves.Prelude.{
  ℕ, zero, suc, ◌/◌, ◌^◌, ◌<◌, ◌≤◌, ◌≡◌, refl, sym, ap, ◌∙◌, subst, arith, Bool, true, false, List,
  [], ◌∷◌, ◌++◌, append-nil, dec_lt,
}
use ellipticcurves.Prelude.Bytes.{bit_length, AreBytes, AreBytes-parts}
use ellipticcurves.Prelude.Result.{
  Result, ok, refuse, ◌>>=◌, ◌>>◌, >>=-ok, ok_inj, refuse-ok, sequence_length,
}
use ellipticcurves.Ecdsa.{Sig}
use ellipticcurves.Ecdsa.Der.{serialize_scalar, deserialize_scalar, has_more, parse_scalars}
use ellipticcurves.Ecdsa.Der.Scalar.{Fits, bit_length-Fits}
use ellipticcurves.Ecdsa.Der.Value.{deserialize_scalar-serialize_scalar, deserialize_scalar_strict}

-- A scalar below 2 ^ 256 takes at most 33 octets.
pub scalar_size : (x : ℕ) → x < 2 ^ 256 → bit_length x / 8 ≤ 32
scalar_size x h = size_of (bit_length x / 8) x (bit_length-Fits x) h
  where
    size_of : (k v : ℕ) → Fits k v → v < 2 ^ 256 → k ≤ 32
    size_of zero v f h = omega arith
    size_of (suc k) v f h = elim (dec_lt k 32) [
      | yes l ↦ l
      | no m ↦ absurd (
          omega (
            arith,
            f.0,
            Nat.pow-le-pow_right {n = 256} (omega arith) {i = 32} {j = k} (omega arith),
          ))
    ]

-- The content of the sequence.
unfoldable pub body : Sig → List ℕ
body sig = serialize_scalar sig.r ++ serialize_scalar sig.s

scalars_end : ℕ → ℕ × List ℕ → Result Sig
scalars_end r s = do refuse (has_more s.1) sequence_length; ok (record { r = r; s = s.0 })

scalars_rest : Bool → ℕ × List ℕ → Result Sig
scalars_rest strict r = deserialize_scalar r.1 strict >>= scalars_end r.0

parse_scalars_steps :
    (stream : List ℕ) (strict : Bool)
    → parse_scalars stream strict ≡ (deserialize_scalar stream strict >>= scalars_rest strict)
unfolding parse_scalars scalars_rest scalars_end
parse_scalars_steps stream strict = refl

pub parse_scalars-body :
    (sig : Sig) (strict : Bool)
    → bit_length sig.r / 8 < 127
    → bit_length sig.s / 8 < 127
    → parse_scalars (body sig) strict ≡ ok sig
unfolding body scalars_rest scalars_end
parse_scalars-body sig strict hr hs =
    parse_scalars_steps (body sig) strict
    ∙ ap (λ r. r >>= scalars_rest strict)
        (deserialize_scalar-serialize_scalar sig.r (serialize_scalar sig.s) strict hr)
    ∙ ap (λ s. s >>= scalars_end sig.r)
        (ap (λ st. deserialize_scalar st strict) (sym (append-nil (serialize_scalar sig.s)))
          ∙ deserialize_scalar-serialize_scalar sig.s [] strict hs)

pub no_more : (stream : List ℕ) → has_more stream ≡ false → stream ≡ []
no_more [] e = refl
no_more (b ∷ bs) e = cc

pub parse_scalars_strict :
    (stream : List ℕ) {sig : Sig}
    → AreBytes stream
    → parse_scalars stream true ≡ ok sig
    → (stream ≡ body sig) × (bit_length sig.r / 8 < 127) × (bit_length sig.s / 8 < 127)
unfolding body scalars_rest scalars_end
parse_scalars_strict stream {sig} a e =
    let (r, e1, e2) =
      >>=-ok (deserialize_scalar stream true) (scalars_rest true)
        (sym (parse_scalars_steps stream true) ∙ e) in
    let (s, e3, e4) = >>=-ok (deserialize_scalar r.1 true) (scalars_end r.0) e2 in
    let (n, e5) = refuse-ok (has_more s.1) sequence_length _ e4 in
    let (p, hr) = deserialize_scalar_strict stream a e1 in
    let rest = (AreBytes-parts (serialize_scalar r.0) r.1 (subst AreBytes p a)).1 in
    let (q, hs) = deserialize_scalar_strict r.1 rest e3 in
    let last : r.1 ≡ serialize_scalar s.0 =
      q
      ∙ ap (λ st. serialize_scalar s.0 ++ st) (no_more s.1 n)
      ∙ append-nil (serialize_scalar s.0) in
    let m = ok_inj e5 in
    (
      p ∙ ap (λ st. serialize_scalar r.0 ++ st) last ∙ ap body m,
      subst (λ sig. bit_length sig.r / 8 < 127) m hr,
      subst (λ sig. bit_length sig.s / 8 < 127) m hs,
    )
