-- ===== src/Ecdsa.antt =====
-- ecc/dsa.py: the signature, its validation and its fixed-size form.
pub mod Der
pub mod Validity
pub mod Signing
use ellipticcurves.Prelude.{
  ℕ, zero, suc, ◌+◌, ◌*◌, ◌/◌, Bool, true, false, List, [], ◌∷◌, ◌++◌, take, drop, ltb, not, ◌&&◌,
  if◌then◌else◌,
}
use ellipticcurves.Prelude.Bytes.{bit_length, to_bytes, from_bytes}
use ellipticcurves.Prelude.Result.{
  Result, ok, refuse, ◌>>=◌, ◌>>◌, r_not_in_range, no_such_x, s_not_in_range,
}

-- What `Sig` reads of its curve: the order `n` of the generator, the modulus `p` and
-- `_is_x_coordinate_var`.
pub record SigCurve : Type 0 where
  pub n : ℕ
  pub p : ℕ
  pub is_x_coordinate : ℕ → Bool

-- The curve of a `Sig` is passed beside it.
pub record Sig : Type 0 where
  pub r : ℕ
  pub s : ℕ

-- `while congruence_not_found and r < self.ec.p`, on fuel
unfoldable pub congruence_loop : ℕ → SigCurve → ℕ → Bool
congruence_loop zero ec r = false
congruence_loop (suc fuel) ec r =
    let rest = congruence_loop fuel ec (r + ec.n) in
    if ltb r ec.p then (if ec.is_x_coordinate r then true else rest) else false

-- The candidates grow by `n`, so for a positive `n` the fuel `p` is enough.
unfoldable pub congruence_found : SigCurve → ℕ → Bool
unfolding congruence_loop
congruence_found ec r = congruence_loop ec.p ec r

unfoldable pub assert_valid : SigCurve → Sig → Result (Unit {0})
assert_valid ec sig = do
  refuse (not (ltb 0 sig.r && ltb sig.r ec.n)) r_not_in_range
  refuse (not (congruence_found ec sig.r)) no_such_x
  refuse (not (ltb 0 sig.s && ltb sig.s ec.n)) s_not_in_range

-- `if check_validity: self.assert_valid()`
unfoldable pub checked : SigCurve → Sig → Bool → Result (Unit {0})
checked ec sig check_validity = if check_validity then assert_valid ec sig else ok tt

unfoldable pub n_size : SigCurve → ℕ
n_size ec = (bit_length ec.n + 7) / 8

unfoldable pub compact : SigCurve → Sig → List ℕ
unfolding n_size
compact ec sig = to_bytes (n_size ec) sig.r ++ to_bytes (n_size ec) sig.s

unfoldable pub sig_from_compact : List ℕ → SigCurve → Sig
unfolding n_size
sig_from_compact octets ec = record {
  r = from_bytes (take (n_size ec) octets);
  s = from_bytes (drop (n_size ec) octets);
}
