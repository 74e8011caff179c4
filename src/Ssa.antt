-- ===== src/Ssa.antt =====
-- ecc/ssa.py: BIP340 signatures, their encoding, signing, verification and the recovery of the key.
pub mod Interface
pub mod Verify
pub mod Correct
pub mod RoundTrip
pub mod Batch
use ellipticcurves.Prelude.{
  ℕ, ◌+◌, ◌-◌, ◌*◌, ◌%◌, Bool, List, length, ◌++◌, take, drop, ltb, ◌==◌, not, if◌then◌else◌,
}
use ellipticcurves.Prelude.Bytes.{to_bytes, from_bytes}
use ellipticcurves.Prelude.Int.{pos}
use ellipticcurves.Prelude.Result.{
  Result, ok, refuse, ◌>>=◌, ◌>>◌, not_an_x_coordinate, s_not_in_range, decoded_length,
  trailing_bytes, zero_challenge, odd_y, failed_verification, infinite_key,
}
use ellipticcurves.NumberTheory.{mod_inv_var}
use ellipticcurves.Curve.{JacPoint}
use ellipticcurves.Ecdsa.Der.{has_more}
use ellipticcurves.Ecdsa.Signing.{EcOps}

-- What ecc/ssa.py calls of its curve besides what ecc/dsa.py does: the sizes of a field element and
-- of a scalar, `_is_x_coordinate_var`, `x_aff_from_jac_var`, `y_aff_from_jac_var` and
-- `_y_even_in_subgroup_var`.
pub record SsaOps : Type 0 where
  pub ec : EcOps
  pub p_size : ℕ
  pub n_size : ℕ
  pub is_x_coordinate : ℕ → Bool
  pub x_aff : JacPoint → Result ℕ
  pub y_aff : JacPoint → Result ℕ
  pub y_even_in_subgroup : ℕ → Result ℕ

pub record Sig : Type 0 where
  pub r : ℕ
  pub s : ℕ

unfoldable pub assert_valid : SsaOps → Sig → Result (Unit {0})
assert_valid ops sig = do
  refuse (not (ops.is_x_coordinate sig.r)) not_an_x_coordinate
  refuse (not (ltb sig.s ops.ec.n)) s_not_in_range

-- `if check_validity: self.assert_valid()`
unfoldable pub checked : SsaOps → Sig → Bool → Result (Unit {0})
checked ops sig check_validity = if check_validity then assert_valid ops sig else ok tt

unfoldable pub serialize : SsaOps → Sig → Bool → Result (List ℕ)
serialize ops sig check_validity = do
  checked ops sig check_validity
  ok (to_bytes ops.p_size sig.r ++ to_bytes ops.n_size sig.s)

-- `ops` are those of `secp256k1`.
unfoldable pub parse : SsaOps → List ℕ → Bool → Result Sig
parse ops octets check_validity = do
  let sig_bin = take 64 octets
  refuse (not (length sig_bin == 64)) decoded_length
  refuse (has_more (drop 64 octets)) trailing_bytes
  let sig : Sig = record {
    r = from_bytes (take ops.p_size sig_bin);
    s = from_bytes (drop ops.p_size sig_bin);
  }
  checked ops sig check_validity
  ok sig

unfoldable pub sign : ℕ → ℕ → ℕ → ℕ → SsaOps → Result Sig
sign c q nonce r ops = do
  refuse (c == 0) zero_challenge
  let sig : Sig = record { r = r; s = (nonce + c * q) % ops.ec.n }
  assert_valid ops sig
  ok sig

unfoldable pub assert_as_valid : ℕ → JacPoint → Sig → SsaOps → Result (Unit {0})
assert_as_valid c QJ sig ops = do
  let KJ = ops.ec.double_mult (ops.ec.n - c) QJ sig.s ops.ec.gen
  y ← ops.y_aff KJ
  refuse (not (y % 2 == 0)) odd_y
  refuse (not (KJ.x == KJ.z * KJ.z * sig.r % ops.ec.p)) failed_verification

unfoldable pub recover_pub_key : ℕ → Sig → SsaOps → Result ℕ
recover_pub_key c sig ops = do
  refuse (c == 0) zero_challenge
  y ← ops.y_even_in_subgroup sig.r
  let KJ : JacPoint = record { x = sig.r; y = y; z = 1 }
  e1 ← mod_inv_var (pos c) (pos ops.ec.n)
  let QJ = ops.ec.double_mult (ops.ec.n - e1) KJ (e1 * sig.s) ops.ec.gen
  refuse (QJ.z == 0) infinite_key
  ops.x_aff QJ
