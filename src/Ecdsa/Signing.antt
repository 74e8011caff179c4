-- ===== src/Ecdsa/Signing.antt =====
-- ecc/dsa.py: signing, verification, the recovery of the public key and of a key whose nonce was
-- used twice, over the operations of a curve.
pub mod Interface
pub mod Modular
pub mod Verify
pub mod Correct
pub mod Spec
pub mod Recover
pub mod RoundTrip
pub mod Crack
pub mod Keys
pub mod Grind
use ellipticcurves.Prelude.{
  ℕ, zero, suc, List, [], ◌∷◌, reverse, Option, none, some, ◌+◌, ◌-◌, ◌*◌, ◌/◌, ◌%◌, Bool, true,
  false, ltb, ◌==◌, not, ◌&&◌, if◌then◌else◌,
}
use ellipticcurves.Prelude.Bytes.{bit_length, to_bytes}
use ellipticcurves.Prelude.Int.{pos, neg_ℤ, mod_ℤ, ◌*ℤ◌, ◌-ℤ◌}
use ellipticcurves.Prelude.Result.{
  Result, ok, err, refuse, ◌>>=◌, ◌>>◌, zero_r, zero_s, high_s, infinite_key, failed_verification,
  not_a_field_element, not_in_subgroup, not_the_same_curve, not_the_same_r, identical_signatures,
}
use ellipticcurves.NumberTheory.{mod_inv, mod_inv_var}
use ellipticcurves.Curve.{JacPoint, Point}
use ellipticcurves.Ecdsa.{SigCurve, Sig, assert_valid}

-- What ecc/dsa.py calls of its curve: `mult_gen` is `mult(m, ec=ec)`, `double_mult` is
-- `_jac_double_mult_var`, `y_even` is `_y_even_var` and `mult_jac` is `_mult_jac_var`.
pub record EcOps : Type 0 where
  pub n : ℕ
  pub p : ℕ
  pub cofactor : ℕ
  pub gen : JacPoint
  pub mult_gen : ℕ → Point
  pub double_mult : ℕ → JacPoint → ℕ → JacPoint → JacPoint
  pub mult_jac : ℕ → JacPoint → JacPoint
  pub y_even : ℕ → Result ℕ

-- `key_id ^ 1`
abbrev pub flip_low_bit : ℕ → ℕ
flip_low_bit k = k + 1 - 2 * (k % 2)

-- `b` is the blinding factor of `mod_inv`.
unfoldable pub sign_recoverable : ℕ → ℕ → ℕ → ℕ → Bool → EcOps → Result (Sig × ℕ)
sign_recoverable b c q nonce lower_s ec = do
  let K = ec.mult_gen nonce
  let r = K.x % ec.n
  refuse (r == 0) zero_r
  inverse ← mod_inv b (pos nonce) (pos ec.n)
  let s = inverse * (c + r * q) % ec.n
  refuse (s == 0) zero_s
  let key_id = 2 * (K.x / ec.n) + K.y % 2
  ok (
      if lower_s && ltb (ec.n / 2) s
      then (record { r = r; s = ec.n - s }, flip_low_bit key_id)
      else (record { r = r; s = s }, key_id))

unfoldable pub assert_as_valid : ℕ → JacPoint → Sig → EcOps → Bool → Result (Unit {0})
assert_as_valid c QJ sig ec lower_s = do
  refuse (lower_s && ltb (ec.n / 2) sig.s) high_s
  w ← mod_inv_var (pos sig.s) (pos ec.n)
  let KJ = ec.double_mult (sig.r * w % ec.n) QJ (c * w % ec.n) ec.gen
  refuse (KJ.z == 0) infinite_key
  inverse ← mod_inv_var (pos (KJ.z * KJ.z)) (pos ec.p)
  refuse (not (sig.r == KJ.x * inverse % ec.p % ec.n)) failed_verification

-- The x-coordinate that a `key_id` names.
unfoldable pub candidate_x : ℕ → ℕ → EcOps → Result ℕ
candidate_x key_id r ec =
    let x_K = r + key_id / 2 * ec.n in
    if ec.cofactor == 1
    then (refuse (not (ltb x_K ec.p)) not_a_field_element >>= λ _. ok x_K)
    else ok (x_K % ec.p)

-- `key_id` is not negative.
unfoldable pub recover_pub_key : ℕ → ℕ → Sig → EcOps → Bool → Result JacPoint
unfolding candidate_x assert_as_valid
recover_pub_key key_id c sig ec lower_s = do
  refuse (lower_s && ltb (ec.n / 2) sig.s) high_s
  x_K ← candidate_x key_id sig.r ec
  r_1 ← mod_inv_var (pos sig.r) (pos ec.n)
  y ← ec.y_even x_K
  let y_K = if key_id % 2 == 0 then y else ec.p - y
  let KJ : JacPoint = record { x = x_K; y = y_K; z = 1 }
  refuse (not (ec.cofactor == 1) && not ((ec.mult_jac ec.n KJ).z == 0)) not_in_subgroup
  let QJ = ec.double_mult (r_1 * sig.s % ec.n) KJ (mod_ℤ (neg_ℤ (pos r_1) *ℤ pos c) ec.n) ec.gen
  refuse (QJ.z == 0) infinite_key
  (if ec.cofactor == 1 then ok tt else assert_as_valid c QJ sig ec false)
  ok QJ

-- A candidate that raises is left out.
unfoldable pub add_key : Result JacPoint → List JacPoint → List JacPoint
add_key (err e) keys = keys
add_key (ok QJ) keys = QJ ∷ keys

-- `count` candidates, from `key_id` on.
unfoldable pub collect_keys : (ℕ → Result JacPoint) → ℕ → ℕ → List JacPoint
unfolding add_key
collect_keys recover zero key_id = []
collect_keys recover (suc count) key_id =
    add_key (recover key_id) (collect_keys recover count (suc key_id))

unfoldable pub recover_pub_keys : ℕ → Sig → EcOps → Bool → List JacPoint
unfolding collect_keys recover_pub_key
recover_pub_keys c sig ec lower_s =
    collect_keys (λ key_id. recover_pub_key key_id c sig ec lower_s) (2 * (ec.cofactor + 1)) 0

-- `bit_length(n)` is at most `8 * n_size`.
unfoldable pub is_low_r : ℕ → ℕ → Bool
is_low_r n_size r = ltb (bit_length r) (8 * n_size)

-- `None`, or the counter as 32 little-endian octets.
unfoldable pub grind_entropy : ℕ → Option (List ℕ)
grind_entropy zero = none
grind_entropy (suc counter) = some (reverse (to_bytes 32 (suc counter)))

-- `while not _is_low_r(sig.r, ec)`, on fuel: there is no cap in the code, and `none` is a loop that
-- has not ended.
unfoldable pub grind_loop : ℕ → (ℕ → Result Sig) → ℕ → ℕ → Sig → Result (Option Sig)
grind_loop zero attempt n_size counter sig = ok (if is_low_r n_size sig.r then some sig else none)
grind_loop (suc fuel) attempt n_size counter sig =
    let rest = attempt (suc counter) >>= grind_loop fuel attempt n_size (suc counter) in
    if is_low_r n_size sig.r then ok (some sig) else rest

unfoldable pub grind_low_r : ℕ → (ℕ → Result Sig) → Bool → ℕ → Result (Option Sig)
unfolding grind_loop
grind_low_r fuel attempt grind n_size =
    attempt 0 >>= λ sig. if grind then grind_loop fuel attempt n_size 0 sig else ok (some sig)

-- The parameters that define the curve of a signature, as `_eq_key` lists them.
pub record CurveKey : Type 0 where
  pub ec : SigCurve
  pub a : ℕ
  pub b : ℕ
  pub gen : Point
  pub cofactor : ℕ

-- `__eq__`, the comparison of the two `_eq_key`s.
unfoldable pub same_curve : CurveKey → CurveKey → Bool
same_curve curve1 curve =
    curve1.ec.p == curve.ec.p
    && curve1.a == curve.a
    && curve1.b == curve.b
    && curve1.gen.x == curve.gen.x
    && curve1.gen.y == curve.gen.y
    && curve1.ec.n == curve.ec.n
    && curve1.cofactor == curve.cofactor

-- The key and the nonce, from two `Sig`s on the curves `curve1` and `curve`, whose challenges are
-- `c_1` and `c_2`.
unfoldable pub crack_prv_key_var : ℕ → CurveKey → Sig → ℕ → CurveKey → Sig → Result (ℕ × ℕ)
unfolding same_curve
crack_prv_key_var c_1 curve1 sig1 c_2 curve sig2 = do
  assert_valid curve1.ec sig1
  assert_valid curve.ec sig2
  let n = curve.ec.n
  refuse (not (same_curve curve1 curve)) not_the_same_curve
  refuse (not (sig1.r == sig2.r)) not_the_same_r
  refuse (sig1.s == sig2.s) identical_signatures
  inverse ← mod_inv_var (pos sig1.s -ℤ pos sig2.s) (pos n)
  let nonce = mod_ℤ ((pos c_1 -ℤ pos c_2) *ℤ pos inverse) n
  r_1 ← mod_inv_var (pos sig1.r) (pos n)
  ok (mod_ℤ ((pos (sig2.s * nonce) -ℤ pos c_2) *ℤ pos r_1) n, nonce)
