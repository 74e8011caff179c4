-- ===== src/Ecdsa/Signing/Grind.antt =====
-- ecc/dsa.py: `_grind_low_r` returns the first signature whose r is low, and such an r saves an octet.
use ellipticcurves.Prelude.{
  ℕ, zero, suc, ◌+◌, ◌*◌, ◌<◌, ◌≤◌, ◌≡◌, ap, ◌∙◌, arith, true, false, ltb→lt, none, some, length,
  dec_lt, if◌then◌else◌,
}
use ellipticcurves.Prelude.Bytes.{bit_length}
use ellipticcurves.Prelude.Result.{Result, ok, ◌>>=◌}
use ellipticcurves.Ecdsa.{Sig}
use ellipticcurves.Ecdsa.Der.{serialize_scalar}
use ellipticcurves.Ecdsa.Der.Value.{length-serialize_scalar}
use ellipticcurves.Ecdsa.Signing.{is_low_r, grind_loop, grind_low_r}

-- The attempt of number `m` is the first one whose r is low.
pub record IsFirstLow (n_size : ℕ) (drawn : ℕ → Sig) (m : ℕ) : Type 0 where
  pub low : is_low_r n_size (drawn m).r ≡ true
  pub before : (i : ℕ) → i < m → is_low_r n_size (drawn i).r ≡ false

grind_loop_first :
    (attempt : ℕ → Result Sig) (drawn : ℕ → Sig) (n_size m fuel counter : ℕ)
    → ((i : ℕ) → attempt i ≡ ok (drawn i))
    → IsFirstLow n_size drawn m
    → counter ≤ m
    → m ≤ counter + fuel
    → grind_loop fuel attempt n_size counter (drawn counter) ≡ ok (some (drawn m))
unfolding grind_loop
grind_loop_first attempt drawn n_size m zero counter e f h l =
    let same : counter ≡ m = omega arith in
    ap (λ k. ok (if is_low_r n_size (drawn k).r then some (drawn k) else none)) same
    ∙ ap (λ t. ok (if t then some (drawn m) else none)) f.low
grind_loop_first attempt drawn n_size m (suc fuel) counter e f h l = elim (dec_lt counter m) [
  | yes c ↦
      rw (f.before counter c, e (suc counter))
        (grind_loop_first attempt drawn n_size m fuel (suc counter) e f c (omega arith))
  | no c ↦
      let same : counter ≡ m = omega arith in
      rw (ap (λ k. is_low_r n_size (drawn k).r) same ∙ f.low) (ap (λ k. ok (some (drawn k))) same)
]

-- When every attempt returns a signature and the attempt of number m is the first one whose r
-- is low, _grind_low_r ends within m rounds and returns the signature of that attempt.
pub grind_low_r_lem :
    (attempt : ℕ → Result Sig) (drawn : ℕ → Sig) (n_size m fuel : ℕ)
    → ((i : ℕ) → attempt i ≡ ok (drawn i))
    → IsFirstLow n_size drawn m
    → m ≤ fuel
    → grind_low_r fuel attempt true n_size ≡ ok (some (drawn m))
unfolding grind_low_r
grind_low_r_lem attempt drawn n_size m fuel e f l =
    ap (λ r. r >>= grind_loop fuel attempt n_size 0) (e 0)
    ∙ grind_loop_first attempt drawn n_size m fuel 0 e f (omega arith) (omega arith)

-- For scalars of fewer than 127 octets, the DER encoding of an r that is low takes at most two
-- octets more than n_size.
pub is_low_r-length :
    (n_size r : ℕ)
    → n_size < 127
    → is_low_r n_size r ≡ true
    → length (serialize_scalar r) ≤ n_size + 2
unfolding is_low_r
is_low_r-length n_size r h e =
    let l : bit_length r < 8 * n_size = ltb→lt (bit_length r) (8 * n_size) e in
    omega (arith, length-serialize_scalar r (omega arith))
