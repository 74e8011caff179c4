-- ===== src/Tests/Dleq.antt =====
-- Proofs of ecc/dleq.py on the curve of SevenOps.
use ellipticcurves.Prelude.{ℕ, ◌%◌, ◌<◌, ◌≡◌, ◌↔◌, refl, arith, List}
use ellipticcurves.Prelude.Int.{neg_ℤ}
use ellipticcurves.Prelude.Result.{ok, err, invalid_challenge}
use ellipticcurves.Curve.{Point}
use ellipticcurves.Curve.Cyclic3.{c1, c2, plus3, minus3}
use ellipticcurves.Group.{nmul, zmul}
use ellipticcurves.Dleq.{Proof, assert_proof_as_valid, generate_proof}
use ellipticcurves.Dleq.Correct.{dleq, generate_proof-accepted}
use ellipticcurves.Dleq.Spec.{Proves, assert_proof_as_valid_iff}
use ellipticcurves.Tests.SevenOps.{ops, small_point}
use ellipticcurves.Tests.SmallPoints.{small_arith, implements_points}
use ellipticcurves.Tests.Ssa.{ssa_ops}

abbrev nonce : ℕ → ℕ → Point → Point → ℕ → ℕ
nonce aux a A C msg = 4

abbrev hash : List Point → ℕ → ℕ
hash points msg = 5

two_below : 2 < ssa_ops.ec.n
unfolding ssa_ops ops
two_below = omega arith

nonce_positive :
    0
    < nonce 7 2 (small_arith.mult 2 (small_point c1)) (small_arith.mult 2 (small_point c2)) 9
      % ssa_ops.ec.n
unfolding ssa_ops ops
nonce_positive = omega arith

generate_proof-accepted_example :
    (proof : Proof) × (generate_proof
        (dleq implements_points nonce hash)
        2
        (small_point c2)
        7
        (small_point c1)
        9
      ≡ ok proof)
    × (assert_proof_as_valid
          (dleq implements_points nonce hash)
          (small_arith.mult 2 (small_point c1))
          (small_point c2)
          (small_arith.mult 2 (small_point c2))
          proof
          (small_point c1)
          9
        ≡ ok tt)
unfolding implements_points
generate_proof-accepted_example =
    generate_proof-accepted implements_points nonce hash 2 c2 c1 7 9 (omega arith) two_below
      (λ e. cc) (λ e. cc) nonce_positive

assert_proof_as_valid_iff_example :
    (assert_proof_as_valid
        (dleq implements_points nonce hash)
        (small_point c2)
        (small_point c2)
        (small_point c1)
        (record { e = 5; s = 2 })
        (small_point c1)
        9
      ≡ ok tt)
    ↔ Proves implements_points nonce hash c2 c2 c1 c1 (record { e = 5; s = 2 }) 9
unfolding implements_points
assert_proof_as_valid_iff_example =
    assert_proof_as_valid_iff implements_points nonce hash c2 c2 c1 c1 (record { e = 5; s = 2 }) 9

generated :
    generate_proof (dleq implements_points nonce hash) 2 (small_point c2) 7 (small_point c1) 9
    ≡ ok (record { e = 5; s = 2 })
unfolding implements_points small_arith ssa_ops ops generate_proof nmul zmul plus3 minus3 neg_ℤ
generated = refl

-- The challenge is compared as it is, and not modulo n.
other_challenge :
    assert_proof_as_valid
      (dleq implements_points nonce hash)
      (small_point c2)
      (small_point c2)
      (small_point c1)
      (record { e = 2; s = 2 })
      (small_point c1)
      9
    ≡ err invalid_challenge
unfolding implements_points small_arith ssa_ops ops assert_proof_as_valid nmul zmul plus3 minus3
    neg_ℤ
other_challenge = refl
