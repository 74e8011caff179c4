-- ===== src/Dleq.antt =====
-- ecc/dleq.py on points and scalars: a proof that two points are the same multiple of two bases.
pub mod Correct
pub mod Spec
use ellipticcurves.Prelude.{
  ℕ, ◌+◌, ◌*◌, ◌%◌, Bool, true, false, List, [], ◌∷◌, ltb, ◌==◌, not, ◌&&◌, ◌||◌,
}
use ellipticcurves.Prelude.Int.{pos, neg_ℤ}
use ellipticcurves.Prelude.Result.{
  Result, ok, err, refuse, ◌>>=◌, ◌>>◌, no_octets, prv_key_range, no_public_key, zero_nonce,
  implausible, s_not_in_range, infinite_r1, infinite_r2, invalid_challenge,
}
use ellipticcurves.Curve.{Point}
use ellipticcurves.Points.{PointArith}

-- `nonce_hash aux a A C msg` and `challenge_hash points msg` are the integers of the tagged hashes,
-- of the octets of the points.
pub record DleqOps (Aux Msg : Type 0) : Type 0 where
  pub points : PointArith
  pub n : ℕ
  pub nonce_hash : Aux → ℕ → Point → Point → Msg → ℕ
  pub challenge_hash : List Point → Msg → ℕ

pub record Proof : Type 0 where
  pub e : ℕ
  pub s : ℕ

-- `bytes_from_point` has no octets for infinity.
abbrev pub some_infinite : List Point → Bool
some_infinite [] = false
some_infinite (P ∷ points) = P.y == 0 || some_infinite points

module _ {Aux Msg : Type 0} (dleq : DleqOps Aux Msg) where
  open dleq use {points, n}

  -- `_challenge`
  unfoldable pub challenge : Point → Point → Point → Point → Point → Point → Msg → Result ℕ
  challenge A B C R_1 R_2 G msg = do
    refuse (some_infinite (A ∷ B ∷ C ∷ G ∷ R_1 ∷ R_2 ∷ [])) no_octets
    ok (dleq.challenge_hash (A ∷ B ∷ C ∷ G ∷ R_1 ∷ R_2 ∷ []) msg)

  -- The points are points of the curve.
  unfoldable pub assert_proof_as_valid :
      Point → Point → Point → Proof → Point → Msg → Result (Unit {0})
  unfolding challenge
  assert_proof_as_valid A B C proof G msg = do
    refuse (some_infinite (A ∷ B ∷ C ∷ G ∷ [])) no_public_key
    refuse (not (ltb proof.s n)) s_not_in_range
    let R_1 = points.double_mult (pos proof.s) G (neg_ℤ (pos proof.e)) A
    refuse (R_1.y == 0) infinite_r1
    let R_2 = points.double_mult (pos proof.s) B (neg_ℤ (pos proof.e)) C
    refuse (R_2.y == 0) infinite_r2
    e ← challenge A B C R_1 R_2 G msg
    refuse (not (proof.e == e)) invalid_challenge

  -- A proof of another shape is not a value of the record.
  abbrev pub verify_proof : Point → Point → Point → Proof → Point → Msg → Bool
  verify_proof A B C proof G msg = elim (assert_proof_as_valid A B C proof G msg) [
    | ok _ ↦ true
    | err raised ↦ false
  ]

  unfoldable pub generate_proof : ℕ → Point → Aux → Point → Msg → Result Proof
  unfolding assert_proof_as_valid challenge
  generate_proof a B aux G msg = do
    refuse (not (ltb 0 a && ltb a n)) prv_key_range
    refuse (some_infinite (B ∷ G ∷ [])) no_public_key
    let A = points.mult a G
    let C = points.mult a B
    refuse (some_infinite (A ∷ C ∷ [])) no_octets
    let k = dleq.nonce_hash aux a A C msg % n
    refuse (k == 0) zero_nonce
    e ← challenge A B C (points.mult k G) (points.mult k B) G msg
    let proof : Proof = record { e = e; s = (k + e * a) % n }
    refuse (not (verify_proof A B C proof G msg)) implausible
    ok proof
