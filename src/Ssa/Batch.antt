-- ===== src/Ssa/Batch.antt =====
-- ecc/ssa.py: the verification of a batch of signatures by one equation.
pub mod Interface
pub mod Term
pub mod Correct
use ellipticcurves.Prelude.{
  ℕ, suc, ◌+◌, ◌*◌, ◌%◌, Bool, List, [], ◌∷◌, length, ◌==◌, ltb, not, ◌&&◌, if◌then◌else◌,
}
use ellipticcurves.Prelude.Result.{
  Result, ok, err, refuse, ◌>>=◌, ◌>>◌, no_signatures, x_not_in_range, mismatch,
  failed_verification,
}
use ellipticcurves.Curve.{JacPoint, Point}
use ellipticcurves.Points.{same_point}
use ellipticcurves.Ssa.{SsaOps, Sig, assert_valid, assert_as_valid}

-- `challenge msg x_Q x_K` is `challenge_`, and `multi_mult` is `multi_mult_var`.
pub record BatchOps (Msg : Type 0) : Type 0 where
  pub ops : SsaOps
  pub challenge : Msg → ℕ → ℕ → Result ℕ
  pub multi_mult : List ℕ → List Point → Result Point

module _ {Msg : Type 0} (batch : BatchOps Msg) where
  open batch use {ops, challenge, multi_mult}

  -- The verification of one signature by the x-coordinate of a key.
  unfoldable pub assert_as_valid_single : Msg → ℕ → Sig → Result (Unit {0})
  assert_as_valid_single msg x_Q sig = do
    assert_valid ops sig
    y_Q ← ops.y_even_in_subgroup x_Q
    c ← challenge msg x_Q sig.r
    assert_as_valid c (record { x = x_Q; y = y_Q; z = 1 }) sig ops

  unfoldable pub assert_each_valid : List Sig → Result (Unit {0})
  assert_each_valid [] = ok tt
  assert_each_valid (sig ∷ sigs) = assert_valid ops sig >> assert_each_valid sigs

  -- `_multi_mult_x_only_var`: the list of its Python arm, each x with its even y, and their sum.
  unfoldable pub even_points : List ℕ → Result (List Point)
  even_points [] = ok []
  even_points (x ∷ x_coords) = do
    y ← ops.ec.y_even x
    points ← even_points x_coords
    ok (record { x = x; y = y } ∷ points)

  unfoldable pub multi_mult_x_only : List ℕ → List ℕ → Result Point
  unfolding even_points
  multi_mult_x_only scalars x_coords = do points ← even_points x_coords; multi_mult scalars points

  -- What the loop adds up: `t`, `scalars` and `x_coords`.
  pub record Terms : Type 0 where
    pub t : ℕ
    pub scalars : List ℕ
    pub x_coords : List ℕ

  abbrev pub add_term : ℕ → ℕ → ℕ → Sig → Terms → Terms
  add_term rand c x_Q sig rest = record {
    t = rand * sig.s + rest.t;
    scalars = rand ∷ (rand * c % ops.ec.n) ∷ rest.scalars;
    x_coords = sig.r ∷ x_Q ∷ rest.x_coords;
  }

  -- The keys and nonce points outside the subgroup are refused where there are any.
  abbrev pub in_subgroup : ℕ → ℕ → Result (Unit {0})
  in_subgroup x_Q r =
      if ltb 1 ops.ec.cofactor
      then (ops.y_even_in_subgroup x_Q >>= λ y. ops.y_even_in_subgroup r >>= λ y. ok tt)
      else ok tt

  -- The range check of `_x_only_bytes`.
  abbrev pub in_field : ℕ → Result (Unit {0})
  in_field x = refuse (not (ltb x ops.ec.p)) x_not_in_range

  -- `rands` are the random coefficients.
  unfoldable pub batch_terms : List ℕ → List Msg → List ℕ → List Sig → Result Terms
  batch_terms (rand ∷ rands) (msg ∷ msgs) (x_Q ∷ Qs) (sig ∷ sigs) =
      in_field x_Q
      >> (in_subgroup x_Q sig.r
          >> (challenge msg x_Q sig.r >>= λ c.
              batch_terms rands msgs Qs sigs >>= λ rest. ok (add_term rand c x_Q sig rest)))
  batch_terms _ _ _ _ = ok (record { t = 0; scalars = []; x_coords = [] })

  unfoldable pub batch_equation : List ℕ → List Msg → List ℕ → List Sig → Result (Unit {0})
  unfolding batch_terms assert_each_valid multi_mult_x_only
  batch_equation rands msgs Qs sigs = do
    assert_each_valid sigs
    terms ← batch_terms rands msgs Qs sigs
    total ← multi_mult_x_only terms.scalars terms.x_coords
    refuse (not (same_point (ops.ec.mult_gen terms.t) total)) failed_verification

  -- The first coefficient is 1, and `rands` are those that are drawn for the others.
  unfoldable pub assert_batch_as_valid : List ℕ → List Msg → List ℕ → List Sig → Result (Unit {0})
  unfolding assert_as_valid_single batch_equation
  assert_batch_as_valid rands msgs [] sigs = err no_signatures
  assert_batch_as_valid rands (msg ∷ []) (x_Q ∷ []) (sig ∷ []) = assert_as_valid_single msg x_Q sig
  assert_batch_as_valid rands msgs Qs sigs = do
    refuse (not (length msgs == length Qs)) mismatch
    refuse (not (length sigs == length Qs)) mismatch
    batch_equation (1 ∷ rands) msgs Qs sigs
