-- ===== src/Ssa/Batch/Interface.antt =====
-- What the proofs about the batch verification rely on.
use ellipticcurves.Prelude.{ℕ, ◌%◌, ◌<◌, ◌≡◌, ◌≢◌, List, [], ◌∷◌, map, length, true}
use ellipticcurves.Prelude.Result.{ok}
use ellipticcurves.Curve.{Point}
use ellipticcurves.Group.{AbelianGroup, nmul, sum_of}
use ellipticcurves.Ssa.Interface.{ImplementsSsa}
use ellipticcurves.Ssa.Batch.{BatchOps}

abbrev pub All : {A : Type 0} → (A → Type 0) → List A → Type 0
All P [] = Unit
All P (x ∷ xs) = P x × All P xs

-- An x-coordinate is below p; `challenge` is reduced modulo n and refuses zero; an x that lifts is
-- that of an element of order n with an even y; and `multi_mult` returns the sum of the multiples,
-- for scalars from 1 to n - 1 and as many points with an even y, two at least.
pub record ImplementsBatch {G Msg : Type 0} (batch : BatchOps Msg) (grp : AbelianGroup G)
    : Type 1 where
  pub base : ImplementsSsa batch.ops grp
  pub x_coordinate_lt : (x : ℕ) → batch.ops.is_x_coordinate x ≡ true → x < batch.ops.ec.p
  pub challenge_range :
      (msg : Msg) (x_Q x_K : ℕ) {c : ℕ}
      → batch.challenge msg x_Q x_K ≡ ok c
      → (0 < c) × (c < batch.ops.ec.n)
  pub lifted :
      (x : ℕ) {y : ℕ}
      → batch.ops.y_even_in_subgroup x ≡ ok y
      → (a : G) × ((a ≢ grp.zero_point) × (base.base.y_of a % 2 ≡ 0))
        × (base.base.x_of a ≡ x)
        × base.base.Shows (record { x = x; y = y; z = 1 }) a
        × (nmul grp batch.ops.ec.n a ≡ grp.zero_point)
  pub point_of : G → Point
  pub mult_gen_lem : (m : ℕ) → batch.ops.ec.mult_gen m ≡ point_of (nmul grp m base.base.g)
  pub multi_mult_lem :
      (ks : List ℕ) (elements : List G)
      → length ks ≡ length elements
      → 1 < length elements
      → All (λ k. (0 < k) × (k < batch.ops.ec.n)) ks
      → All (λ a. (a ≢ grp.zero_point) × (base.base.y_of a % 2 ≡ 0)) elements
      → batch.multi_mult ks
          (map (λ a. record { x = base.base.x_of a; y = base.base.y_of a }) elements)
        ≡ ok (point_of (sum_of grp ks elements))
