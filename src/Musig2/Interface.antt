-- ===== src/Musig2/Interface.antt =====
-- What the proofs about ecc/musig2.py rely on.
use ellipticcurves.Prelude.{ℕ, ◌<◌, ◌≡◌}
use ellipticcurves.Prelude.Result.{ok}
use ellipticcurves.Group.{AbelianGroup}
use ellipticcurves.Points.Interface.{ImplementsPoints}
use ellipticcurves.Musig2.{MusigOps}

-- The points implement the group, and a challenge is reduced modulo n and not zero.
pub record ImplementsMusig {G Msg : Type 0} (mu : MusigOps Msg) (grp : AbelianGroup G)
    : Type 1 where
  pub arith_lem : ImplementsPoints mu.points mu.ops grp
  pub challenge_range :
      (msg : Msg) (x_Q x_K : ℕ) {c : ℕ}
      → mu.challenge msg x_Q x_K ≡ ok c
      → (0 < c) × (c < mu.ops.ec.n)
