-- ===== src/Mult/Naf.antt =====
-- curves/curve_group_2.py: the multiplication by the width-w NAF of the scalar.
pub mod Correct
use ellipticcurves.Prelude.{
  ℕ, zero, suc, ◌+◌, ◌-◌, ◌*◌, ◌/◌, ◌^◌, Bool, true, false, List, [], ◌∷◌, ◌++◌, ◌==◌, leb,
  if◌then◌else◌,
}
use ellipticcurves.Prelude.Int.{ℤ, pos, negsuc}
use ellipticcurves.Prelude.Result.{Result, ok, err, ◌>>=◌, ◌>>◌, refuse, negative_m, non_positive_w}
use ellipticcurves.Prelude.Table.{index}
use ellipticcurves.Group.{PointOps}
use ellipticcurves.Recode.{wnaf_of_m_var}

module _ {J : Type 0} where
  -- `T.extend(T[i - 1] + Q2 for i in range(i, …))`, which reads the entries that it has added.
  unfoldable pub extend_odd : PointOps J → J → ℕ → ℕ → List J → Result (List J)
  extend_odd ec Q2 zero i T = ok T
  extend_odd ec Q2 (suc rounds) i T = do
    x ← index T (i - 1)
    extend_odd ec Q2 rounds (suc i) (T ++ (ec.add x Q2 ∷ []))

  -- `T.extend(-T[i - b // 4] for i in range(i, …))`, with `quarter` for b // 4.
  unfoldable pub extend_negated : PointOps J → ℕ → ℕ → ℕ → List J → Result (List J)
  extend_negated ec quarter zero i T = ok T
  extend_negated ec quarter (suc rounds) i T = do
    x ← index T (i - quarter)
    extend_negated ec quarter rounds (suc i) (T ++ (ec.negate x ∷ []))

  unfoldable pub naf_table : J → PointOps J → ℕ → Result (List J)
  unfolding extend_odd extend_negated
  naf_table Q ec w = do
    let b = 2 ^ w
    T ← extend_odd ec (ec.double Q) (b / 4 - 1) 1 (Q ∷ [])
    extend_negated ec (b / 4) (b / 2 - b / 4) (b / 4) T

  -- What a digit adds. For a negative digit -(n + 1), `b // 4 - (digit + 1) // 2` rounds up.
  unfoldable pub add_digit : PointOps J → ℕ → List J → J → ℤ → Result J
  add_digit ec w T R (pos zero) = ok R
  add_digit ec w T R (pos (suc n)) = do t ← index T (n / 2); ok (ec.add R t)
  add_digit ec w T R (negsuc n) = do
    t ← index T (if w == 1 then 1 else 2 ^ w / 4 + (n + 1) / 2)
    ok (ec.add R t)

  -- `for j in range(p - 1, -1, -1)`: the last digit comes first.
  unfoldable pub naf_rounds : PointOps J → ℕ → List J → List ℤ → Result J
  unfolding add_digit
  naf_rounds ec w T [] = ok ec.infinity
  naf_rounds ec w T (d ∷ ds) = do R ← naf_rounds ec w T ds; add_digit ec w T (ec.double R) d

  unfoldable pub mult_w_naf_var : ℤ → J → PointOps J → ℕ → Result J
  unfolding naf_table naf_rounds
  mult_w_naf_var (negsuc m) Q ec w = err negative_m
  mult_w_naf_var (pos m) Q ec w = do
    refuse (leb w 0) non_positive_w
    T ← naf_table Q ec w
    naf_rounds ec w T (wnaf_of_m_var m w)
