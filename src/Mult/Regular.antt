-- ===== src/Mult/Regular.antt =====
-- curves/curve_group.py and curve_group_2.py: the multiplications that recode the scalar in odd
-- digits and index a table of affine points.
pub mod Tables
pub mod Correct
pub mod Double
pub mod Scalar
use ellipticcurves.Prelude.{
  ℕ, zero, suc, ◌+◌, ◌-◌, ◌*◌, ◌/◌, ◌%◌, ◌^◌, max, Bool, true, false, List, [], ◌∷◌, ◌++◌, map,
  reverse, length, ◌==◌, leb, ltb, not, if◌then◌else◌,
}
use ellipticcurves.Prelude.Int.{ℤ, pos, negsuc, pos_part, ◌+ℤ◌}
use ellipticcurves.Prelude.Result.{
  Result, ok, err, ◌>>=◌, ◌>>◌, refuse, negative_m, negative_first, negative_second, non_positive_w,
  index_error, mismatch,
}
use ellipticcurves.Prelude.Table.{index}
use ellipticcurves.Group.{PointOps}
use ellipticcurves.Group.Affine.{AffineOps}
use ellipticcurves.Mult.Digits.{binary}
use ellipticcurves.Mult.Window.{doubles, last}
use ellipticcurves.Recode.{signed_odd_digits}

-- `m.bit_length()`
unfoldable pub bit_length : ℕ → ℕ
unfolding binary
bit_length m = if m == 0 then 0 else length (binary m)

-- `ceil(a / w)`: the lengths are small, so the division in floating point is exact enough.
unfoldable pub ceil_div : ℕ → ℕ → ℕ
ceil_div a w = (a + w - 1) / w

-- `m | 1`
unfoldable pub or_one : ℕ → ℕ
or_one m = if m % 2 == 1 then m else suc m

-- `scalar_len or ec.scalar_len`
unfoldable pub bits_of : ℕ → ℕ → ℕ
bits_of scalar_len own = if scalar_len == 0 then own else scalar_len

module _ {J : Type 0} where
  -- `for _ in range(rounds): T.append(T[-1] + Q2)`
  unfoldable pub odd_multiples_loop : PointOps J → J → ℕ → List J → Result (List J)
  unfolding last
  odd_multiples_loop ec Q2 zero T = ok T
  odd_multiples_loop ec Q2 (suc rounds) T = do
    top ← last T
    odd_multiples_loop ec Q2 rounds (T ++ (ec.add top Q2 ∷ []))

  unfoldable pub odd_multiples : J → PointOps J → ℕ → Result (List J)
  unfolding odd_multiples_loop
  odd_multiples Q ec w =
      if ltb 2 w
      then odd_multiples_loop ec (ec.double Q) (2 ^ (w - 2) - 1) (Q ∷ [])
      else ok (Q ∷ [])

  -- `(INFJ, negate_jac(Q))[not m & 1]`
  unfoldable pub parity_correction : PointOps J → ℕ → J → J
  parity_correction ec m Q = if m % 2 == 0 then ec.negate Q else ec.infinity

-- `T[(digit + offset) // 2]`; for the digits of the recoding the sum is not negative.
unfoldable pub entry : {A : Type 0} → ℕ → List A → ℤ → Result A
entry w T d = index T (pos_part (d +ℤ pos (2 ^ w - 1)) / 2)

module _ {J A : Type 0} where
  unfoldable pub odd_multiples_aff : J → AffineOps J A → ℕ → Result (List A)
  unfolding odd_multiples
  odd_multiples_aff Q ec w = odd_multiples Q ec.jac w >>= ec.to_aff_batch

  -- The memoized table: the memo holds what the call would build.
  unfoldable pub cached_odd_multiples_aff : J → AffineOps J A → ℕ → Result (List A)
  unfolding odd_multiples_aff
  cached_odd_multiples_aff Q ec w = odd_multiples_aff Q ec w

  unfoldable pub signed_odd_multiples_aff : J → AffineOps J A → ℕ → Result (List A)
  unfolding odd_multiples_aff
  signed_odd_multiples_aff Q ec w = do
    T ← odd_multiples_aff Q ec (w + 1)
    ok (map ec.negate_aff (reverse T) ++ T)

  -- `R = T[digits[-1]]`, and the loop over `digits[-2::-1]`: the last digit comes first.
  unfoldable pub regular_loop : AffineOps J A → ℕ → List A → List ℤ → Result J
  unfolding doubles entry
  regular_loop ec w T [] = err index_error
  regular_loop ec w T (d ∷ []) = do t ← entry w T d; ok (ec.from_aff t)
  regular_loop ec w T (d ∷ e ∷ ds) = do
    R ← regular_loop ec w T (e ∷ ds)
    t ← entry w T d
    ok (ec.add_aff (doubles ec.jac w R) t)

  unfoldable pub mult_regular_window : ℤ → J → AffineOps J A → ℕ → Result J
  unfolding ceil_div bit_length or_one signed_odd_multiples_aff regular_loop parity_correction
  mult_regular_window (negsuc m) Q ec w = err negative_m
  mult_regular_window (pos m) Q ec w = do
    refuse (leb w 0) non_positive_w
    digits ← signed_odd_digits (pos (or_one m)) w (ceil_div (max ec.scalar_len (bit_length m)) w)
    T ← signed_odd_multiples_aff Q ec w
    R ← regular_loop ec w T digits
    ok (ec.jac.add R (parity_correction ec.jac m Q))

  -- `_mult`, with its width of 4.
  unfoldable pub mult : ℤ → J → AffineOps J A → Result J
  unfolding mult_regular_window
  mult m Q ec = mult_regular_window m Q ec 4

  -- The loop of the double multiplication. The digits are equally many, which `zip` checks.
  unfoldable pub double_regular_loop :
      AffineOps J A → ℕ → List A → List A → List ℤ → List ℤ → Result J
  unfolding doubles entry
  double_regular_loop ec w TH TQ [] [] = err index_error
  double_regular_loop ec w TH TQ [] (v ∷ vs) = err mismatch
  double_regular_loop ec w TH TQ (u ∷ us) [] = err mismatch
  double_regular_loop ec w TH TQ (u ∷ []) (v ∷ []) = do
    h ← entry w TH u
    q ← entry w TQ v
    ok (ec.add_aff (ec.from_aff h) q)
  double_regular_loop ec w TH TQ (u ∷ []) (v ∷ v' ∷ vs) = err mismatch
  double_regular_loop ec w TH TQ (u ∷ u' ∷ us) (v ∷ []) = err mismatch
  double_regular_loop ec w TH TQ (u ∷ u' ∷ us) (v ∷ v' ∷ vs) = do
    R ← double_regular_loop ec w TH TQ (u' ∷ us) (v' ∷ vs)
    h ← entry w TH u
    q ← entry w TQ v
    ok (ec.add_aff (ec.add_aff (doubles ec.jac w R) h) q)

  unfoldable pub double_mult_regular_window : ℤ → J → ℤ → J → AffineOps J A → ℕ → ℕ → Result J
  unfolding ceil_div bit_length or_one signed_odd_multiples_aff double_regular_loop
      parity_correction bits_of
  double_mult_regular_window (negsuc u) HJ v QJ ec w scalar_len = err negative_first
  double_mult_regular_window (pos u) HJ (negsuc v) QJ ec w scalar_len = err negative_second
  double_mult_regular_window (pos u) HJ (pos v) QJ ec w scalar_len = do
    refuse (leb w 0) non_positive_w
    let bits = max (max (bits_of scalar_len ec.scalar_len) (bit_length u)) (bit_length v)
    us ← signed_odd_digits (pos (or_one u)) w (ceil_div bits w)
    vs ← signed_odd_digits (pos (or_one v)) w (ceil_div bits w)
    TH ← signed_odd_multiples_aff HJ ec w
    TQ ← signed_odd_multiples_aff QJ ec w
    R ← double_regular_loop ec w TH TQ us vs
    ok (ec.jac.add (ec.jac.add R (parity_correction ec.jac u HJ)) (parity_correction ec.jac v QJ))
