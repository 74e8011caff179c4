-- ===== src/Mult/Window.antt =====
-- curves/curve_group.py: the multiplications that read the scalar digit by digit from the top, and
-- add the entry of a table that each digit names.
pub mod Tables
pub mod Correct
pub mod Strauss
use ellipticcurves.Prelude.{
  ℕ, zero, suc, ◌+◌, ◌-◌, ◌*◌, ◌/◌, ◌%◌, ◌^◌, ◌<◌, ◌≡◌, Bool, true, false, List, [], ◌∷◌, ◌++◌,
  arith, ◌==◌, if◌then◌else◌, length, replicate, ltb, leb,
}
use ellipticcurves.Prelude.Int.{ℤ, pos, negsuc}
use ellipticcurves.Prelude.Result.{
  Result, ok, err, ◌>>=◌, ◌>>◌, refuse, negative_m, negative_first, negative_second, index_error,
  size_too_low, non_positive_w,
}
use ellipticcurves.Prelude.Table.{index}
use ellipticcurves.Group.{PointOps}
use ellipticcurves.Mult.Digits.{binary, convert_number_to_base_var}

-- `zfill`: zeros in front, up to the length of the other number's digits.
unfoldable pub zfill : List ℕ → ℕ → List ℕ
zfill ds n = replicate (n - length ds) 0 ++ ds

-- `[int(j) + 2 * int(k) for j, k in zip(ui, vi)]`
unfoldable pub digit_pairs : List ℕ → List ℕ → List ℕ
digit_pairs [] vs = []
digit_pairs (j ∷ us) [] = []
digit_pairs (j ∷ us) (k ∷ vs) = (j + 2 * k) ∷ digit_pairs us vs

-- `T[-1]` of a list that is not empty.
unfoldable pub last : {J : Type 0} → List J → Result J
last [] = err index_error
last (x ∷ []) = ok x
last (x ∷ y ∷ xs) = last (y ∷ xs)

module _ {J : Type 0} where
  -- `for i in digits: R = scale(R); R = R + T[i]`
  unfoldable pub window_loop : PointOps J → (J → J) → List J → List ℕ → J → Result J
  window_loop ec scale T [] R = ok R
  window_loop ec scale T (i ∷ digits) R = do
    t ← index T i
    window_loop ec scale T digits (ec.add (scale R) t)

  -- `R = T[digits[0]]`, and the loop over `digits[1:]`.
  unfoldable pub window_start : PointOps J → (J → J) → List J → List ℕ → Result J
  unfolding window_loop
  window_start ec scale T [] = err index_error
  window_start ec scale T (i ∷ digits) = do R ← index T i; window_loop ec scale T digits R

  -- `R2 = 2 * R; R3 = R2 + R`
  unfoldable pub triple : PointOps J → J → J
  triple ec R = ec.add (ec.double R) R

  -- `for _ in range(w): R = 2 * R`
  unfoldable pub doubles : PointOps J → ℕ → J → J
  doubles ec zero R = R
  doubles ec (suc w) R = doubles ec w (ec.double R)

  unfoldable pub mult_base_3_var : ℤ → J → PointOps J → Result J
  unfolding window_start triple
  mult_base_3_var (negsuc m) Q ec = err negative_m
  mult_base_3_var (pos m) Q ec =
      window_start ec (triple ec) (ec.infinity ∷ Q ∷ ec.double Q ∷ [])
        (convert_number_to_base_var m 3)

  unfoldable pub double_mult_var : ℤ → J → ℤ → J → PointOps J → Result J
  unfolding window_start binary zfill digit_pairs
  double_mult_var (negsuc u) HJ v QJ ec = err negative_first
  double_mult_var (pos u) HJ (negsuc v) QJ ec = err negative_second
  double_mult_var (pos u) HJ (pos v) QJ ec =
      let ui = binary u in
      let vi = zfill (binary v) (length ui) in
      let ui' = zfill ui (length vi) in
      window_start ec ec.double (ec.infinity ∷ HJ ∷ QJ ∷ ec.add HJ QJ ∷ []) (digit_pairs ui' vi)

  -- `for i in range(i, …, 2)`, `rounds` times: the double of entry (i - 1) / 2, and one `Q` more.
  unfoldable pub multiples_loop : PointOps J → J → ℕ → ℕ → List J → Result (List J)
  unfolding index last
  multiples_loop ec Q zero i T = ok T
  multiples_loop ec Q (suc rounds) i T = do
    half ← index T ((i - 1) / 2)
    let T' = T ++ (ec.double half ∷ [])
    top ← last T'
    multiples_loop ec Q rounds (i + 2) (T' ++ (ec.add top Q ∷ []))

  -- `if odd: T.append(2 * T[(size - 1) // 2])`
  unfoldable pub multiples_end : PointOps J → ℕ → List J → Result (List J)
  unfolding index
  multiples_end ec size T =
      if size % 2 == 1
      then index T ((size - 1) / 2) >>= (λ half. ok (T ++ (ec.double half ∷ [])))
      else ok T

  unfoldable pub multiples : J → ℕ → PointOps J → Result (List J)
  unfolding multiples_loop multiples_end
  multiples Q size ec = do
    refuse (ltb size 2) size_too_low
    T ← multiples_loop ec Q (size / 2 - 1) 3 (ec.infinity ∷ Q ∷ [])
    multiples_end ec size T

  -- The memoized table of 2 ^ MAX_W multiples: the memo holds what the call would build.
  unfoldable pub cached_multiples : J → PointOps J → Result (List J)
  unfolding multiples_loop
  cached_multiples Q ec = multiples_loop ec Q (2 ^ 5 / 2 - 1) 3 (ec.infinity ∷ Q ∷ [])

  unfoldable pub mult_fixed_window_var : ℤ → J → PointOps J → ℕ → Bool → Result J
  unfolding window_start doubles
  mult_fixed_window_var (negsuc m) Q ec w cached = err negative_m
  mult_fixed_window_var (pos m) Q ec w cached = do
    refuse (leb w 0) non_positive_w
    T ← if cached then cached_multiples Q ec else multiples Q (2 ^ w) ec
    window_start ec (doubles ec w) T (convert_number_to_base_var m (2 ^ w))
