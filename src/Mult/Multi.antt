-- ===== src/Mult/Multi.antt =====
-- curves/curve_group.py and curve_group_2.py: the sum of several multiples, by the interleaved NAFs
-- of the scalars.
use ellipticcurves.Prelude.{
  ℕ, zero, suc, ◌/◌, min, max, Bool, ◌⊎◌, inl, inr, List, [], ◌∷◌, ◌++◌, map, length, replicate,
  take, drop, ◌==◌, leb, ltb, not, if◌then◌else◌,
}
use ellipticcurves.Prelude.Int.{ℤ, pos, negsuc}
use ellipticcurves.Prelude.Result.{
  Result, ok, err, ◌>>=◌, ◌>>◌, refuse, mismatch, not_a_multi_mult, negative_coefficient,
  negative_first, negative_second, non_positive_w, index_error,
}
use ellipticcurves.Prelude.Table.{index}
use ellipticcurves.Group.Affine.{AffineOps}
use ellipticcurves.Recode.{wnaf_of_m_var}
use ellipticcurves.Mult.Regular.{odd_multiples, cached_odd_multiples_aff}

module _ {J : Type 0} where
  -- The loop that drops the zero scalars. The lists are equally long.
  unfoldable pub nonzero_pairs : List ℤ → List J → Result (List (ℕ × J))
  nonzero_pairs [] Ps = ok []
  nonzero_pairs (n ∷ ns) [] = ok []
  nonzero_pairs (negsuc n ∷ ns) (P ∷ Ps) = err negative_coefficient
  nonzero_pairs (pos zero ∷ ns) (P ∷ Ps) = nonzero_pairs ns Ps
  nonzero_pairs (pos (suc n) ∷ ns) (P ∷ Ps) = do rest ← nonzero_pairs ns Ps; ok ((suc n, P) ∷ rest)

  unfoldable pub multi_mult_pairs : List ℤ → List J → Result (List (ℕ × J))
  unfolding nonzero_pairs
  multi_mult_pairs scalars jac_points = do
    refuse (not (length scalars == length jac_points)) mismatch
    refuse (ltb (length scalars) 2) not_a_multi_mult
    nonzero_pairs scalars jac_points

module _ {J A : Type 0} where
  -- The table entry that a digit which is not zero names.
  unfoldable pub named : AffineOps J A → List A → ℤ → Result (List A)
  named ec T (pos zero) = ok []
  named ec T (pos (suc n)) = do P ← index T (n / 2); ok (P ∷ [])
  named ec T (negsuc n) = do P ← index T (n / 2); ok (ec.negate_aff P ∷ [])

  -- `for j, d in enumerate(naf)`
  unfoldable pub add_naf : AffineOps J A → List A → List ℤ → List (List A) → Result (List (List A))
  unfolding named
  add_naf ec T [] positions = ok positions
  add_naf ec T (pos zero ∷ ds) [] = add_naf ec T ds []
  add_naf ec T (d ∷ ds) [] = err index_error
  add_naf ec T (d ∷ ds) (here ∷ positions) = do
    P ← named ec T d
    rest ← add_naf ec T ds positions
    ok ((here ++ P) ∷ rest)

  -- `for naf, T in zip(nafs, tables, strict=True)`
  unfoldable pub add_nafs :
      AffineOps J A → List (List ℤ) → List (List A) → List (List A) → Result (List (List A))
  unfolding add_naf
  add_nafs ec [] [] positions = ok positions
  add_nafs ec [] (T ∷ Ts) positions = err mismatch
  add_nafs ec (naf ∷ nafs) [] positions = err mismatch
  add_nafs ec (naf ∷ nafs) (T ∷ Ts) positions = do
    positions' ← add_naf ec T naf positions
    add_nafs ec nafs Ts positions'

-- `max(len(naf) for naf in nafs)` of a list that is not empty.
unfoldable pub longest : List (List ℤ) → ℕ
longest [] = 0
longest (naf ∷ nafs) = max (length naf) (longest nafs)

-- `tables[i] = aff[at : at + len(jac)]`
unfoldable pub fill : {A : Type 0} → List (List A ⊎ ℕ) → List A → List (List A)
fill [] aff = []
fill (inl T ∷ slots) aff = T ∷ fill slots aff
fill (inr n ∷ slots) aff = take n aff ∷ fill slots (drop n aff)

module _ {J A : Type 0} where
  unfoldable pub additions_by_position :
      AffineOps J A → List (List ℤ) → List (List A) → Result (List (List A))
  unfolding add_nafs longest
  additions_by_position ec nafs tables = add_nafs ec nafs tables (replicate (longest nafs) [])

  -- `width`; `fixed` tells the points whose table is memoized.
  unfoldable pub width : AffineOps J A → ℕ → (J → Bool) → J → ℕ
  width ec w fixed P = if fixed P then min 10 ec.scalar_len else w

  -- The memoized tables, and the places in the list with the number of points that are pending for
  -- them; and the concatenation of what is pending.
  unfoldable pub gather :
      AffineOps J A → ℕ → (J → Bool) → List (ℕ × J) → Result (List (List A ⊎ ℕ) × List J)
  unfolding cached_odd_multiples_aff odd_multiples width
  gather ec w fixed [] = ok ([], [])
  gather ec w fixed ((n, P) ∷ pairs) =
      if fixed P
      then (cached_odd_multiples_aff P ec (width ec w fixed P) >>= λ T.
          gather ec w fixed pairs >>= λ rest. ok (inl T ∷ rest.0, rest.1))
      else (odd_multiples P ec.jac (width ec w fixed P) >>= λ T.
          gather ec w fixed pairs >>= λ rest. ok (inr (length T) ∷ rest.0, T ++ rest.1))

  unfoldable pub add_all : AffineOps J A → J → List A → J
  add_all ec R [] = R
  add_all ec R (P ∷ Ps) = add_all ec (ec.add_aff R P) Ps

  -- The last position comes first.
  unfoldable pub interleaved : AffineOps J A → List (List A) → J
  unfolding add_all
  interleaved ec [] = ec.jac.infinity
  interleaved ec (additions ∷ positions) =
      add_all ec (ec.jac.double (interleaved ec positions)) additions

  unfoldable pub multi_mult_nonzero : List (ℕ × J) → AffineOps J A → ℕ → (J → Bool) → Result J
  unfolding gather fill additions_by_position interleaved width
  multi_mult_nonzero pairs ec w fixed = do
    gathered ← gather ec w fixed pairs
    aff ← ec.to_aff_batch (gathered.1)
    let nafs = map (λ (pair : ℕ × J). wnaf_of_m_var (pair.0) (width ec w fixed (pair.1))) pairs
    positions ← additions_by_position ec nafs (fill (gathered.0) aff)
    ok (interleaved ec positions)

  -- `if not pairs: return INFJ`
  unfoldable pub multi_mult_of : List (ℕ × J) → AffineOps J A → ℕ → (J → Bool) → Result J
  unfolding multi_mult_nonzero
  multi_mult_of [] ec w fixed = ok ec.jac.infinity
  multi_mult_of (pair ∷ pairs) ec w fixed = multi_mult_nonzero (pair ∷ pairs) ec w fixed

  unfoldable pub multi_mult_w_naf_var : List ℤ → List J → AffineOps J A → ℕ → (J → Bool) → Result J
  unfolding multi_mult_of multi_mult_pairs
  multi_mult_w_naf_var scalars jac_points ec w fixed = do
    refuse (leb w 0) non_positive_w
    pairs ← multi_mult_pairs scalars jac_points
    multi_mult_of pairs ec w fixed

  unfoldable pub double_mult_w_naf_var : ℤ → J → ℤ → J → AffineOps J A → ℕ → (J → Bool) → Result J
  unfolding multi_mult_w_naf_var
  double_mult_w_naf_var (negsuc u) HJ v QJ ec w fixed = err negative_first
  double_mult_w_naf_var (pos u) HJ (negsuc v) QJ ec w fixed = err negative_second
  double_mult_w_naf_var (pos u) HJ (pos v) QJ ec w fixed = do
    refuse (leb w 0) non_positive_w
    multi_mult_w_naf_var (pos u ∷ pos v ∷ []) (HJ ∷ QJ ∷ []) ec w fixed
