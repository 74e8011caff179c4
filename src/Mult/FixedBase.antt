-- ===== src/Mult/FixedBase.antt =====
-- curves/curve_group.py: the multiplication with one table of affine points for each digit of the
-- scalar, which makes no doubling.
use ellipticcurves.Prelude.{
  ℕ, zero, suc, ◌^◌, ◌≤◌, ◌<◌, ◌≡◌, refl, sym, ap, ◌∙◌, List, [], ◌∷◌, arith, length, leb,
}
use ellipticcurves.Prelude.Int.{ℤ, pos, negsuc}
use ellipticcurves.Prelude.Result.{
  Result, ok, err, ◌>>=◌, ◌>>◌, refuse, negative_m, non_positive_w, index_error,
}
use ellipticcurves.Group.{AbelianGroup, nmul, zmul}
use ellipticcurves.Group.Multiple.{zmul-pos, zmul-nmul}
use ellipticcurves.Group.Shows.{Shows, Shows-eq, Shows-add, Times}
use ellipticcurves.Group.Affine.{AffineOps, RepresentsAffine}
use ellipticcurves.Recode.{signed_odd_digits, signed_value}
use ellipticcurves.Recode.Regular.{OddBelow}
use ellipticcurves.Mult.Window.{doubles}
use ellipticcurves.Mult.Window.Correct.{Scales-doubles, w_positive}
use ellipticcurves.Mult.Regular.{
  ceil_div, or_one, parity_correction, entry, signed_odd_multiples_aff,
}
use ellipticcurves.Mult.Regular.Tables.{
  SignedMultiples, signed_odd_multiples_aff-SignedMultiples, entry-Stands,
}
use ellipticcurves.Mult.Regular.Scalar.{ceil_div_covers, or_one-IsRegular, parity_correction-Shows}
use ellipticcurves.Mult.Regular.Correct.{next_digit, first_value}

module _ {J A : Type 0} where
  -- One round of the loop over the positions for each position that is left.
  unfoldable pub tables_from : AffineOps J A → ℕ → ℕ → J → Result (List (List A))
  unfolding doubles signed_odd_multiples_aff
  tables_from ec w zero K = ok []
  tables_from ec w (suc positions) K = do
    T ← signed_odd_multiples_aff K ec w
    Ts ← tables_from ec w positions (doubles ec.jac w K)
    ok (T ∷ Ts)

  -- The memoized tables: the memo holds what the call would build.
  unfoldable pub cached_fixed_base_multiples : J → AffineOps J A → ℕ → Result (List (List A))
  unfolding tables_from ceil_div
  cached_fixed_base_multiples Q ec w = tables_from ec w (ceil_div ec.scalar_len w) Q

  -- The last position comes first, rescaled. There is a digit for each table.
  unfoldable pub fixed_base_loop : AffineOps J A → ℕ → List (List A) → List ℤ → Result J
  unfolding entry
  fixed_base_loop ec w [] ds = err index_error
  fixed_base_loop ec w (T ∷ Ts) [] = err index_error
  fixed_base_loop ec w (T ∷ []) (d ∷ ds) = do t ← entry w T d; ok (ec.blind (ec.from_aff t))
  fixed_base_loop ec w (T ∷ T' ∷ Ts) (d ∷ ds) = do
    R ← fixed_base_loop ec w (T' ∷ Ts) ds
    t ← entry w T d
    ok (ec.add_aff R t)

  unfoldable pub mult_fixed_base : ℤ → J → AffineOps J A → ℕ → Result J
  unfolding cached_fixed_base_multiples fixed_base_loop or_one parity_correction
  mult_fixed_base (negsuc m) Q ec w = err negative_m
  mult_fixed_base (pos m) Q ec w = do
    refuse (leb w 0) non_positive_w
    T ← cached_fixed_base_multiples Q ec w
    digits ← signed_odd_digits (pos (or_one m)) w (length T)
    R ← fixed_base_loop ec w T digits
    ok (ec.jac.add R (parity_correction ec.jac m Q))

module _ {J A G : Type 0} {ec : AffineOps J A} {grp : AbelianGroup G}
    (rep : RepresentsAffine ec grp) where
  -- The table at each position has the multiples of the point that 2 ^ w takes on from position to
  -- position.
  abbrev PositionTables : ℕ → G → List (List A) → Type 0
  PositionTables w g [] = Unit
  PositionTables w g (T ∷ Ts) =
      SignedMultiples rep (2 ^ w) g T
      × (length T ≡ 2 ^ w)
      × PositionTables w (nmul grp (2 ^ w) g) Ts

  tables_from-PositionTables :
      (w positions : ℕ) (K : J) (g : G)
      → 1 ≤ w
      → Shows rep.rep K g
      → (Ts : List (List A)) × (tables_from ec w positions K ≡ ok Ts)
        × PositionTables w g Ts
        × (length Ts ≡ positions)
  unfolding tables_from
  tables_from-PositionTables w zero K g h s = ([], refl, tt, refl)
  tables_from-PositionTables w (suc positions) K g h s =
      let (T, e, es, l) = signed_odd_multiples_aff-SignedMultiples rep K w s h in
      let (Ts, f, ts, ls) =
        tables_from-PositionTables w positions (doubles ec.jac w K) (nmul grp (2 ^ w) g) h
          (Scales-doubles rep.rep w K g s) in
      (T ∷ Ts, rw (e, f), (es, l, ts), ap suc ls)

  fixed_base_loop-Shows :
      (w : ℕ) (Ts : List (List A)) (ds : List ℤ) (g : G)
      → 1 ≤ w
      → PositionTables w g Ts
      → OddBelow (2 ^ w) ds
      → length ds ≡ length Ts
      → 0 < length ds
      → (R : J) × (fixed_base_loop ec w Ts ds ≡ ok R)
        × Shows rep.rep R (zmul grp (signed_value w ds) g)
  unfolding fixed_base_loop signed_value
  fixed_base_loop-Shows w Ts [] g h ts b l n = absurd (omega arith)
  fixed_base_loop-Shows w [] (d ∷ ds) g h ts b l n = absurd (omega arith)
  fixed_base_loop-Shows w (T ∷ []) (d ∷ d' ∷ ds) g h ts b l n = absurd (omega arith)
  fixed_base_loop-Shows w (T ∷ T' ∷ Ts) (d ∷ []) g h ts b l n = absurd (omega arith)
  fixed_base_loop-Shows w (T ∷ []) (d ∷ []) g h (es, lt, _) b l n =
      let (a, e, t) = entry-Stands rep w T d g h b.0 es lt in
      (
        ec.blind (ec.from_aff a),
        rw e,
        Shows-eq rep.rep (rep.blind-Shows _ (rep.from_aff-Shows a t)) (first_value rep w d g),
      )
  fixed_base_loop-Shows w (T ∷ T' ∷ Ts) (d ∷ d' ∷ ds) g h (es, lt, ts) b l n =
      let (a, e, t) = entry-Stands rep w T d g h b.0 es lt in
      let (R, f, s) =
        fixed_base_loop-Shows w (T' ∷ Ts) (d' ∷ ds) (nmul grp (2 ^ w) g) h ts b.1 (omega arith)
          (omega arith) in
      (
        ec.add_aff R a,
        rw (f, e),
        Shows-eq rep.rep (rep.add_aff-Shows R a s t) (
            ap (λ x. grp.plus x (zmul grp d g)) (zmul-nmul grp (2 ^ w) (signed_value w (d' ∷ ds)) g)
            ∙ next_digit rep w d _ g),
      )

  -- For mixed Jacobian and affine formulas that implement an abelian group on a curve whose
  -- scalar_len is positive, and a tuple that stands for g, _mult_fixed_base returns a tuple
  -- that stands for m * g, for every scalar m of at most scalar_len bits and every window w
  -- of at least 1.
  pub mult_fixed_base-Times :
      (m : ℕ) (Q : J) (w : ℕ) {g : G}
      → Shows rep.rep Q g
      → 1 ≤ w
      → 1 ≤ ec.scalar_len
      → m < 2 ^ ec.scalar_len
      → (X : J) × (mult_fixed_base (pos m) Q ec w ≡ ok X) × Times rep.rep g X m
  unfolding mult_fixed_base cached_fixed_base_multiples
  mult_fixed_base-Times m Q w {g} s h hl hm =
      let (Ts, et, ts, lt) = tables_from-PositionTables w (ceil_div ec.scalar_len w) Q g h s in
      let (digits, e, r) = or_one-IsRegular m w ec.scalar_len h hl hm in
      let (_, positive) = ceil_div_covers ec.scalar_len w h hl in
      let (c, cs, ce) = parity_correction-Shows rep.rep m Q s in
      let (R, k, rs) =
        fixed_base_loop-Shows w Ts digits g h ts r.odd_below (r.size_lem ∙ sym lt)
          (omega (arith, r.size_lem, positive)) in
      (
        ec.jac.add R (parity_correction ec.jac m Q),
        rw (w_positive w h, et, ap (signed_odd_digits (pos (or_one m)) w) lt ∙ e, k),
        record {
          shows = Shows-eq rep.rep (Shows-add rep.rep R _ rs cs) (
              ap (λ x. grp.plus x c) (ap (λ v. zmul grp v g) r.value ∙ zmul-pos grp (or_one m) g)
              ∙ ce);
        },
      )
