-- ===== src/Mult/Regular/Correct.antt =====
-- The regular window returns the multiple of the point.
use ellipticcurves.Prelude.{
  ℕ, ◌^◌, ◌≤◌, ◌<◌, max, ◌≡◌, refl, sym, ap, ◌∙◌, List, [], ◌∷◌, arith, length,
}
use native.Mathlib.Nat.{pow-le-pow_right}
use ellipticcurves.Prelude.Int.{ℤ, pos, ◌+ℤ◌, ◌*ℤ◌}
use ellipticcurves.Prelude.Result.{ok}
use ellipticcurves.Group.{AbelianGroup, nmul, zmul}
use ellipticcurves.Group.Multiple.{nmul-zero_point, zmul-add, zmul-mul, zmul-pos, zero_plus}
use ellipticcurves.Group.Shows.{Shows, Shows-eq, Shows-add, Times}
use ellipticcurves.Group.Affine.{AffineOps, RepresentsAffine}
use ellipticcurves.Recode.{signed_value}
use ellipticcurves.Recode.Regular.{OddBelow}
use ellipticcurves.Mult.Window.{doubles}
use ellipticcurves.Mult.Window.Correct.{Scales-doubles, w_positive}
use ellipticcurves.Mult.Regular.{
  bit_length, or_one, parity_correction, regular_loop, mult_regular_window,
}
use ellipticcurves.Mult.Regular.Scalar.{
  lt-bit_length, ceil_div_covers, or_one-IsRegular, parity_correction-Shows,
}
use ellipticcurves.Mult.Regular.Tables.{
  SignedMultiples, signed_odd_multiples_aff-SignedMultiples, entry-Stands,
}

module _ {J A G : Type 0} {ec : AffineOps J A} {grp : AbelianGroup G}
    (rep : RepresentsAffine ec grp) where
  -- One digit more, below the digits that have been read.
  pub next_digit :
      (w : ℕ) (d v : ℤ) (g : G)
      → grp.plus (nmul grp (2 ^ w) (zmul grp v g)) (zmul grp d g)
        ≡ zmul grp (d +ℤ pos (2 ^ w) *ℤ v) g
  next_digit w d v g =
      grp.plus_comm _ _
      ∙ ap (grp.plus (zmul grp d g)) (sym (zmul-mul grp (2 ^ w) v g))
      ∙ sym (zmul-add grp d (pos (2 ^ w) *ℤ v) g)

  pub first_value : (w : ℕ) (d : ℤ) (g : G) → zmul grp d g ≡ zmul grp (signed_value w (d ∷ [])) g
  unfolding signed_value
  first_value w d g =
      sym (
        ap (λ x. grp.plus x (zmul grp d g))
          (ap (nmul grp (2 ^ w)) (zmul-pos grp 0 g ∙ nothing) ∙ nmul-zero_point grp (2 ^ w))
        ∙ zero_plus grp (zmul grp d g))
      ∙ next_digit w d (pos 0) g
    where
      nothing : nmul grp 0 g ≡ grp.zero_point
      nothing = unfold nmul in refl

  module _ (w : ℕ) (T : List A) (g : G) (h : 1 ≤ w) (es : SignedMultiples rep (2 ^ w) g T)
      (l : length T ≡ 2 ^ w) where
    regular_loop-Shows :
        (ds : List ℤ)
        → 0 < length ds
        → OddBelow (2 ^ w) ds
        → (R : J) × (regular_loop ec w T ds ≡ ok R)
          × Shows rep.rep R (zmul grp (signed_value w ds) g)
    unfolding regular_loop signed_value
    regular_loop-Shows [] n b = absurd (omega arith)
    regular_loop-Shows (d ∷ []) n b =
        let (a, e, t) = entry-Stands rep w T d g h b.0 es l in
        (ec.from_aff a, rw e, Shows-eq rep.rep (rep.from_aff-Shows a t) (first_value w d g))
    regular_loop-Shows (d ∷ d' ∷ ds) n b =
        let (a, e, t) = entry-Stands rep w T d g h b.0 es l in
        let (R, f, s) = regular_loop-Shows (d' ∷ ds) (omega arith) b.1 in
        (
          ec.add_aff (doubles ec.jac w R) a,
          rw (f, e),
          Shows-eq rep.rep (rep.add_aff-Shows _ a (Scales-doubles rep.rep w R _ s) t)
              (next_digit w d _ g),
        )

  -- For mixed Jacobian and affine formulas that implement an abelian group on a curve whose
  -- scalar_len is positive, and a tuple that stands for g, _mult_regular_window returns a
  -- tuple that stands for m * g, for every scalar m that is not negative and every window w
  -- of at least 1.
  pub mult_regular_window-Times :
      (m : ℕ) (Q : J) (w : ℕ) {g : G}
      → Shows rep.rep Q g
      → 1 ≤ w
      → 1 ≤ ec.scalar_len
      → (X : J) × (mult_regular_window (pos m) Q ec w ≡ ok X) × Times rep.rep g X m
  unfolding mult_regular_window
  mult_regular_window-Times m Q w {g} s h hl =
      let bits = max ec.scalar_len (bit_length m) in
      let (digits, e, r) = or_one-IsRegular m w bits h (omega arith) (
        omega (
          arith,
          lt-bit_length m,
          pow-le-pow_right {n = 2} (omega arith) {i = bit_length m} {j = bits} (omega arith),
        )) in
      let (T, f, es, l) = signed_odd_multiples_aff-SignedMultiples rep Q w s h in
      let (c, cs, ce) = parity_correction-Shows rep.rep m Q s in
      let (_, positive) = ceil_div_covers bits w h (omega arith) in
      let (R, k, rs) =
        regular_loop-Shows w T g h es l digits (omega (arith, r.size_lem, positive)) r.odd_below in
      (
        ec.jac.add R (parity_correction ec.jac m Q),
        rw (w_positive w h, e, f, k),
        record {
          shows = Shows-eq rep.rep (Shows-add rep.rep R _ rs cs) (
              ap (λ x. grp.plus x c) (ap (λ v. zmul grp v g) r.value ∙ zmul-pos grp (or_one m) g)
              ∙ ce);
        },
      )
