-- ===== src/Mult/Regular/Double.antt =====
-- The double multiplication by regular windows returns the sum of two multiples.
use ellipticcurves.Prelude.{
  ℕ, ◌^◌, ◌≤◌, ◌<◌, max, ◌≡◌, sym, ap, ap₂, ◌∙◌, List, [], ◌∷◌, arith, length,
}
use native.Mathlib.Nat.{pow-le-pow_right}
use ellipticcurves.Prelude.Int.{ℤ, pos}
use ellipticcurves.Prelude.Result.{ok}
use ellipticcurves.Group.{AbelianGroup, nmul, zmul}
use ellipticcurves.Group.Multiple.{nmul-plus, plus_interchange, zmul-pos}
use ellipticcurves.Group.Shows.{Shows, Shows-eq, Shows-add}
use ellipticcurves.Group.Affine.{AffineOps, RepresentsAffine}
use ellipticcurves.Recode.{signed_value}
use ellipticcurves.Recode.Regular.{OddBelow}
use ellipticcurves.Mult.Window.{doubles}
use ellipticcurves.Mult.Window.Correct.{Scales-doubles, w_positive}
use ellipticcurves.Mult.Regular.{
  bit_length, or_one, bits_of, parity_correction, double_regular_loop, double_mult_regular_window,
}
use ellipticcurves.Mult.Regular.Tables.{
  SignedMultiples, signed_odd_multiples_aff-SignedMultiples, entry-Stands,
}
use ellipticcurves.Mult.Regular.Scalar.{
  lt-bit_length, ceil_div_covers, or_one-IsRegular, parity_correction-Shows,
}
use ellipticcurves.Mult.Regular.Correct.{next_digit, first_value}

module _ {J A G : Type 0} {ec : AffineOps J A} {grp : AbelianGroup G}
    (rep : RepresentsAffine ec grp) where
  regroup :
      (x y a b : G)
      → grp.plus (grp.plus (grp.plus x y) a) b ≡ grp.plus (grp.plus x a) (grp.plus y b)
  regroup x y a b = grp.plus_assoc (grp.plus x y) a b ∙ plus_interchange grp x y a b

  module _ (w : ℕ) (TH TQ : List A) (g k : G) (h : 1 ≤ w) (hs : SignedMultiples rep (2 ^ w) g TH)
      (lh : length TH ≡ 2 ^ w) (qs : SignedMultiples rep (2 ^ w) k TQ)
      (lq : length TQ ≡ 2 ^ w) where
    abbrev Reaches : J → List ℤ → List ℤ → Type 0
    Reaches R us vs =
        Shows rep.rep R (grp.plus (zmul grp (signed_value w us) g) (zmul grp (signed_value w vs) k))

    double_regular_loop-Shows :
        (us vs : List ℤ)
        → 0 < length us
        → length us ≡ length vs
        → OddBelow (2 ^ w) us
        → OddBelow (2 ^ w) vs
        → (R : J) × (double_regular_loop ec w TH TQ us vs ≡ ok R) × Reaches R us vs
    unfolding double_regular_loop signed_value
    double_regular_loop-Shows [] vs n e bu bv = absurd (omega arith)
    double_regular_loop-Shows (u ∷ us) [] n e bu bv = absurd (omega arith)
    double_regular_loop-Shows (u ∷ []) (v ∷ v' ∷ vs) n e bu bv = absurd (omega arith)
    double_regular_loop-Shows (u ∷ u' ∷ us) (v ∷ []) n e bu bv = absurd (omega arith)
    double_regular_loop-Shows (u ∷ []) (v ∷ []) n e bu bv =
        let (a, ea, ta) = entry-Stands rep w TH u g h bu.0 hs lh in
        let (b, eb, tb) = entry-Stands rep w TQ v k h bv.0 qs lq in
        (
          ec.add_aff (ec.from_aff a) b,
          rw (ea, eb),
          Shows-eq rep.rep (rep.add_aff-Shows _ b (rep.from_aff-Shows a ta) tb)
              (ap₂ grp.plus (first_value rep w u g) (first_value rep w v k)),
        )
    double_regular_loop-Shows (u ∷ u' ∷ us) (v ∷ v' ∷ vs) n e bu bv =
        let (a, ea, ta) = entry-Stands rep w TH u g h bu.0 hs lh in
        let (b, eb, tb) = entry-Stands rep w TQ v k h bv.0 qs lq in
        let (R, f, s) =
          double_regular_loop-Shows (u' ∷ us) (v' ∷ vs) (omega arith) (omega arith) bu.1 bv.1 in
        (
          ec.add_aff (ec.add_aff (doubles ec.jac w R) a) b,
          rw (f, ea, eb),
          Shows-eq rep.rep
              (rep.add_aff-Shows _ b (rep.add_aff-Shows _ a (Scales-doubles rep.rep w R _ s) ta) tb)
              (ap (λ x. grp.plus (grp.plus x (zmul grp u g)) (zmul grp v k))
                  (nmul-plus grp (2 ^ w) _ _)
                ∙ regroup _ _ _ _
                ∙ ap₂ grp.plus (next_digit rep w u _ g) (next_digit rep w v _ k)),
        )

  fits : (bits m : ℕ) → bit_length m ≤ bits → m < 2 ^ bits
  fits bits m l = omega (
    arith,
    lt-bit_length m,
    pow-le-pow_right {n = 2} (omega arith) {i = bit_length m} {j = bits} l,
  )

  -- For mixed Jacobian and affine formulas that implement an abelian group, and tuples that
  -- stand for g and k, _double_mult_regular_window returns a tuple that stands for u * g + v
  -- * k, for all u and v that are not negative, every window w of at least 1 and a positive
  -- number of bits.
  pub double_mult_regular_window-Shows :
      (u v : ℕ) (HJ QJ : J) (w scalar_len : ℕ) {g k : G}
      → Shows rep.rep HJ g
      → Shows rep.rep QJ k
      → 1 ≤ w
      → 1 ≤ bits_of scalar_len ec.scalar_len
      → (X : J) × (double_mult_regular_window (pos u) HJ (pos v) QJ ec w scalar_len ≡ ok X)
        × Shows rep.rep X (grp.plus (nmul grp u g) (nmul grp v k))
  unfolding double_mult_regular_window
  double_mult_regular_window-Shows u v HJ QJ w scalar_len {g} {k} sh sq h hl =
      let bits = max (max (bits_of scalar_len ec.scalar_len) (bit_length u)) (bit_length v) in
      let (us, eu, ru) = or_one-IsRegular u w bits h (omega arith) (fits bits u (omega arith)) in
      let (vs, ev, rv) = or_one-IsRegular v w bits h (omega arith) (fits bits v (omega arith)) in
      let (TH, eh, hs, lh) = signed_odd_multiples_aff-SignedMultiples rep HJ w sh h in
      let (TQ, eq, qs, lq) = signed_odd_multiples_aff-SignedMultiples rep QJ w sq h in
      let (cu, su, fu) = parity_correction-Shows rep.rep u HJ sh in
      let (cv, sv, fv) = parity_correction-Shows rep.rep v QJ sq in
      let (_, positive) = ceil_div_covers bits w h (omega arith) in
      let (R, f, s) =
        double_regular_loop-Shows w TH TQ g k h hs lh qs lq us vs
          (omega (arith, ru.size_lem, positive)) (ru.size_lem ∙ sym rv.size_lem) ru.odd_below
          rv.odd_below in
      (
        ec.jac.add (ec.jac.add R (parity_correction ec.jac u HJ)) (parity_correction ec.jac v QJ),
        rw (w_positive w h, eu, ev, eh, eq, f),
        Shows-eq rep.rep (Shows-add rep.rep _ _ (Shows-add rep.rep R _ s su) sv) (
            ap₂ (λ x y. grp.plus (grp.plus (grp.plus x y) cu) cv)
              (ap (λ n. zmul grp n g) ru.value ∙ zmul-pos grp (or_one u) g)
              (ap (λ n. zmul grp n k) rv.value ∙ zmul-pos grp (or_one v) k)
            ∙ regroup _ _ cu cv
            ∙ ap₂ grp.plus fu fv),
      )
