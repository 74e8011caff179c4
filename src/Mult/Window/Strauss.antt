-- ===== src/Mult/Window/Strauss.antt =====
-- The double multiplication returns the sum of two multiples.
use ellipticcurves.Prelude.{
  ℕ, zero, suc, ◌+◌, ◌-◌, ◌*◌, ◌/◌, ◌%◌, ◌<◌, ◌≡◌, refl, ap, ap₂, sym, ◌∙◌, List, [], ◌∷◌, ◌++◌,
  arith, length, length-append, length-replicate, replicate,
}
use ellipticcurves.Prelude.Int.{pos}
use ellipticcurves.Prelude.Result.{ok}
use ellipticcurves.Group.{PointOps, AbelianGroup, Represents, nmul}
use ellipticcurves.Group.Multiple.{nmul-add, nmul-mul, nmul-plus, plus_interchange, zero_plus}
use ellipticcurves.Group.Shows.{Shows, Shows-eq, Shows-infinity, Shows-add, Shows-double}
use ellipticcurves.Mult.Digits.{horner, binary, binary-value, binary-Below, binary_not_empty, Below}
use ellipticcurves.Mult.Window.{window_start, zfill, digit_pairs, double_mult_var}
use ellipticcurves.Mult.Window.Correct.{digits_point, Names, window_start-Shows, first_digit}

horner-zeros : (n : ℕ) (ds : List ℕ) → horner 2 0 (replicate n 0 ++ ds) ≡ horner 2 0 ds
unfolding horner
horner-zeros zero ds = refl
horner-zeros (suc n) ds = horner-zeros n ds

horner-zfill : (ds : List ℕ) (n : ℕ) → horner 2 0 (zfill ds n) ≡ horner 2 0 ds
unfolding zfill
horner-zfill ds n = horner-zeros (n - length ds) ds

Below-zeros : (n : ℕ) (ds : List ℕ) → Below 2 ds → Below 2 (replicate n 0 ++ ds)
Below-zeros zero ds l = l
Below-zeros (suc n) ds l = (omega arith, Below-zeros n ds l)

Below-zfill : (ds : List ℕ) (n : ℕ) → Below 2 ds → Below 2 (zfill ds n)
unfolding zfill
Below-zfill ds n l = Below-zeros (n - length ds) ds l

length-zfill : (ds : List ℕ) (n : ℕ) → length (zfill ds n) ≡ (n - length ds) + length ds
unfolding zfill
length-zfill ds n = omega (
  arith,
  length-append (replicate (n - length ds) 0) ds,
  length-replicate {A = ℕ} (n - length ds) 0,
)

Below-pairs : (us vs : List ℕ) → Below 2 us → Below 2 vs → Below 4 (digit_pairs us vs)
unfolding digit_pairs
Below-pairs [] vs l k = tt
Below-pairs (j ∷ us) [] l k = tt
Below-pairs (j ∷ us) (i ∷ vs) l k = (omega (arith, l.0, k.0), Below-pairs us vs l.1 k.1)

module _ {J G : Type 0} {ec : PointOps J} {grp : AbelianGroup G} (rep : Represents ec grp) where
  open grp use {plus, plus_zero, zero_point}

  module _ (H Q : G) where
    -- The point that a pair of binary digits, j + 2 * k, names.
    pair_point : ℕ → G
    pair_point d = plus (nmul grp (d % 2) H) (nmul grp (d / 2) Q)

    both : ℕ → ℕ → G
    both u v = plus (nmul grp u H) (nmul grp v Q)

    pair_point-pair : (j k : ℕ) → j < 2 → k < 2 → pair_point (j + 2 * k) ≡ both j k
    unfolding pair_point both
    pair_point-pair j k hj hk =
        let low : (j + 2 * k) % 2 ≡ j = omega arith in
        let high : (j + 2 * k) / 2 ≡ k = omega arith in
        ap₂ (λ a b. plus (nmul grp a H) (nmul grp b Q)) low high

    both_step :
        (u v j k : ℕ) → plus (nmul grp 2 (both u v)) (both j k) ≡ both (u * 2 + j) (v * 2 + k)
    unfolding both
    both_step u v j k =
        ap (λ x. plus x (both j k)) (nmul-plus grp 2 _ _ ∙ ap₂ plus (twice u H) (twice v Q))
        ∙ plus_interchange grp _ _ _ _
        ∙ sym (ap₂ plus (nmul-add grp (u * 2) j H) (nmul-add grp (v * 2) k Q))
      where
        twice : (n : ℕ) (g : G) → nmul grp 2 (nmul grp n g) ≡ nmul grp (n * 2) g
        twice n g = sym (nmul-mul grp 2 n g) ∙ ap (λ k. nmul grp k g) (omega arith)

    digits_point-pairs :
        (u v : ℕ) (us vs : List ℕ)
        → length us ≡ length vs
        → Below 2 us
        → Below 2 vs
        → digits_point rep 2 pair_point (both u v) (digit_pairs us vs)
          ≡ both (horner 2 u us) (horner 2 v vs)
    unfolding digits_point digit_pairs horner
    digits_point-pairs u v [] [] e l k = refl
    digits_point-pairs u v [] (k' ∷ vs) e l k = absurd (omega arith)
    digits_point-pairs u v (j ∷ us) [] e l k = absurd (omega arith)
    digits_point-pairs u v (j ∷ us) (i ∷ vs) e l k =
        ap (λ a. digits_point rep 2 pair_point a (digit_pairs us vs))
          (ap (plus (nmul grp 2 (both u v))) (pair_point-pair j i l.0 k.0) ∙ both_step u v j i)
        ∙ digits_point-pairs (u * 2 + j) (v * 2 + i) us vs (omega arith) l.1 k.1

    pair_table :
        (X Y : J)
        → Shows rep X H
        → Shows rep Y Q
        → Names rep pair_point (ec.infinity ∷ X ∷ Y ∷ ec.add X Y ∷ [])
    unfolding pair_point nmul
    pair_table X Y s t = (
      Shows-eq rep (Shows-infinity rep) (sym none),
      (
        Shows-eq rep s (sym (plus_zero _ ∙ plus_zero H)),
        (
          Shows-eq rep t (sym (zero_plus grp _ ∙ plus_zero Q)),
          (Shows-eq rep (Shows-add rep X Y s t) (sym (ap₂ plus (plus_zero H) (plus_zero Q))), tt),
        ),
      ),
    )
      where
        none : plus zero_point zero_point ≡ zero_point
        none = plus_zero zero_point

    pairs-Shows :
        (X Y : J) (us vs : List ℕ)
        → Shows rep X H
        → Shows rep Y Q
        → length us ≡ length vs
        → 0 < length us
        → Below 2 us
        → Below 2 vs
        → (R : J) × (window_start ec ec.double
              (ec.infinity ∷ X ∷ Y ∷ ec.add X Y ∷ [])
              (digit_pairs us vs)
            ≡ ok R)
          × Shows rep R (both (horner 2 0 us) (horner 2 0 vs))
    unfolding digit_pairs
    pairs-Shows X Y [] vs s t e h l k = absurd (omega arith)
    pairs-Shows X Y (j ∷ us) [] s t e h l k = absurd (omega arith)
    pairs-Shows X Y (j ∷ us) (i ∷ vs) s t e h l k =
        let (R, f, r) =
          window_start-Shows rep 2 ec.double pair_point (ec.infinity ∷ X ∷ Y ∷ ec.add X Y ∷ [])
            (j + 2 * i) (digit_pairs us vs) scales (pair_table X Y s t)
            (Below-pairs (j ∷ us) (i ∷ vs) l k) in
        (
          R,
          f,
          Shows-eq rep r (
              ap (λ a. digits_point rep 2 pair_point a (digit_pairs us vs))
                (pair_point-pair j i l.0 k.0)
              ∙ digits_point-pairs j i us vs (omega arith) l.1 k.1
              ∙ ap₂ both (first_digit 2 j us) (first_digit 2 i vs)),
        )
      where
        scales : (Z : J) (a : G) → Shows rep Z a → Shows rep (ec.double Z) (nmul grp 2 a)
        scales Z a z =
            Shows-eq rep (Shows-double rep Z z) (unfold nmul in ap (plus a) (sym (plus_zero a)))

  -- For formulas that implement an abelian group and tuples that stand for the points H and
  -- Q, _double_mult_var returns a tuple that stands for u * H + v * Q, for all u and v that
  -- are not negative.
  pub double_mult_var-Shows :
      (u v : ℕ) (HJ QJ : J) {H Q : G}
      → Shows rep HJ H
      → Shows rep QJ Q
      → (R : J) × (double_mult_var (pos u) HJ (pos v) QJ ec ≡ ok R)
        × Shows rep R (plus (nmul grp u H) (nmul grp v Q))
  unfolding double_mult_var both
  double_mult_var-Shows u v HJ QJ {H} {Q} s t =
      let ui = binary u in
      let vi = zfill (binary v) (length ui) in
      let ui' = zfill ui (length vi) in
      let (R, e, r) =
        pairs-Shows H Q HJ QJ ui' vi s t
          (omega (arith, length-zfill ui (length vi), length-zfill (binary v) (length ui)))
          (omega (arith, length-zfill ui (length vi), binary_not_empty u))
          (Below-zfill ui (length vi) (binary-Below u))
          (Below-zfill (binary v) (length ui) (binary-Below v)) in
      (
        R,
        e,
        Shows-eq rep r (
            ap₂ (both H Q) (horner-zfill ui (length vi) ∙ binary-value u)
              (horner-zfill (binary v) (length ui) ∙ binary-value v)),
      )
