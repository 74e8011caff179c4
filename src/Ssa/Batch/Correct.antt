-- ===== src/Ssa/Batch/Correct.antt =====
-- ecc/ssa.py: a batch of signatures that are valid one by one is accepted, whatever the random
-- coefficients are.
use ellipticcurves.Prelude.{
  ℕ, suc, ◌+◌, ◌*◌, ◌%◌, ◌<◌, ◌≡◌, refl, sym, ap, ap₂, ◌∙◌, arith, List, [], ◌∷◌, map, length,
  ==_iff,
}
use ellipticcurves.Prelude.Result.{ok}
use ellipticcurves.Curve.{Point}
use ellipticcurves.Group.{AbelianGroup, nmul, sum_of}
use ellipticcurves.Group.Multiple.{nmul-add}
use ellipticcurves.Points.Laws.{same_point_lem}
use ellipticcurves.Ssa.{Sig}
use ellipticcurves.Ssa.Batch.{
  BatchOps, even_points, multi_mult_x_only, Terms, add_term, batch_terms, batch_equation,
  assert_batch_as_valid, assert_each_valid,
}
use ellipticcurves.Ssa.Batch.Interface.{ImplementsBatch, All}
use ellipticcurves.Ssa.Batch.Term.{
  Even, InRange, EachValid, IsTerm, term_sum, product-InRange, IsTerm-of, in_subgroup_lem,
  in_field_lem,
}

module _ {G Msg : Type 0} {batch : BatchOps Msg} {grp : AbelianGroup G}
    (impl : ImplementsBatch batch grp) where
  open batch use {ops, challenge}
  open grp use {zero_point, plus, plus_assoc, plus_comm, plus_zero}
  open impl.base.base use {Shows, g, x_of, y_of}

  -- What the loop returns for signatures that are valid one by one.
  record AddUp (count : ℕ) (terms : Terms batch) : Type 0 where
    pub points : List G
    pub two_points : length points ≡ count + count
    pub two_scalars : length terms.scalars ≡ count + count
    pub even : All (Even impl) points
    pub in_range : All (InRange impl) terms.scalars
    pub coordinates : terms.x_coords ≡ map x_of points
    pub equation : sum_of grp terms.scalars points ≡ nmul grp terms.t g

  add_equation :
      (rand c x_Q : ℕ) (sig : Sig) (terms : Terms batch) (K Q : G)
      → c < ops.ec.n
      → IsTerm impl x_Q sig c K Q
      → (points : List G) → sum_of grp terms.scalars points ≡ nmul grp terms.t g
      → sum_of grp (add_term batch rand c x_Q sig terms).scalars (K ∷ Q ∷ points)
        ≡ nmul grp (add_term batch rand c x_Q sig terms).t g
  unfolding sum_of
  add_equation rand c x_Q sig terms K Q h t points e =
      sym (
        plus_assoc (nmul grp rand K) (nmul grp (rand * c % ops.ec.n) Q)
          (sum_of grp terms.scalars points))
      ∙ ap₂ plus (term_sum impl rand c x_Q sig K Q h t) e
      ∙ sym (nmul-add grp (rand * sig.s) terms.t g)

  batch_terms-AddUp :
      (rands : List ℕ) (msgs : List Msg) (Qs : List ℕ) (sigs : List Sig)
      → length rands ≡ length sigs
      → All (InRange impl) rands
      → EachValid impl msgs Qs sigs
      → (assert_each_valid batch sigs ≡ ok tt)
        × ((terms : Terms batch) × (batch_terms batch rands msgs Qs sigs ≡ ok terms)
            × AddUp (length sigs) terms)
  unfolding batch_terms assert_each_valid
  batch_terms-AddUp [] [] [] [] l r v = (
    refl,
    (
      record { t = 0; scalars = []; x_coords = [] },
      refl,
      record {
        points = [];
        two_points = refl;
        two_scalars = refl;
        even = tt;
        in_range = tt;
        coordinates = refl;
        equation = unfold sum_of nmul in refl;
      },
    ),
  )
  batch_terms-AddUp (rand ∷ rands) (msg ∷ msgs) (x_Q ∷ Qs) (sig ∷ sigs) l r v =
      let (valid, (c, e, range, K, Q, t)) = IsTerm-of impl msg x_Q sig v.0 in
      let (each, (terms, f, a)) = batch_terms-AddUp rands msgs Qs sigs (omega arith) r.1 v.1 in
      (
        rw (valid, each),
        (
          add_term batch rand c x_Q sig terms,
          rw (in_field_lem impl x_Q sig c K Q t, in_subgroup_lem impl x_Q sig c K Q t, e, f),
          record {
            points = K ∷ Q ∷ a.points;
            two_points = omega (arith, a.two_points);
            two_scalars = omega (arith, a.two_scalars);
            even = (t.even_K, (t.even_Q, a.even));
            in_range = (r.0, (product-InRange impl rand c r.0 range, a.in_range));
            coordinates =
                ap₂ (λ x xs. x ∷ xs) (sym t.x_K)
                  (ap₂ (λ x xs. x ∷ xs) (sym t.x_of_Q) a.coordinates);
            equation = add_equation rand c x_Q sig terms K Q range.1 t a.points a.equation;
          },
        ),
      )
  batch_terms-AddUp (rand ∷ rands) [] [] [] l r v = absurd (omega arith)
  batch_terms-AddUp [] (msg ∷ msgs) (x_Q ∷ Qs) (sig ∷ sigs) l r v = absurd (omega arith)
  batch_terms-AddUp rands [] [] (sig ∷ sigs) l r v = absurd v
  batch_terms-AddUp rands [] (x_Q ∷ Qs) sigs l r v = absurd v
  batch_terms-AddUp rands (msg ∷ msgs) [] sigs l r v = absurd v
  batch_terms-AddUp rands (msg ∷ msgs) (x_Q ∷ Qs) [] l r v = absurd v

  abbrev affine_of : G → Point
  affine_of a = record { x = x_of a; y = y_of a }

  even_points_lem :
      (elements : List G)
      → All (Even impl) elements
      → even_points batch (map x_of elements) ≡ ok (map affine_of elements)
  unfolding even_points
  even_points_lem [] h = refl
  even_points_lem (a ∷ elements) h =
      rw
        (impl.base.base.lift a h.0.0, (==_iff (y_of a % 2) 0).1 h.0.1, even_points_lem elements h.1)
        refl

  multi_mult_x_only_lem :
      (ks : List ℕ) (elements : List G)
      → length ks ≡ length elements
      → 1 < length elements
      → All (InRange impl) ks
      → All (Even impl) elements
      → multi_mult_x_only batch ks (map x_of elements) ≡ ok (impl.point_of (sum_of grp ks elements))
  unfolding multi_mult_x_only
  multi_mult_x_only_lem ks elements same enough r h =
      rw (even_points_lem elements h) (impl.multi_mult_lem ks elements same enough r h)

  pub batch_equation_lem :
      (rands : List ℕ) (msgs : List Msg) (Qs : List ℕ) (sigs : List Sig)
      → length rands ≡ length sigs
      → All (InRange impl) rands
      → EachValid impl msgs Qs sigs
      → 0 < length sigs
      → batch_equation batch rands msgs Qs sigs ≡ ok tt
  unfolding batch_equation
  batch_equation_lem rands msgs Qs sigs l r v some_sig =
      let (each, (terms, f, a)) = batch_terms-AddUp rands msgs Qs sigs l r v in
      let total = point_total (length sigs) some_sig terms a in
      rw (
        each,
        f,
        total,
        same_point_lem (ops.ec.mult_gen terms.t) (impl.point_of (nmul grp terms.t g))
            (impl.mult_gen_lem terms.t),
      )
    where
      point_total :
          (count : ℕ)
          → 0 < count
          → (terms : Terms batch) → AddUp count terms
          → multi_mult_x_only batch terms.scalars terms.x_coords
            ≡ ok (impl.point_of (nmul grp terms.t g))
      point_total count h terms a =
          ap (multi_mult_x_only batch terms.scalars) a.coordinates
          ∙ multi_mult_x_only_lem terms.scalars a.points (a.two_scalars ∙ sym a.two_points)
              (omega (arith, a.two_points, h)) a.in_range a.even
          ∙ ap (λ P. ok (impl.point_of P)) a.equation

  one-InRange : {c : ℕ} → InRange impl c → InRange impl 1
  one-InRange h = (omega arith, omega (arith, h.0, h.1))

  same_lengths :
      (msgs : List Msg) (Qs : List ℕ) (sigs : List Sig)
      → EachValid impl msgs Qs sigs
      → (length msgs ≡ length Qs) × (length sigs ≡ length Qs)
  same_lengths [] [] [] v = (refl, refl)
  same_lengths (msg ∷ msgs) (x_Q ∷ Qs) (sig ∷ sigs) v =
      let (e, f) = same_lengths msgs Qs sigs v.1 in (ap suc e, ap suc f)
  same_lengths [] [] (sig ∷ sigs) v = absurd v
  same_lengths [] (x_Q ∷ Qs) sigs v = absurd v
  same_lengths (msg ∷ msgs) [] sigs v = absurd v
  same_lengths (msg ∷ msgs) (x_Q ∷ Qs) [] v = absurd v

  -- For the operations of a curve whose generator has prime order n, a challenge that is from
  -- 1 to n - 1 where there is one, lifts that are of order n and a multi_mult_var that
  -- returns the sum of the multiples for as many scalars from 1 to n - 1 as points with an
  -- even y, two at least; and for as many messages, keys and drawn coefficients from 1 to n -
  -- 1, the first being 1, as signatures, at least one, that are valid one by one:
  -- assert_batch_as_valid_ accepts the batch.
  pub assert_batch_as_valid_lem :
      (rands : List ℕ) (msgs : List Msg) (Qs : List ℕ) (sigs : List Sig)
      → suc (length rands) ≡ length sigs
      → All (InRange impl) rands
      → EachValid impl msgs Qs sigs
      → assert_batch_as_valid batch rands msgs Qs sigs ≡ ok tt
  unfolding assert_batch_as_valid
  assert_batch_as_valid_lem rands (msg ∷ []) (x_Q ∷ []) (sig ∷ []) l r v = v.0
  assert_batch_as_valid_lem rands (msg ∷ msg' ∷ msgs) (x_Q ∷ x_Q' ∷ Qs) (sig ∷ sig' ∷ sigs) l r v =
      let (valid, (c, e, range, K, Q, t)) = IsTerm-of impl msg x_Q sig v.0 in
      let (e1, e2) = same_lengths (msg ∷ msg' ∷ msgs) (x_Q ∷ x_Q' ∷ Qs) (sig ∷ sig' ∷ sigs) v in
      rw (
        (==_iff (length (msg ∷ msg' ∷ msgs)) (length (x_Q ∷ x_Q' ∷ Qs))).1 e1,
        (==_iff (length (sig ∷ sig' ∷ sigs)) (length (x_Q ∷ x_Q' ∷ Qs))).1 e2,
        batch_equation_lem (1 ∷ rands) (msg ∷ msg' ∷ msgs) (x_Q ∷ x_Q' ∷ Qs) (sig ∷ sig' ∷ sigs) l
            (one-InRange range, r) v (omega arith),
      )
  assert_batch_as_valid_lem rands [] [] [] l r v = absurd (omega arith)
  assert_batch_as_valid_lem rands [] [] (sig ∷ sigs) l r v = absurd v
  assert_batch_as_valid_lem rands [] (x_Q ∷ Qs) sigs l r v = absurd v
  assert_batch_as_valid_lem rands (msg ∷ msgs) [] sigs l r v = absurd v
  assert_batch_as_valid_lem rands (msg ∷ msgs) (x_Q ∷ Qs) [] l r v = absurd v
  assert_batch_as_valid_lem rands (msg ∷ []) (x_Q ∷ []) (sig ∷ sig' ∷ sigs) l r v = absurd v.1
  assert_batch_as_valid_lem rands (msg ∷ []) (x_Q ∷ x_Q' ∷ Qs) (sig ∷ sigs) l r v = absurd v.1
  assert_batch_as_valid_lem rands (msg ∷ msg' ∷ msgs) (x_Q ∷ []) (sig ∷ sigs) l r v = absurd v.1
  assert_batch_as_valid_lem rands (msg ∷ msg' ∷ msgs) (x_Q ∷ x_Q' ∷ Qs) (sig ∷ []) l r v =
      absurd v.1
