-- ===== src/Points/Laws.antt =====
-- What the operations on points compute, in the terms of the group.
use ellipticcurves.Prelude.{
  positive_test, ℕ, ◌+◌, ◌-◌, ◌%◌, ◌<◌, ◌≤◌, ◌≡◌, ◌≢◌, refl, sym, ap, ◌∙◌, subst, arith, Bool, true,
  false, List, [], ◌∷◌, map, ◌==◌, ==_iff,
}
use ellipticcurves.Curve.{Point}
use ellipticcurves.Group.{AbelianGroup, nmul}
use ellipticcurves.Group.Multiple.{
  nmul-mod, nmul-add, nmul-minus, minus-plus, minus_unique, minus-zero_point, zero_plus,
}
use ellipticcurves.Ssa.{SsaOps}
use ellipticcurves.Points.{PointArith, same_point, add_up, sum_var, tweak_add_var}
use ellipticcurves.Points.Interface.{ImplementsPoints}

pub same_point_lem : (P Q : Point) → P ≡ Q → same_point P Q ≡ true
same_point_lem P Q e =
    rw (
      (==_iff P.x Q.x).1 (ap (λ (P : Point). P.x) e),
      (==_iff P.y Q.y).1 (ap (λ (P : Point). P.y) e),
    )

module _ {G : Type 0} (grp : AbelianGroup G) where
  open grp use {zero_point, plus, minus, plus_comm}

  -- The opposite where the test holds.
  abbrev pub turn : Bool → G → G
  turn true a = minus a
  turn false a = a

  pub turn-plus : (t : Bool) (a b : G) → turn t (plus a b) ≡ plus (turn t a) (turn t b)
  turn-plus true a b = minus-plus grp a b
  turn-plus false a b = refl

  pub nmul-turn : (t : Bool) (k : ℕ) (a : G) → nmul grp k (turn t a) ≡ turn t (nmul grp k a)
  nmul-turn true k a = nmul-minus grp k a
  nmul-turn false k a = refl

  pub turn-zero_point : (t : Bool) → turn t zero_point ≡ zero_point
  turn-zero_point true = minus-zero_point grp
  turn-zero_point false = refl

  pub turn-turn : (t : Bool) (a : G) → turn t (turn t a) ≡ a
  turn-turn true a = sym (minus_unique grp (minus a) a (plus_comm (minus a) a ∙ grp.plus_minus a))
  turn-turn false a = refl

  unfoldable pub total : List G → G
  total [] = zero_point
  total (a ∷ elements) = plus a (total elements)

module _ {G : Type 0} {points : PointArith} {ops : SsaOps} {grp : AbelianGroup G}
    (impl : ImplementsPoints points ops grp) where
  open grp use {zero_point, plus, minus, plus_assoc, plus_comm}
  open impl use {point_of}

  pub nmul_cong : (k l : ℕ) (a : G) → k % ops.ec.n ≡ l % ops.ec.n → nmul grp k a ≡ nmul grp l a
  nmul_cong k l a e =
      nmul-mod grp ops.ec.n k a (impl.order_all a)
      ∙ ap (λ m. nmul grp m a) e
      ∙ sym (nmul-mod grp ops.ec.n l a (impl.order_all a))

  pub nmul_rest : (k : ℕ) (a : G) → nmul grp (k % ops.ec.n) a ≡ nmul grp k a
  nmul_rest k a = sym (nmul-mod grp ops.ec.n k a (impl.order_all a))

  pub nmul_opposite :
      (k : ℕ) (a : G) → k ≤ ops.ec.n → nmul grp (ops.ec.n - k) a ≡ minus (nmul grp k a)
  nmul_opposite k a h = minus_unique grp (nmul grp k a) (nmul grp (ops.ec.n - k) a) (
      sym (nmul-add grp k (ops.ec.n - k) a)
      ∙ ap (λ m. nmul grp m a) {x = k + (ops.ec.n - k)} {y = ops.ec.n} (omega arith)
      ∙ impl.order_all a)

  -- A point other than infinity has a y-coordinate other than zero.
  pub y_of_finite : (a : G) → a ≢ zero_point → ((point_of a).y == 0) ≡ false
  y_of_finite a n =
      positive_test _ (subst (λ (P : Point). 0 < P.y) (sym (impl.finite a n)) (impl.y_positive a n))

  pub finite_of_y : (P : Point) (a : G) → P ≡ point_of a → (P.y == 0) ≡ false → a ≢ zero_point
  finite_of_y P a e t z =
      true_not_false (sym (ap (λ (P : Point). P.y == 0) (e ∙ ap point_of z ∙ impl.infinite)) ∙ t)
    where
      true_not_false : true ≡ false → ⊥
      true_not_false q = cc

  add_up_lem :
      (a : G) (elements : List G)
      → add_up points (point_of a) (map point_of elements) ≡ point_of (plus a (total grp elements))
  unfolding add_up total
  add_up_lem a [] = ap point_of (sym (grp.plus_zero a))
  add_up_lem a (b ∷ elements) =
      ap (λ P. add_up points P (map point_of elements)) (impl.add_aff_lem a b)
      ∙ add_up_lem (plus a b) elements
      ∙ ap point_of (plus_assoc a b (total grp elements))

  pub sum_var_lem :
      (elements : List G) → sum_var points (map point_of elements) ≡ point_of (total grp elements)
  unfolding sum_var
  sum_var_lem elements =
      ap (λ P. add_up points P (map point_of elements)) (sym impl.infinite)
      ∙ add_up_lem zero_point elements
      ∙ ap point_of (zero_plus grp (total grp elements))

  pub tweak_add_var_lem :
      (a : G) (t : ℕ)
      → tweak_add_var points (point_of a) t ≡ point_of (plus a (nmul grp t impl.base.base.g))
  unfolding tweak_add_var
  tweak_add_var_lem a t =
      ap (λ P. points.add (point_of a) (points.mult t P)) impl.gen_lem
      ∙ ap (points.add (point_of a)) (impl.mult_lem t impl.base.base.g)
      ∙ impl.add_lem a (nmul grp t impl.base.base.g)
