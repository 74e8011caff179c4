-- ===== src/Curve/SmallCurve.antt =====
-- The curve y^2 = x^3 + 4x + 2 over the field of five elements, whose group has three points: the
-- formulas of curves/curve_group.py implement it, which is checked on every tuple of the curve.
pub mod Affine
use ellipticcurves.Prelude.{
  ℕ, ◌*◌, ◌%◌, ◌≡◌, ◌≢◌, refl, ap, sym, ◌∙◌, Bool, true, false, ◌&&◌, ◌||◌, ◌==◌, if◌then◌else◌,
  arith, ◌⊎◌, inl, inr, List, [], ◌∷◌, ℕ_discrete,
}
use ellipticcurves.Prelude.Int.{mod_ℤ, ◌-ℤ◌, ◌*ℤ◌}
use ellipticcurves.Group.{Represents}
use ellipticcurves.Group.Shows.{Shows}
use ellipticcurves.Curve.Cyclic3.{
  Cyclic3, c0, c1, c2, plus3, minus3, plus3_comm, plus3_zero, minus3_zero, cyclic3, same, same→eq,
}
use ellipticcurves.Curve.{
  CurveGroup, JacPoint, inf_j, select_sum, add_jac, add_jac_framed, chord_sum, double_jac,
  double_jac_helper, negate_jac, jac_ops,
}
use ellipticcurves.Curve.Infinity.{add_jac-infinity, double_jac-infinity}

abbrev pub small : CurveGroup
small = record { p = 5; a = 4; b = 2 }

abbrev pub jac : ℕ → ℕ → ℕ → JacPoint
jac x y z = record { x = x; y = y; z = z }

-- Every tuple of the two finite points, (3, 1) and (3, 4).
abbrev finite_tuples : List JacPoint
finite_tuples =
    jac 3 1 1
    ∷ jac 3 4 1
    ∷ jac 2 3 2
    ∷ jac 2 2 2
    ∷ jac 2 2 3
    ∷ jac 2 3 3
    ∷ jac 3 4 4
    ∷ jac 3 1 4
    ∷ []

one_of : List JacPoint → JacPoint → Bool
one_of [] Q = false
one_of (P ∷ Ps) Q = (P.x == Q.x && (P.y == Q.y && P.z == Q.z)) || one_of Ps Q

pub on_small : JacPoint → Bool
on_small Q = Q.z == 0 || one_of finite_tuples Q

-- Which element of the group a tuple stands for: (3, 1) is the generator.
pub view_small : JacPoint → Cyclic3
view_small Q = if Q.z == 0 then c0 else (if Q.y == Q.z * Q.z * Q.z % 5 then c1 else c2)

all_of : List JacPoint → (JacPoint → Bool) → Bool
all_of [] f = true
all_of (P ∷ Ps) f = f P && all_of Ps f

all_of_sound :
    (Ps : List JacPoint) (f : JacPoint → Bool) (Q : JacPoint)
    → all_of Ps f ≡ true
    → one_of Ps Q ≡ true
    → f Q ≡ true
unfolding all_of one_of
all_of_sound [] f Q h m = cc
all_of_sound (P ∷ Ps) f Q h m = ground (arith, all_of_sound Ps f Q, same_tuple f P Q)
  where
    same_tuple :
        (f : JacPoint → Bool) (P Q : JacPoint) → P.x ≡ Q.x → P.y ≡ Q.y → P.z ≡ Q.z → f P ≡ f Q
    same_tuple f P Q a b c = λ i. f (record { x = a i; y = b i; z = c i })

add_check : JacPoint → JacPoint → Bool
unfolding on_small one_of view_small plus3 same add_jac add_jac_framed chord_sum select_sum
    double_jac_helper ◌-ℤ◌ ◌*ℤ◌ mod_ℤ
add_check P Q =
    on_small (add_jac small P Q)
    && same (view_small (add_jac small P Q)) (plus3 (view_small P) (view_small Q))

double_check : JacPoint → Bool
unfolding on_small one_of view_small plus3 same double_jac ◌-ℤ◌ ◌*ℤ◌ mod_ℤ
double_check P =
    on_small (double_jac small P)
    && same (view_small (double_jac small P)) (plus3 (view_small P) (view_small P))

negate_check : JacPoint → Bool
unfolding on_small one_of view_small minus3 same negate_jac ◌-ℤ◌ mod_ℤ
negate_check P =
    on_small (negate_jac small P) && same (view_small (negate_jac small P)) (minus3 (view_small P))

add_table : all_of finite_tuples (λ P. all_of finite_tuples (add_check P)) ≡ true
unfolding all_of add_check
add_table = refl

double_table : all_of finite_tuples double_check ≡ true
unfolding all_of double_check
double_table = refl

negate_table : all_of finite_tuples negate_check ≡ true
unfolding all_of negate_check
negate_table = refl

abbrev On : JacPoint → Type 0
On Q = on_small Q ≡ true

or_right : (a b : Bool) → (a || b) ≡ true → a ≡ false → b ≡ true
or_right a b h e = ground arith

and_true : (a b : Bool) → (a && b) ≡ true → (a ≡ true) × (b ≡ true)
and_true a b h = (ground arith, ground arith)

not_zero : (n : ℕ) → n ≢ 0 → (n == 0) ≡ false
not_zero n h = ground arith

On-cases : (Q : JacPoint) → On Q → (Q.z ≡ 0) ⊎ ((Q.z ≢ 0) × (one_of finite_tuples Q ≡ true))
unfolding on_small
On-cases Q h = elim (ℕ_discrete Q.z 0) [
  | yes e ↦ inl e
  | no n ↦ inr (n, or_right (Q.z == 0) _ h (not_zero Q.z n))
]

On-infinity : (Q : JacPoint) → Q.z ≡ 0 → On Q
unfolding on_small
On-infinity Q h = rw h

view_at_infinity : (Q : JacPoint) → Q.z ≡ 0 → view_small Q ≡ c0
unfolding view_small
view_at_infinity Q h = rw h

add_entry :
    (P Q : JacPoint)
    → add_check P Q ≡ true
    → (on_small (add_jac small P Q) ≡ true)
      × (same (view_small (add_jac small P Q)) (plus3 (view_small P) (view_small Q)) ≡ true)
unfolding add_check
add_entry P Q h =
    and_true (on_small (add_jac small P Q))
      (same (view_small (add_jac small P Q)) (plus3 (view_small P) (view_small Q))) h

double_entry :
    (P : JacPoint)
    → double_check P ≡ true
    → (on_small (double_jac small P) ≡ true)
      × (same (view_small (double_jac small P)) (plus3 (view_small P) (view_small P)) ≡ true)
unfolding double_check
double_entry P h =
    and_true (on_small (double_jac small P))
      (same (view_small (double_jac small P)) (plus3 (view_small P) (view_small P))) h

negate_entry :
    (P : JacPoint)
    → negate_check P ≡ true
    → (on_small (negate_jac small P) ≡ true)
      × (same (view_small (negate_jac small P)) (minus3 (view_small P)) ≡ true)
unfolding negate_check
negate_entry P h =
    and_true (on_small (negate_jac small P))
      (same (view_small (negate_jac small P)) (minus3 (view_small P))) h

-- The sum is on the curve, and it is the sum of the elements.
add_law :
    (P Q : JacPoint)
    → On P
    → On Q
    → On (add_jac small P Q)
      × (view_small (add_jac small P Q) ≡ plus3 (view_small P) (view_small Q))
add_law P Q p q = elim (On-cases P p) [
  | inl pz ↦ elim (On-cases Q q) [
    | inl qz ↦
        rw ((add_jac-infinity small P Q).2 pz qz, view_at_infinity P pz, view_at_infinity Q qz)
          (On-infinity inf_j refl, view_at_infinity inf_j refl ∙ sym (plus3_zero c0))
    | inr (qz, _) ↦
        rw ((add_jac-infinity small P Q).0 pz qz, view_at_infinity P pz)
          (q, sym (plus3_comm c0 _ ∙ plus3_zero _))
  ]
  | inr (pz, pt) ↦ elim (On-cases Q q) [
    | inl qz ↦
        rw ((add_jac-infinity small P Q).1 pz qz, view_at_infinity Q qz) (p, sym (plus3_zero _))
    | inr (_, qt) ↦
        let row =
          all_of_sound finite_tuples (λ X. all_of finite_tuples (add_check X)) P add_table pt in
        let entry = add_entry P Q (all_of_sound finite_tuples (add_check P) Q row qt) in
        (entry.0, same→eq _ _ entry.1)
  ]
]

double_law :
    (P : JacPoint)
    → On P
    → On (double_jac small P)
      × (view_small (double_jac small P) ≡ plus3 (view_small P) (view_small P))
double_law P p = elim (On-cases P p) [
  | inl pz ↦
      let z = double_jac-infinity small P (inl pz) in
      (
        On-infinity _ z,
        view_at_infinity _ z ∙ sym (ap (λ a. plus3 a a) (view_at_infinity P pz) ∙ plus3_zero c0),
      )
  | inr (_, pt) ↦
      let entry = double_entry P (all_of_sound finite_tuples double_check P double_table pt) in
      (entry.0, same→eq _ _ entry.1)
]

negate_z : (P : JacPoint) → P.z ≡ 0 → (negate_jac small P).z ≡ 0
unfolding negate_jac
negate_z P h = h

negate_law :
    (P : JacPoint)
    → On P
    → On (negate_jac small P) × (view_small (negate_jac small P) ≡ minus3 (view_small P))
negate_law P p = elim (On-cases P p) [
  | inl pz ↦
      let z = negate_z P pz in
      (
        On-infinity _ z,
        view_at_infinity _ z ∙ sym (ap minus3 (view_at_infinity P pz) ∙ minus3_zero),
      )
  | inr (_, pt) ↦
      let entry = negate_entry P (all_of_sound finite_tuples negate_check P negate_table pt) in
      (entry.0, same→eq _ _ entry.1)
]

-- The Jacobian formulas implement the group of this curve.
pub small_represents : Represents (jac_ops small) cyclic3
unfolding jac_ops
small_represents = record {
  On = On;
  view = view_small;
  On-infinity = On-infinity inf_j refl;
  On-add = λ P Q p q. (add_law P Q p q).0;
  On-double = λ P p. (double_law P p).0;
  On-negate = λ P p. (negate_law P p).0;
  view-infinity = view_at_infinity inf_j refl;
  view-add = λ P Q p q. (add_law P Q p q).1;
  view-double = λ P p. (double_law P p).1;
  view-negate = λ P p. (negate_law P p).1;
}

-- The tuples that the runs use: (3, 1) with third coordinate 2, and the point (3, 4).
abbrev pub generator : JacPoint
generator = jac 2 3 2

abbrev pub opposite : JacPoint
opposite = jac 3 4 1

pub generator-Shows : Shows small_represents generator c1
unfolding small_represents on_small one_of view_small
generator-Shows = record { on = refl; value = refl }

pub opposite-Shows : Shows small_represents opposite c2
unfolding small_represents on_small one_of view_small
opposite-Shows = record { on = refl; value = refl }
