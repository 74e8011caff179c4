-- ===== src/Curve/Roots/OnCurve.antt =====
-- curves/curve_group.py: the y-coordinates that are found belong to points of the curve.
use native.Mathlib.Nat
use ellipticcurves.Prelude.{
  passed_lt, lt→ltb, ℕ, ◌+◌, ◌-◌, ◌*◌, ◌/◌, ◌%◌, ◌<◌, ◌≤◌, ◌≡◌, refl, sym, ◌∙◌, subst, inl, inr,
  arith, true, false, Bool-cases, ltb, leb, ◌==◌, ==_iff, not, if◌then◌else◌,
}
use ellipticcurves.Prelude.Int.{pos}
use ellipticcurves.Prelude.Modular.{mod_of_multiples, mod_ℤ-pos}
use ellipticcurves.Prelude.Result.{
  Result, ok, err, ok_inj, >>=-ok, refuse-ok, x_not_in_range, invalid_x,
}
use ellipticcurves.NumberTheory.{or_else}
use ellipticcurves.NumberTheory.Roots.{mod_sqrt_var}
use ellipticcurves.NumberTheory.Roots.Square.{mod_sqrt_var_lem}
use ellipticcurves.NumberTheory.Roots.Bound.{mod_sqrt_var-lt}
use ellipticcurves.Curve.{CurveGroup}
use ellipticcurves.Curve.Affine.{y2, is_on_curve}
use ellipticcurves.Curve.Roots.{y_var, y_even_var, y_low_var}

-- A y-coordinate of x.
abbrev pub IsRootOf : CurveGroup → ℕ → ℕ → Type 0
IsRootOf ec x y = (x < ec.p) × ((y < ec.p) × (y * y % ec.p ≡ y2 ec x))

from_root : (e : Result ℕ) {r : ℕ} → or_else e (err invalid_x) ≡ ok r → e ≡ ok r
unfolding or_else
from_root (ok s) e = e
from_root (err s) e = cc

y_var-IsRootOf : (ec : CurveGroup) (x : ℕ) {y : ℕ} → y_var ec x ≡ ok y → IsRootOf ec x y
unfolding y_var y2
y_var-IsRootOf ec x e =
    let (t, e1) = refuse-ok (not (ltb x ec.p)) x_not_in_range _ e in
    let found = from_root (mod_sqrt_var (pos (y2 ec x)) (pos ec.p)) e1 in
    let l = passed_lt x ec.p t in
    (
      l,
      (
        mod_sqrt_var-lt (pos (y2 ec x)) ec.p found,
        mod_sqrt_var_lem (pos (y2 ec x)) ec.p found
            ∙ mod_ℤ-pos (y2 ec x) ec.p
            ∙ Nat.mod-eq_of_lt (Nat.mod-lt _ (omega (arith, l))),
      ),
    )

opposite_square : (d r : ℕ) → d * d % (d + r) ≡ r * r % (d + r)
opposite_square d r = mod_of_multiples (d + r) (d * d) (r * r) (2 * r) (d + r) (omega arith)

opposite-IsRootOf : (ec : CurveGroup) (x y : ℕ) → 0 < y → IsRootOf ec x y → IsRootOf ec x (ec.p - y)
opposite-IsRootOf ec x y h r = (
  r.0,
  (
    omega (arith, r.1.0, h),
    subst (λ k. (ec.p - y) * (ec.p - y) % k ≡ y * y % k) {x = ec.p - y + y} {y = ec.p}
          (omega (arith, r.1.0)) (opposite_square (ec.p - y) y)
        ∙ r.1.1,
  ),
)

IsRootOf-is_on_curve :
    (ec : CurveGroup) (x y : ℕ)
    → IsRootOf ec x y
    → is_on_curve ec (record { x = x; y = y }) ≡ ok true
unfolding is_on_curve
IsRootOf-is_on_curve ec x y r = rw (lt→ltb x ec.p r.0) (elim (Bool-cases (y == 0)) [
  | inl z ↦ rw z refl
  | inr z ↦ rw (z, lt→ltb y ec.p r.1.0, (==_iff (y2 ec x) (y * y % ec.p)).1 (sym r.1.1)) refl
])

even_root :
    (ec : CurveGroup) (x root : ℕ)
    → ec.p % 2 ≡ 1
    → IsRootOf ec x root
    → IsRootOf ec x (if not (root % 2 == 0) then ec.p - root else root)
      × ((if not (root % 2 == 0) then ec.p - root else root) % 2 ≡ 0)
even_root ec x root o r = elim (Bool-cases (root % 2 == 0)) [
  | inl b ↦ rw b (r, (==_iff (root % 2) 0).0 b)
  | inr b ↦
      rw b (opposite-IsRootOf ec x root (omega (arith, odd b)) r, omega (arith, odd b, o, r.1.0))
]
  where
    odd : (root % 2 == 0) ≡ false → root % 2 ≡ 1
    odd b = ground arith

pub y_even_var-IsRootOf :
    (ec : CurveGroup) (x : ℕ) {y : ℕ}
    → ec.p % 2 ≡ 1
    → y_even_var ec x ≡ ok y
    → IsRootOf ec x y × (y % 2 ≡ 0)
unfolding y_even_var
y_even_var-IsRootOf ec x o e =
    let (root, e1, e2) = >>=-ok (y_var ec x) _ e in
    subst (λ y. IsRootOf ec x y × (y % 2 ≡ 0)) (ok_inj e2)
      (even_root ec x root o (y_var-IsRootOf ec x e1))

low_root :
    (ec : CurveGroup) (x root : ℕ)
    → IsRootOf ec x root
    → IsRootOf ec x (if leb root (ec.p / 2) then root else ec.p - root)
      × ((if leb root (ec.p / 2) then root else ec.p - root) ≤ ec.p / 2)
low_root ec x root r = elim (Bool-cases (leb root (ec.p / 2))) [
  | inl b ↦ rw b (r, below b)
  | inr b ↦
      rw b (opposite-IsRootOf ec x root (omega (arith, above b)) r, omega (arith, above b, r.1.0))
]
  where
    below : leb root (ec.p / 2) ≡ true → root ≤ ec.p / 2
    below b = ground arith

    above : leb root (ec.p / 2) ≡ false → ec.p / 2 < root
    above b = ground arith

-- For an odd p and an x for which y_var finds a y: is_on_curve accepts the point (x, y),
-- y_even_var returns an even y-coordinate and y_low_var one of at most p // 2, and is_on_curve
-- accepts the points of x with these too.
pub y_var-is_on_curve :
    (ec : CurveGroup) (x root : ℕ)
    → ec.p % 2 ≡ 1
    → y_var ec x ≡ ok root
    → (is_on_curve ec (record { x = x; y = root }) ≡ ok true)
      × ((even : ℕ) × (y_even_var ec x ≡ ok even)
          × (is_on_curve ec (record { x = x; y = even }) ≡ ok true)
          × (even % 2 ≡ 0))
      × ((low : ℕ) × (y_low_var ec x ≡ ok low)
          × (is_on_curve ec (record { x = x; y = low }) ≡ ok true)
          × (low ≤ ec.p / 2))
unfolding y_even_var y_low_var
y_var-is_on_curve ec x root o e =
    let r = y_var-IsRootOf ec x e in
    let (even, even_p) = even_root ec x root o r in
    let (low, low_p) = low_root ec x root r in
    (
      IsRootOf-is_on_curve ec x root r,
      (_, rw e refl, IsRootOf-is_on_curve ec x _ even, even_p),
      (_, rw e refl, IsRootOf-is_on_curve ec x _ low, low_p),
    )
