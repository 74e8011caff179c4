-- ===== src/NumberTheory/Euclid.antt =====
-- The cofactors of `xgcd_var` are those of Bézout's identity, and its `g` is the greatest common
-- divisor.
use mathlib.Core.WellFounded.{Acc}
use Prim.Native.Nat.{◌∣◌}
use native.Mathlib.Nat
use ellipticcurves.Prelude.{ℕ, zero, suc, ◌+◌, ◌*◌, ◌/◌, ◌%◌, ◌<◌, ◌≡◌, ap, ◌∙◌, arith, subst}
use ellipticcurves.Prelude.Int.{
  ℤ, pos, pos_part, neg_part, ◌-ℤ◌, ◌*ℤ◌, -ℤ_parts, pos_part-*ℤ, neg_part-*ℤ,
}
use ellipticcurves.Prelude.Order.{lt_wf}
use ellipticcurves.NumberTheory.{Cofactors, Bezout, rem_lt, advance, xgcd_loop, xgcd_var}

-- A * x + B * y = v, over the natural numbers.
abbrev pub Combines : ℕ → ℕ → ℤ → ℤ → ℕ → Type 0
Combines A B x y v = A * pos_part x + B * pos_part y ≡ v + A * neg_part x + B * neg_part y

minus_product :
    (x0 x1 : ℤ) (q : ℕ)
    → pos_part (x0 -ℤ pos q *ℤ x1) + neg_part x0 + q * pos_part x1
      ≡ neg_part (x0 -ℤ pos q *ℤ x1) + pos_part x0 + q * neg_part x1
minus_product x0 x1 q =
    omega (arith, -ℤ_parts x0 (pos q *ℤ x1), pos_part-*ℤ (pos q) x1, neg_part-*ℤ (pos q) x1)

advance-Combines :
    (A B q r s : ℕ) (c : Cofactors)
    → Combines A B c.x0 c.y0 (q * r + s)
    → Combines A B c.x1 c.y1 r
    → Combines A B (advance q c).x1 (advance q c).y1 s
unfolding advance
advance-Combines A B q r s c e f = omega (
  arith,
  ap (λ (t : ℕ). A * t) (minus_product c.x0 c.x1 q),
  ap (λ (t : ℕ). B * t) (minus_product c.y0 c.y1 q),
  ap (λ (t : ℕ). q * t) f,
)

xgcd_loop-Combines :
    (A B a b : ℕ) (w : Acc ◌<◌ a) (c : Cofactors)
    → Combines A B c.x0 c.y0 b
    → Combines A B c.x1 c.y1 a
    → Combines A B (xgcd_loop a b w c).x (xgcd_loop a b w c).y (xgcd_loop a b w c).g
unfolding xgcd_loop
xgcd_loop-Combines A B zero b (Acc.intro _ smaller) c e f = e
xgcd_loop-Combines A B (suc n) b (Acc.intro _ smaller) c e f =
    xgcd_loop-Combines A B (b % suc n) (suc n) (smaller (b % suc n) (rem_lt b n))
      (advance (b / suc n) c) (unfold advance in f)
      (advance-Combines A B (b / suc n) (suc n) (b % suc n) c
        (omega (arith, e, Nat.div-add-mod' b (suc n))) f)

xgcd_loop-dvd :
    (a b : ℕ) (w : Acc ◌<◌ a) (c : Cofactors)
    → ((xgcd_loop a b w c).g ∣ a) × ((xgcd_loop a b w c).g ∣ b)
unfolding xgcd_loop
xgcd_loop-dvd zero b (Acc.intro _ smaller) c = (Nat.dvd-zero b, Nat.dvd_refl b)
xgcd_loop-dvd (suc n) b (Acc.intro _ smaller) c =
    let (r, d) =
      xgcd_loop-dvd (b % suc n) (suc n) (smaller (b % suc n) (rem_lt b n))
        (advance (b / suc n) c) in
    (d, (Nat.dvd-mod_iff _ d).0 r)

dvd-combination : (d A B v : ℕ) (x y : ℤ) → Combines A B x y v → d ∣ A → d ∣ B → d ∣ v
dvd-combination d A B v x y e a b =
    (Nat.dvd-add_iff_left d (
        Nat.dvd-add d (Nat.dvd-mul_right_of_dvd d a (neg_part x))
          (Nat.dvd-mul_right_of_dvd d b (neg_part y)))).1
      (subst (◌∣◌ d) (e ∙ omega arith) (
        Nat.dvd-add d (Nat.dvd-mul_right_of_dvd d a (pos_part x))
          (Nat.dvd-mul_right_of_dvd d b (pos_part y))))

-- What `xgcd_var` promises of its result (g, x, y): a * x + b * y = g, and `g` divides both.
pub record IsBezout (a b : ℕ) (r : Bezout) : Type 0 where
  pub identity : Combines a b r.x r.y r.g
  pub divides_a : r.g ∣ a
  pub divides_b : r.g ∣ b

-- For all non-negative operands, `xgcd_var` returns a common divisor of the operands with
-- the cofactors that combine them into it.
pub xgcd_var-IsBezout : (a b : ℕ) → IsBezout a b (xgcd_var a b)
unfolding xgcd_var
xgcd_var-IsBezout a b = record {
  identity = combination;
  divides_a = (xgcd_loop-dvd a b (lt_wf.apply a) start).0;
  divides_b = (xgcd_loop-dvd a b (lt_wf.apply a) start).1;
}
  where
    start : Cofactors
    start = record { x0 = pos 0; x1 = pos 1; y0 = pos 1; y1 = pos 0 }

    combination :
        Combines a b
          (xgcd_loop a b (lt_wf.apply a) start).x
          (xgcd_loop a b (lt_wf.apply a) start).y
          (xgcd_loop a b (lt_wf.apply a) start).g
    combination = xgcd_loop-Combines a b a b (lt_wf.apply a) start (omega arith) (omega arith)

-- For all non-negative operands, every common divisor divides the one that `xgcd_var` returns.
pub dvd-xgcd_var : (a b d : ℕ) → d ∣ a → d ∣ b → d ∣ (xgcd_var a b).g
dvd-xgcd_var a b d da db =
    dvd-combination d a b (xgcd_var a b).g (xgcd_var a b).x (xgcd_var a b).y
      (xgcd_var-IsBezout a b).identity da db
