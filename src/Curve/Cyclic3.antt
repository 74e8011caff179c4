-- ===== src/Curve/Cyclic3.antt =====
-- The group of three elements, for the curve whose formulas are checked on every tuple.
use ellipticcurves.Prelude.{◌≡◌, refl, Bool, true, false, arith}
use ellipticcurves.Group.{AbelianGroup}

pub data Cyclic3 : Type 0 where
  c0 c1 c2 : Cyclic3

unfoldable pub next : Cyclic3 → Cyclic3
next c0 = c1
next c1 = c2
next c2 = c0

unfoldable pub plus3 : Cyclic3 → Cyclic3 → Cyclic3
unfolding next
plus3 c0 b = b
plus3 c1 b = next b
plus3 c2 b = next (next b)

unfoldable pub minus3 : Cyclic3 → Cyclic3
minus3 c0 = c0
minus3 c1 = c2
minus3 c2 = c1

pub plus3_assoc : (a b c : Cyclic3) → plus3 (plus3 a b) c ≡ plus3 a (plus3 b c)
unfolding plus3
plus3_assoc a b c = ground arith

pub plus3_comm : (a b : Cyclic3) → plus3 a b ≡ plus3 b a
unfolding plus3
plus3_comm a b = ground arith

pub plus3_zero : (a : Cyclic3) → plus3 a c0 ≡ a
unfolding plus3
plus3_zero a = ground arith

pub plus3_minus : (a : Cyclic3) → plus3 a (minus3 a) ≡ c0
unfolding plus3 minus3
plus3_minus a = ground arith

abbrev pub cyclic3 : AbelianGroup Cyclic3
cyclic3 = record {
  zero_point = c0;
  plus = plus3;
  minus = minus3;
  plus_assoc = plus3_assoc;
  plus_comm = plus3_comm;
  plus_zero = plus3_zero;
  plus_minus = plus3_minus;
}

unfoldable pub same : Cyclic3 → Cyclic3 → Bool
same c0 c0 = true
same c1 c1 = true
same c2 c2 = true
same _ _ = false

pub same→eq : (a b : Cyclic3) → same a b ≡ true → a ≡ b
unfolding same
same→eq a b h = ground arith

pub minus3_zero : minus3 c0 ≡ c0
unfolding minus3
minus3_zero = refl
