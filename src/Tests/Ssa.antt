-- ===== src/Tests/Ssa.antt =====
-- Runs of ecc/ssa.py on the curve of SevenOps.
use ellipticcurves.Prelude.{
  ℕ, ◌*◌, ◌%◌, ◌<◌, ◌≡◌, ◌≢◌, ◌↔◌, refl, sym, ap, ◌∙◌, subst, arith, true, false, ◌==◌,
  if◌then◌else◌, List, [], ◌∷◌, ◌++◌,
}
use ellipticcurves.Prelude.Bytes.{to_bytes}
use ellipticcurves.Prelude.Result.{Result, ok, err, no_root, no_coordinate, decoded_length}
use ellipticcurves.Curve.{JacPoint}
use ellipticcurves.Curve.Cyclic3.{Cyclic3, c0, c1, c2, plus3, cyclic3}
use ellipticcurves.Group.{nmul}
use ellipticcurves.Tests.SevenOps.{tuple_of, ops, implements, lift_law}
use ellipticcurves.Ssa.{
  SsaOps, Sig, serialize, checked, assert_valid, parse, sign, assert_as_valid, recover_pub_key,
}
use ellipticcurves.Ssa.Interface.{ImplementsSsa}
use ellipticcurves.Ssa.Verify.{Accepts, assert_as_valid_bip340}
use ellipticcurves.Ssa.Correct.{sign-accepted, recover_pub_key-sign}
use ellipticcurves.Ssa.RoundTrip.{parse-serialize_lem}

abbrev y_of_x : ℕ → Result ℕ
y_of_x x = if x == 0 then ok 2 else err no_root

-- The tuples of this curve are affine.
unfoldable pub ssa_ops : SsaOps
ssa_ops = record {
  ec = ops;
  p_size = 32;
  n_size = 32;
  is_x_coordinate = λ x. x == 0;
  x_aff = λ X. if X.z == 0 then err no_coordinate else ok X.x;
  y_aff = λ X. if X.z == 0 then err no_coordinate else ok X.y;
  y_even_in_subgroup = y_of_x;
}

pub x_law : (a : Cyclic3) → a ≢ c0 → ((tuple_of a).x == 0) ≡ true
x_law c0 n = absurd (n refl)
x_law c1 n = refl
x_law c2 n = refl

pub y_law :
    (a : Cyclic3)
    → a ≢ c0
    → (if (tuple_of a).z == 0 then err no_coordinate else ok (tuple_of a).y) ≡ ok (tuple_of a).y
y_law c0 n = absurd (n refl)
y_law c1 n = refl
y_law c2 n = refl

pub x_aff_law :
    (a : Cyclic3)
    → a ≢ c0
    → (if (tuple_of a).z == 0 then err no_coordinate else ok (tuple_of a).x) ≡ ok (tuple_of a).x
x_aff_law c0 n = absurd (n refl)
x_aff_law c1 n = refl
x_aff_law c2 n = refl

pub matches :
    (a : Cyclic3) (r : ℕ)
    → a ≢ c0
    → r < 7
    → ((tuple_of a).x ≡ (tuple_of a).z * (tuple_of a).z * r % 7) ↔ ((tuple_of a).x ≡ r)
matches c0 r n h = absurd (n refl)
matches c1 r n h = (λ e. omega arith, λ e. omega arith)
matches c2 r n h = (λ e. omega arith, λ e. omega arith)

unfoldable pub implements_ssa : ImplementsSsa ssa_ops cyclic3
unfolding ssa_ops ops implements
implements_ssa = record {
  base = implements;
  x_known = x_law;
  y_aff-infinity = λ X s. ap (λ (X : JacPoint). if X.z == 0 then err no_coordinate else ok X.y) s;
  y_aff_lem = λ X {a} s n.
      ap (λ (X : JacPoint). if X.z == 0 then err no_coordinate else ok X.y) s ∙ y_law a n;
  x_aff_lem = λ X {a} s n.
      ap (λ (X : JacPoint). if X.z == 0 then err no_coordinate else ok X.x) s ∙ x_aff_law a n;
  x_matches = λ X r {a} s n h.
      subst (λ (X : JacPoint). (X.x ≡ X.z * X.z * r % 7) ↔ ((tuple_of a).x ≡ r)) (sym s)
        (matches a r n h);
  lift_in_subgroup = lift_law;
}

key : implements_ssa.base.Shows (tuple_of c2) (nmul cyclic3 2 implements_ssa.base.g)
unfolding implements_ssa implements nmul plus3
key = refl

even_nonce : implements_ssa.base.y_of (nmul cyclic3 1 implements_ssa.base.g) % 2 ≡ 0
unfolding implements_ssa implements nmul plus3
even_nonce = refl

sign-accepted_example :
    (sig : Sig) × (sign 1 2 1
        (implements_ssa.base.x_of (nmul cyclic3 1 implements_ssa.base.g))
        ssa_ops
      ≡ ok sig)
    × (assert_as_valid 1 (tuple_of c2) sig ssa_ops ≡ ok tt)
unfolding ssa_ops ops
sign-accepted_example =
    sign-accepted implements_ssa 1 2 1 (omega arith) (omega arith) (omega arith) (omega arith)
      (tuple_of c2) key even_nonce

recover_pub_key-sign_example :
    (sig : Sig) × (sign 1 2 1
        (implements_ssa.base.x_of (nmul cyclic3 1 implements_ssa.base.g))
        ssa_ops
      ≡ ok sig)
    × (recover_pub_key 1 sig ssa_ops
        ≡ ok (implements_ssa.base.x_of (nmul cyclic3 2 implements_ssa.base.g)))
unfolding ssa_ops ops
recover_pub_key-sign_example =
    recover_pub_key-sign implements_ssa 1 2 1 (omega arith) (omega arith) (omega arith)
      (omega arith) (omega arith) (omega arith) even_nonce

assert_as_valid_bip340_example :
    (assert_as_valid 1 (tuple_of c2) (record { r = 0; s = 0 }) ssa_ops ≡ ok tt)
    ↔ Accepts implements_ssa 1 (nmul cyclic3 2 implements_ssa.base.g) (record { r = 0; s = 0 })
unfolding ssa_ops ops
assert_as_valid_bip340_example =
    assert_as_valid_bip340 implements_ssa 1 (tuple_of c2) (record { r = 0; s = 0 }) key
      (omega arith) (omega arith) (omega arith)

sig : Sig
sig = record { r = 0; s = 1 }

octets : List ℕ
unfolding sig
octets = to_bytes 32 0 ++ to_bytes 32 1

written : serialize ssa_ops sig true ≡ ok octets
unfolding serialize checked assert_valid ssa_ops ops sig octets
written = refl

read : parse ssa_ops octets true ≡ ok sig
unfolding ssa_ops sig
read = parse-serialize_lem ssa_ops refl sig true octets (omega arith) (omega arith) written

too_short : parse ssa_ops (1 ∷ 2 ∷ []) false ≡ err decoded_length
unfolding parse
too_short = refl
