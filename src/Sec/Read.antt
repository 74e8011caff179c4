-- ===== src/Sec/Read.antt =====
-- curves/sec_point.py: what the two branches of `point_from_octets` let through, and return.
use ellipticcurves.Prelude.{
  passed_test, passed_eq, ℕ, ◌-◌, ◌*◌, ◌%◌, ◌≡◌, refl, sym, ap, ◌∙◌, true, false, List, length,
  take, drop, ◌==◌, ==_iff, not, ◌&&◌, if◌then◌else◌,
}
use ellipticcurves.Prelude.Bytes.{from_bytes}
use ellipticcurves.Prelude.Result.{
  refuse_last, ok, ok_inj, >>=-ok, refuse-ok, compressed_size, uncompressed_size, no_octets,
  hybrid_parity, not_on_curve, two_torsion,
}
use ellipticcurves.Curve.{Point}
use ellipticcurves.Curve.Affine.{y2, is_on_curve}
use ellipticcurves.Curve.Roots.{y_even_var}
use ellipticcurves.Sec.{
  Curve, is_curve_point, require_curve_point, assert_in_subgroup, from_compressed,
  from_uncompressed,
}

-- What `from_compressed` has passed.
pub record ReadCompressed (ec : Curve) (prefix : ℕ) (rest : List ℕ) (Q : Point) : Type 0 where
  pub size : length rest ≡ ec.p_size
  pub same_x : Q.x ≡ from_bytes rest
  pub y : ℕ
  pub even_root : y_even_var ec.group Q.x ≡ ok y
  pub same_y : Q.y ≡ (if prefix == 2 then y else ec.group.p - y)
  pub required : require_curve_point ec Q ≡ ok tt
  pub in_group : assert_in_subgroup ec Q ≡ ok tt

pub equal : (k l : ℕ) → k ≡ l → (k == l) ≡ true
equal k l e = (==_iff k l).1 e

pub from_compressed-ReadCompressed :
    (ec : Curve) (prefix : ℕ) (rest : List ℕ) {Q : Point}
    → from_compressed ec prefix rest ≡ ok Q
    → ReadCompressed ec prefix rest Q
unfolding from_compressed
from_compressed-ReadCompressed ec prefix rest {Q} e =
    let (t, e1) = refuse-ok (not (length rest == ec.p_size)) compressed_size _ e in
    let (y, e2, e3) = >>=-ok (y_even_var ec.group (from_bytes rest)) _ e1 in
    let P : Point = record { x = from_bytes rest; y = if prefix == 2 then y else ec.group.p - y } in
    let (_, e4, e5) = >>=-ok (require_curve_point ec P) _ e3 in
    let (_, e6, e7) = >>=-ok (assert_in_subgroup ec P) _ e5 in
    let found = ok_inj e7 in
    record {
      size = passed_eq (length rest) ec.p_size t;
      same_x = ap (λ (P : Point). P.x) (sym found);
      y = y;
      even_root = ap (λ (P : Point). y_even_var ec.group P.x) (sym found) ∙ e2;
      same_y = ap (λ (P : Point). P.y) (sym found);
      required = ap (require_curve_point ec) (sym found) ∙ e4;
      in_group = ap (assert_in_subgroup ec) (sym found) ∙ e6;
    }

pub ReadCompressed-from_compressed :
    (ec : Curve) (prefix : ℕ) (rest : List ℕ) {Q : Point}
    → ReadCompressed ec prefix rest Q
    → from_compressed ec prefix rest ≡ ok Q
unfolding from_compressed
ReadCompressed-from_compressed ec prefix rest {Q} r =
    rw
      (
        equal (length rest) ec.p_size r.size,
        sym r.same_x,
        r.even_root,
        sym r.same_y,
        r.required,
        r.in_group,
      )
      refl

-- What `from_uncompressed` has passed.
pub record ReadUncompressed (ec : Curve) (prefix : ℕ) (rest : List ℕ) (Q : Point) : Type 0 where
  pub size : length rest ≡ 2 * ec.p_size
  pub same_x : Q.x ≡ from_bytes (take ec.p_size rest)
  pub same_y : Q.y ≡ from_bytes (drop ec.p_size rest)
  pub finite : (Q.y == 0) ≡ false
  pub parity : (not (prefix == 4) && not (Q.y % 2 == prefix - 6)) ≡ false
  pub on_curve : is_curve_point ec Q ≡ ok true
  pub in_group : assert_in_subgroup ec Q ≡ ok tt

pub from_uncompressed-ReadUncompressed :
    (ec : Curve) (prefix : ℕ) (rest : List ℕ) {Q : Point}
    → from_uncompressed ec prefix rest ≡ ok Q
    → ReadUncompressed ec prefix rest Q
unfolding from_uncompressed
from_uncompressed-ReadUncompressed ec prefix rest {Q} e =
    let P : Point = record {
      x = from_bytes (take ec.p_size rest);
      y = from_bytes (drop ec.p_size rest);
    } in
    let (t, e1) = refuse-ok (not (length rest == 2 * ec.p_size)) uncompressed_size _ e in
    let (f, e2) = refuse-ok (P.y == 0) no_octets _ e1 in
    let (p, e3) = refuse-ok (not (prefix == 4) && not (P.y % 2 == prefix - 6)) hybrid_parity _ e2 in
    let (on, e4, e5) = >>=-ok (is_curve_point ec P) _ e3 in
    let (o, e6) = refuse-ok (not on) not_on_curve _ e5 in
    let (_, e7, e8) = >>=-ok (assert_in_subgroup ec P) _ e6 in
    let found = ok_inj e8 in
    record {
      size = passed_eq (length rest) (2 * ec.p_size) t;
      same_x = ap (λ (P : Point). P.x) (sym found);
      same_y = ap (λ (P : Point). P.y) (sym found);
      finite = ap (λ (P : Point). P.y == 0) (sym found) ∙ f;
      parity = ap (λ (P : Point). not (prefix == 4) && not (P.y % 2 == prefix - 6)) (sym found) ∙ p;
      on_curve = ap (is_curve_point ec) (sym found) ∙ e4 ∙ ap ok (passed_test on o);
      in_group = ap (assert_in_subgroup ec) (sym found) ∙ e7;
    }

pub ReadUncompressed-from_uncompressed :
    (ec : Curve) (prefix : ℕ) (rest : List ℕ) {Q : Point}
    → ReadUncompressed ec prefix rest Q
    → from_uncompressed ec prefix rest ≡ ok Q
unfolding from_uncompressed
ReadUncompressed-from_uncompressed ec prefix rest {Q} r =
    rw
      (
        equal (length rest) (2 * ec.p_size) r.size,
        sym r.same_x,
        sym r.same_y,
        r.on_curve,
        r.in_group,
        r.finite,
        r.parity,
      )
      refl

-- A point that is required to be on the curve is one, and its two coordinates are not those of a
-- point of order two.
pub require_curve_point-on :
    (ec : Curve) (Q : Point)
    → require_curve_point ec Q ≡ ok tt
    → (is_curve_point ec Q ≡ ok true) × ((Q.y == 0 && y2 ec.group Q.x == 0) ≡ false)
unfolding require_curve_point is_curve_point
require_curve_point-on ec Q e =
    let (on, e1, e2) = >>=-ok (is_curve_point ec Q) _ e in
    let (on', e3, e4) = >>=-ok (is_on_curve ec.group Q) _ e1 in
    let (t, e5) = refuse-ok (on' && Q.y == 0 && y2 ec.group Q.x == 0) two_torsion _ e4 in
    let same = ok_inj e5 ∙ passed_test on (refuse_last (not on) not_on_curve e2) in
    (
      e1 ∙ ap ok (passed_test on (refuse_last (not on) not_on_curve e2)),
      ap (λ k. k && Q.y == 0 && y2 ec.group Q.x == 0) (sym same) ∙ t,
    )
