-- ===== src/Sec/Valid.antt =====
-- curves/sec_point.py: a public key that is read is a point of the curve.
use ellipticcurves.Prelude.{
  ℕ, ◌%◌, ◌<◌, ◌≡◌, refl, sym, ◌∙◌, subst, arith, ap, Bool, true, false, inl, inr, List, [], ◌∷◌,
  ◌==◌, not, ◌&&◌,
}
use ellipticcurves.Prelude.Bytes.{AreBytes}
use ellipticcurves.Prelude.Result.{
  Error, ok, err, ok_inj, >>=-ok, refuse-ok, no_octets, no_public_key, Result-cases,
}
use ellipticcurves.Curve.{Point}
use ellipticcurves.Sec.{
  Curve, PubKey, as_octets, as_point, is_curve_point, require_curve_point, assert_in_subgroup,
  bytes_from_point, point_from_octets, point_from_pub_key,
}
use ellipticcurves.Sec.Read.{require_curve_point-on}
use ellipticcurves.Sec.RoundTrip.{read_cases, bytes_from_point-point_from_octets}

-- On the curve, in the group of the generator and not infinity.
abbrev pub IsPoint : Curve → Point → Type 0
IsPoint ec Q =
    (is_curve_point ec Q ≡ ok true) × ((Q.y == 0) ≡ false) × (assert_in_subgroup ec Q ≡ ok tt)

-- The octets of a key are bytes.
abbrev pub IsSpelling : PubKey → Type 0
IsSpelling (as_octets pub_key) = AreBytes pub_key
IsSpelling (as_point Q) = Unit

in_group :
    (ec : Curve) (read : List ℕ) {Q : Point}
    → point_from_octets read ec false ≡ ok Q
    → assert_in_subgroup ec Q ≡ ok tt
unfolding point_from_octets
in_group ec [] e = cc
in_group ec (prefix ∷ rest) e = elim (read_cases ec prefix rest e) [
  | inl (c, r) ↦ r.in_group
  | inr (four, r) ↦ r.in_group
]

-- For an odd p and a positive p_size: what point_from_pub_key returns, for a key of bytes or a
-- tuple, is a point that is_on_curve of curves/curve.py accepts, is not infinity and passes
-- _assert_in_subgroup.
pub point_from_pub_key-IsPoint :
    (ec : Curve) (pub_key : PubKey) {Q : Point}
    → ec.group.p % 2 ≡ 1
    → 0 < ec.p_size
    → IsSpelling pub_key
    → point_from_pub_key pub_key ec ≡ ok Q
    → IsPoint ec Q
unfolding point_from_pub_key bytes_from_point
point_from_pub_key-IsPoint ec (as_octets read) {Q} odd h a e =
    elim (Result-cases (point_from_octets read ec false)) [
      | inl (P, found) ↦ of_read (found ∙ ap ok (ok_inj (sym (keep found) ∙ e)))
      | inr (raised, lost) ↦ absurd (refused (sym (drop_error lost) ∙ e))
    ]
  where
    keep :
        {P : Point}
        → point_from_octets read ec false ≡ ok P
        → point_from_pub_key (as_octets read) ec ≡ ok P
    keep found = rw (point_from_pub_key, found) refl

    drop_error :
        {raised : Error}
        → point_from_octets read ec false ≡ err raised
        → point_from_pub_key (as_octets read) ec ≡ err no_public_key
    drop_error lost = rw (point_from_pub_key, lost) refl

    refused : err no_public_key ≡ ok Q → ⊥
    refused t = cc

    of_read : point_from_octets read ec false ≡ ok Q → IsPoint ec Q
    of_read found =
        let (_, required, e1) =
          >>=-ok (require_curve_point ec Q) _
            (bytes_from_point-point_from_octets ec read odd h a found) in
        let (f, _) = refuse-ok (Q.y == 0) no_octets _ e1 in
        ((require_curve_point-on ec Q required).0, f, in_group ec read found)
point_from_pub_key-IsPoint ec (as_point P) {Q} odd h a e =
    let (on, e1, e2) = >>=-ok (is_curve_point ec P) _ e in
    let (t, e3) = refuse-ok (not (on && not (P.y == 0))) no_public_key _ e2 in
    let (_, e4, e5) = >>=-ok (assert_in_subgroup ec P) _ e3 in
    let found = ok_inj e5 in
    let (o, f) = passed on (P.y == 0) t in subst (IsPoint ec) found (e1 ∙ ap ok o, f, e4)
  where
    passed : (s t : Bool) → not (s && not t) ≡ false → (s ≡ true) × (t ≡ false)
    passed s t e = ground arith
