-- ===== src/Sec/Written.antt =====
-- curves/sec_point.py: the octets that are written of a point are read back.
use ellipticcurves.Prelude.{
  passed_lt, ℕ, ◌-◌, ◌*◌, ◌^◌, ◌%◌, ◌<◌, ◌≤◌, ◌≡◌, refl, sym, ap, ◌∙◌, subst, arith, Bool, true,
  false, List, ◌∷◌, ◌++◌, length, length-append, take, drop, take-append, drop-append, ltb, ◌==◌,
  not, ◌||◌, if◌then◌else◌,
}
use ellipticcurves.Prelude.Bytes.{to_bytes, from_bytes, length-to_bytes, from_bytes-to_bytes}
use ellipticcurves.Prelude.Result.{
  ok, ok_inj, >>=-ok, refuse, refuse-ok, ◌>>=◌, no_octets, x_not_in_range, y_not_in_range,
}
use ellipticcurves.Curve.{Point}
use ellipticcurves.Curve.Affine.{y2, is_on_curve}
use ellipticcurves.Curve.Roots.{y_even_var}
use ellipticcurves.Sec.{
  Curve, is_curve_point, require_curve_point, assert_in_subgroup, bytes_from_point, is_compressed,
  point_from_octets,
}
use ellipticcurves.Sec.Read.{
  equal, ReadCompressed, ReadUncompressed, ReadCompressed-from_compressed,
  ReadUncompressed-from_uncompressed, require_curve_point-on,
}

-- The coordinates of a finite point are below p.
coordinates_below :
    (ec : Curve) (Q : Point)
    → is_curve_point ec Q ≡ ok true
    → (Q.y == 0) ≡ false
    → (Q.x < ec.group.p) × (Q.y < ec.group.p)
unfolding is_curve_point is_on_curve
coordinates_below ec Q e f =
    let (on, e1, e2) = >>=-ok (is_on_curve ec.group Q) _ e in
    let (t1, e3) = refuse-ok (not (ltb Q.x ec.group.p)) x_not_in_range _ e1 in
    let (t2, e4) = refuse-ok (not (ltb Q.y ec.group.p)) y_not_in_range _ (
      subst
        (λ t.
          (if t
            then ok true
            else (refuse (not (ltb Q.y ec.group.p)) y_not_in_range >>= λ _.
                ok (y2 ec.group Q.x == Q.y * Q.y % ec.group.p)))
          ≡ ok on)
        f e3) in
    (passed_lt Q.x ec.group.p t1, passed_lt Q.y ec.group.p t2)

module _ (ec : Curve) where
  open ec use {p_size}
  open ec.group use {p}

  compressed_back :
      (Q : Point)
      → Q.x < 256 ^ p_size
      → Q.y < p
      → y_even_var ec.group Q.x ≡ ok (if Q.y % 2 == 0 then Q.y else p - Q.y)
      → require_curve_point ec Q ≡ ok tt
      → assert_in_subgroup ec Q ≡ ok tt
      → ReadCompressed ec (if Q.y % 2 == 1 then 3 else 2) (to_bytes p_size Q.x) Q
  compressed_back Q lx ly lift required in_group = record {
    size = length-to_bytes p_size Q.x;
    same_x = sym (from_bytes-to_bytes p_size Q.x lx);
    y = if Q.y % 2 == 0 then Q.y else p - Q.y;
    even_root = lift;
    same_y = chosen Q.y p ly;
    required = required;
    in_group = in_group;
  }
    where
      chosen :
          (y p : ℕ)
          → y < p
          → y ≡ (
              if (if y % 2 == 1 then 3 else 2) == 2
              then (if y % 2 == 0 then y else p - y)
              else p - (if y % 2 == 0 then y else p - y))
      chosen y p l = ground arith

  uncompressed_back :
      (Q : Point)
      → Q.x < 256 ^ p_size
      → Q.y < 256 ^ p_size
      → (Q.y == 0) ≡ false
      → is_curve_point ec Q ≡ ok true
      → assert_in_subgroup ec Q ≡ ok tt
      → ReadUncompressed ec 4 (to_bytes p_size Q.x ++ to_bytes p_size Q.y) Q
  uncompressed_back Q lx ly f on in_group = record {
    size = omega (
      arith,
      length-append (to_bytes p_size Q.x) (to_bytes p_size Q.y),
      length-to_bytes p_size Q.x,
      length-to_bytes p_size Q.y,
    );
    same_x = sym (
        ap (λ k. from_bytes (take k (to_bytes p_size Q.x ++ to_bytes p_size Q.y)))
          (sym (length-to_bytes p_size Q.x))
        ∙ ap from_bytes (take-append (to_bytes p_size Q.x) (to_bytes p_size Q.y))
        ∙ from_bytes-to_bytes p_size Q.x lx);
    same_y = sym (
        ap (λ k. from_bytes (drop k (to_bytes p_size Q.x ++ to_bytes p_size Q.y)))
          (sym (length-to_bytes p_size Q.x))
        ∙ ap from_bytes (drop-append (to_bytes p_size Q.x) (to_bytes p_size Q.y))
        ∙ from_bytes-to_bytes p_size Q.y ly);
    finite = f;
    parity = refl;
    on_curve = on;
    in_group = in_group;
  }

  read_compressed :
      (prefix : ℕ) (rest : List ℕ) (hybrid : Bool) {Q : Point}
      → is_compressed prefix ≡ true
      → ReadCompressed ec prefix rest Q
      → point_from_octets (prefix ∷ rest) ec hybrid ≡ ok Q
  unfolding point_from_octets
  read_compressed prefix rest hybrid {Q} c r =
      rw (c, equal (length rest) p_size r.size) (ReadCompressed-from_compressed ec prefix rest r)

  read_uncompressed :
      (rest : List ℕ) (hybrid : Bool) {Q : Point}
      → ReadUncompressed ec 4 rest Q
      → point_from_octets (4 ∷ rest) ec hybrid ≡ ok Q
  unfolding point_from_octets
  read_uncompressed rest hybrid {Q} r =
      rw (equal (length rest) (2 * p_size) r.size, or_true (length rest == p_size))
        (ReadUncompressed-from_uncompressed ec 4 rest r)
    where
      or_true : (t : Bool) → (t || true) ≡ true
      or_true true = refl
      or_true false = refl

  -- For a p of at most 256 ^ p_size and a point Q in the subgroup of whose x-coordinate
  -- y_even_var returns the even one of y and p - y: the octets that bytes_from_point writes
  -- of Q, compressed or not, point_from_octets reads back as Q, whether or not it admits the
  -- hybrid prefixes.
  pub point_from_octets-bytes_from_point :
      (Q : Point) (compressed hybrid : Bool) (octets : List ℕ)
      → p ≤ 256 ^ p_size
      → y_even_var ec.group Q.x ≡ ok (if Q.y % 2 == 0 then Q.y else p - Q.y)
      → assert_in_subgroup ec Q ≡ ok tt
      → bytes_from_point ec Q compressed ≡ ok octets
      → point_from_octets octets ec hybrid ≡ ok Q
  unfolding bytes_from_point
  point_from_octets-bytes_from_point Q compressed hybrid octets fits lift in_group e =
      let (_, required, e1) = >>=-ok (require_curve_point ec Q) _ e in
      let (f, e2) = refuse-ok (Q.y == 0) no_octets _ e1 in
      let on = (require_curve_point-on ec Q required).0 in
      let (lx, ly) = coordinates_below ec Q on f in
      subst (λ o. point_from_octets o ec hybrid ≡ ok Q) (ok_inj e2)
        (back compressed on (omega (arith, lx, fits)) (omega (arith, ly, fits)) ly f required)
    where
      prefix_lem : (odd : Bool) → is_compressed (if odd then 3 else 2) ≡ true
      prefix_lem true = refl
      prefix_lem false = refl

      back :
          (c : Bool)
          → is_curve_point ec Q ≡ ok true
          → Q.x < 256 ^ p_size
          → Q.y < 256 ^ p_size
          → Q.y < p
          → (Q.y == 0) ≡ false
          → require_curve_point ec Q ≡ ok tt
          → point_from_octets
              (if c
                then (if Q.y % 2 == 1 then 3 else 2) ∷ to_bytes p_size Q.x
                else 4 ∷ to_bytes p_size Q.x ++ to_bytes p_size Q.y)
              ec
              hybrid
            ≡ ok Q
      back true on lx ly l f required =
          read_compressed (if Q.y % 2 == 1 then 3 else 2) (to_bytes p_size Q.x) hybrid
            (prefix_lem (Q.y % 2 == 1)) (compressed_back Q lx l lift required in_group)
      back false on lx ly l f required =
          read_uncompressed (to_bytes p_size Q.x ++ to_bytes p_size Q.y) hybrid
            (uncompressed_back Q lx ly f on in_group)
