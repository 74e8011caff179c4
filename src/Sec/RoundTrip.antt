-- ===== src/Sec/RoundTrip.antt =====
-- curves/sec_point.py: octets that are read as a point are those that are written of it.
use native.Mathlib.Nat
use ellipticcurves.Prelude.{
  ℕ, suc, ◌-◌, ◌*◌, ◌%◌, ◌<◌, ◌≡◌, ◌⊎◌, refl, sym, ap, ap₂, ◌∙◌, subst, arith, Bool, true, false,
  Bool-cases, inl, inr, List, [], ◌∷◌, ◌++◌, length, length-take, length-drop, take, drop,
  take-append-drop, ◌==◌, ==_iff, not, ◌&&◌, ◌||◌, if◌then◌else◌,
}
use ellipticcurves.Prelude.Bytes.{
  AreBytes, AreBytes-parts, to_bytes, from_bytes, to_bytes-from_bytes,
}
use ellipticcurves.Prelude.Result.{Result, ok, err, not_a_point, refuse-ok, octets_size}
use ellipticcurves.Curve.{Point}
use ellipticcurves.Curve.Affine.{y2}
use ellipticcurves.Curve.Roots.OnCurve.{y_even_var-IsRootOf}
use ellipticcurves.Sec.{
  Curve, require_curve_point, bytes_from_point, is_compressed, from_compressed, from_uncompressed,
  point_from_octets,
}
use ellipticcurves.Sec.Read.{
  equal, ReadCompressed, ReadUncompressed, from_compressed-ReadCompressed,
  from_uncompressed-ReadUncompressed, require_curve_point-on,
}

sized : (xs : List ℕ) (k : ℕ) → AreBytes xs → length xs ≡ k → to_bytes k (from_bytes xs) ≡ xs
sized xs k a e = ap (λ j. to_bytes j (from_bytes xs)) (sym e) ∙ to_bytes-from_bytes xs a

module _ (ec : Curve) where
  open ec use {p_size}
  open ec.group use {p}

  write_compressed :
      (prefix : ℕ) (rest : List ℕ) {Q : Point}
      → p % 2 ≡ 1
      → AreBytes rest
      → is_compressed prefix ≡ true
      → ReadCompressed ec prefix rest Q
      → bytes_from_point ec Q true ≡ ok (prefix ∷ rest)
  unfolding bytes_from_point
  write_compressed prefix rest {Q} odd a c r =
      let (root, even) = y_even_var-IsRootOf ec.group Q.x odd r.even_root in
      let (on, not_two) = require_curve_point-on ec Q r.required in
      let (finite, same_prefix) =
        elim (prefix_cases prefix c)
          as (λ _. ((Q.y == 0) ≡ false) × ((if Q.y % 2 == 1 then 3 else 2) ≡ prefix)) [
            | inl two ↦
                even_case Q.y r.y p (y2 ec.group Q.x) prefix two
                  (r.same_y ∙ ap (λ k. if k == 2 then r.y else p - r.y) two) even root.1.1 not_two
            | inr three ↦
                odd_case Q.y r.y p prefix three
                  (r.same_y ∙ ap (λ k. if k == 2 then r.y else p - r.y) three) even root.1.0 odd
          ] in
      rw
        (
          r.required,
          finite,
          ap (to_bytes p_size) r.same_x ∙ sized rest p_size a r.size,
          same_prefix,
        )
        refl
    where
      prefix_cases : (k : ℕ) → is_compressed k ≡ true → (k ≡ 2) ⊎ (k ≡ 3)
      prefix_cases k t = ground arith

      even_case :
          (q y modulus h k : ℕ)
          → k ≡ 2
          → q ≡ y
          → y % 2 ≡ 0
          → y * y % modulus ≡ h
          → (q == 0 && h == 0) ≡ false
          → ((q == 0) ≡ false) × ((if q % 2 == 1 then 3 else 2) ≡ k)
      even_case q y modulus h k two e even square f = elim (Bool-cases (q == 0)) [
        | inl z ↦ absurd (
            not_both
              (ap₂ (λ s t. s && t) (sym z) (sym (equal h 0 (zero_square ((==_iff q 0).0 z)))) ∙ f))
        | inr n ↦ (n, parity)
      ]
        where
          not_both : true ≡ false → ⊥
          not_both t = cc

          zero_square : q ≡ 0 → h ≡ 0
          zero_square z = sym square ∙ ap (λ m. m * m % modulus) (sym e ∙ z) ∙ Nat.zero-mod modulus

          parity : (if q % 2 == 1 then 3 else 2) ≡ k
          parity = ground arith

      odd_case :
          (q y modulus k : ℕ)
          → k ≡ 3
          → q ≡ modulus - y
          → y % 2 ≡ 0
          → y < modulus
          → modulus % 2 ≡ 1
          → ((q == 0) ≡ false) × ((if q % 2 == 1 then 3 else 2) ≡ k)
      odd_case q y modulus k three e even l odd = ground arith

  write_uncompressed :
      (rest : List ℕ) {Q : Point}
      → AreBytes rest
      → ReadUncompressed ec 4 rest Q
      → bytes_from_point ec Q false ≡ ok (4 ∷ rest)
  unfolding bytes_from_point require_curve_point
  write_uncompressed rest {Q} a r =
      let (b, c) =
        AreBytes-parts (take p_size rest) (drop p_size rest)
          (subst AreBytes (sym (take-append-drop p_size rest)) a) in
      let first =
        ap (to_bytes p_size) r.same_x
        ∙ sized (take p_size rest) p_size b (omega (arith, length-take p_size rest, r.size)) in
      let second =
        ap (to_bytes p_size) r.same_y
        ∙ sized (drop p_size rest) p_size c (omega (arith, length-drop p_size rest, r.size)) in
      rw (r.on_curve, r.finite)
        (ap (λ o. ok (4 ∷ o)) (ap₂ (λ xs ys. xs ++ ys) first second ∙ take-append-drop p_size rest))

  -- The branch that has read the octets.
  pub read_cases :
      (prefix : ℕ) (rest : List ℕ) {Q : Point}
      → point_from_octets (prefix ∷ rest) ec false ≡ ok Q
      → ((is_compressed prefix ≡ true) × ReadCompressed ec prefix rest Q)
        ⊎ ((prefix ≡ 4) × ReadUncompressed ec prefix rest Q)
  unfolding point_from_octets
  read_cases prefix rest {Q} e =
      let (_, e1) =
        refuse-ok (not (length rest == p_size || length rest == 2 * p_size)) octets_size _ e in
      elim (Bool-cases (is_compressed prefix)) [
        | inl c ↦ inl (
          c,
          from_compressed-ReadCompressed ec prefix rest
              (subst (λ t. branches t (prefix == 4) ≡ ok Q) c e1),
        )
        | inr c ↦
            let e2 = subst (λ t. branches t (prefix == 4) ≡ ok Q) c e1 in
            elim (Bool-cases (prefix == 4)) [
              | inl four ↦ inr (
                (==_iff prefix 4).0 four,
                from_uncompressed-ReadUncompressed ec prefix rest
                    (subst (λ t. branches false t ≡ ok Q) four e2),
              )
              | inr other ↦ absurd (no_point (subst (λ t. branches false t ≡ ok Q) other e2))
            ]
      ]
    where
      branches : Bool → Bool → Result Point
      branches compressed four =
          if compressed
          then from_compressed ec prefix rest
          else (if four || (false && (prefix == 6 || prefix == 7))
              then from_uncompressed ec prefix rest
              else err not_a_point)

      no_point : err not_a_point ≡ ok Q → ⊥
      no_point t = cc

  -- For an odd p and a positive p_size: bytes that point_from_octets reads as a point without
  -- the hybrid prefixes are those that bytes_from_point writes of this point, compressed if
  -- they are p_size + 1 bytes.
  pub bytes_from_point-point_from_octets :
      (octets : List ℕ) {Q : Point}
      → p % 2 ≡ 1
      → 0 < p_size
      → AreBytes octets
      → point_from_octets octets ec false ≡ ok Q
      → bytes_from_point ec Q (length octets == suc p_size) ≡ ok octets
  unfolding point_from_octets
  bytes_from_point-point_from_octets [] odd h a e = cc
  bytes_from_point-point_from_octets (prefix ∷ rest) {Q} odd h a e =
      elim (read_cases prefix rest e) [
        | inl (c, r) ↦
            rw (equal (suc (length rest)) (suc p_size) (ap suc r.size))
              (write_compressed prefix rest odd a.1 c r)
        | inr (four, r) ↦ rw (other_size (length rest) p_size h r.size) (
            subst (λ k. bytes_from_point ec Q false ≡ ok (k ∷ rest)) (sym four)
              (write_uncompressed rest a.1 (subst (λ k. ReadUncompressed ec k rest Q) four r)))
      ]
    where
      other_size : (l k : ℕ) → 0 < k → l ≡ 2 * k → (suc l == suc k) ≡ false
      other_size l k h e = ground arith
