-- ===== src/Ssa/RoundTrip.antt =====
-- ecc/ssa.py: `Sig.parse` and `Sig.serialize` undo each other.
use ellipticcurves.Prelude.{
  ℕ, ◌+◌, ◌^◌, ◌<◌, ◌≡◌, sym, ap, ap₂, ◌∙◌, subst, arith, Bool, false, List, ◌++◌, length,
  length-append, length-take, length-drop, take, drop, take-append, drop-append, take-append-drop,
  take_all, drop_all, append-nil, ◌==◌, not,
}
use ellipticcurves.Prelude.Bytes.{
  AreBytes, AreBytes-parts, to_bytes, from_bytes, length-to_bytes, from_bytes-to_bytes,
  to_bytes-from_bytes,
}
use ellipticcurves.Prelude.Result.{
  Result, ok, ◌>>◌, >>=-ok, ok_inj, refuse-ok, decoded_length, trailing_bytes,
}
use ellipticcurves.Ecdsa.Der.{has_more}
use ellipticcurves.Ecdsa.Der.Sequence.{no_more}
use ellipticcurves.Ssa.{SsaOps, Sig, checked, serialize, parse}

module _ (ops : SsaOps) (sizes : ops.p_size + ops.n_size ≡ 64) where
  abbrev octets_of : Sig → List ℕ
  octets_of sig = to_bytes ops.p_size sig.r ++ to_bytes ops.n_size sig.s

  length-octets_of : (sig : Sig) → length (octets_of sig) ≡ 64
  length-octets_of sig = omega (
    arith,
    sizes,
    length-append (to_bytes ops.p_size sig.r) (to_bytes ops.n_size sig.s),
    length-to_bytes ops.p_size sig.r,
    length-to_bytes ops.n_size sig.s,
  )

  first_part : (sig : Sig) → take ops.p_size (octets_of sig) ≡ to_bytes ops.p_size sig.r
  first_part sig =
      ap (λ k. take k (octets_of sig)) (sym (length-to_bytes ops.p_size sig.r))
      ∙ take-append (to_bytes ops.p_size sig.r) (to_bytes ops.n_size sig.s)

  second_part : (sig : Sig) → drop ops.p_size (octets_of sig) ≡ to_bytes ops.n_size sig.s
  second_part sig =
      ap (λ k. drop k (octets_of sig)) (sym (length-to_bytes ops.p_size sig.r))
      ∙ drop-append (to_bytes ops.p_size sig.r) (to_bytes ops.n_size sig.s)

  -- When p_size and n_size add up to 64, what serialize of ecc/ssa.py writes of a signature
  -- whose r and s fit these sizes, parse reads back.
  pub parse-serialize_lem :
      (sig : Sig) (check_validity : Bool) (written : List ℕ)
      → sig.r < 256 ^ ops.p_size
      → sig.s < 256 ^ ops.n_size
      → serialize ops sig check_validity ≡ ok written
      → parse ops written check_validity ≡ ok sig
  unfolding serialize parse
  parse-serialize_lem sig check_validity written hr hs e =
      let (t, e1, e2) = >>=-ok (checked ops sig check_validity) (λ t. ok (octets_of sig)) e in
      ap (λ o. parse ops o check_validity) (sym (ok_inj e2))
      ∙ rw (
        take_all 64 (octets_of sig) (length-octets_of sig),
        drop_all 64 (octets_of sig) (length-octets_of sig),
        length-octets_of sig,
        first_part sig,
        second_part sig,
        from_bytes-to_bytes ops.p_size sig.r hr,
        from_bytes-to_bytes ops.n_size sig.s hs,
        e1,
      )

  -- The signature that is read from 64 octets.
  abbrev sig_of : List ℕ → Sig
  sig_of bin = record { r = from_bytes (take ops.p_size bin); s = from_bytes (drop ops.p_size bin) }

  octets_of-sig_of : (bin : List ℕ) → AreBytes bin → length bin ≡ 64 → octets_of (sig_of bin) ≡ bin
  octets_of-sig_of bin a l =
      let (b, c) =
        AreBytes-parts (take ops.p_size bin) (drop ops.p_size bin)
          (subst AreBytes (sym (take-append-drop ops.p_size bin)) a) in
      ap₂ (λ xs ys. xs ++ ys)
        (sized (take ops.p_size bin) ops.p_size b
          (omega (arith, length-take ops.p_size bin, l, sizes)))
        (sized (drop ops.p_size bin) ops.n_size c
          (omega (arith, length-drop ops.p_size bin, l, sizes)))
      ∙ take-append-drop ops.p_size bin
    where
      sized : (xs : List ℕ) (k : ℕ) → AreBytes xs → length xs ≡ k → to_bytes k (from_bytes xs) ≡ xs
      sized xs k a e = ap (λ j. to_bytes j (from_bytes xs)) (sym e) ∙ to_bytes-from_bytes xs a

  -- When p_size and n_size add up to 64, serialize of ecc/ssa.py writes the same bytes of the
  -- signature that parse returned for them.
  serialize-parse_lem :
      (octets : List ℕ) (check_validity : Bool) (sig : Sig)
      → AreBytes octets
      → parse ops octets check_validity ≡ ok sig
      → serialize ops sig check_validity ≡ ok octets
  unfolding serialize parse
  serialize-parse_lem octets check_validity sig a e =
      let bin = take 64 octets in
      let (l, e1) = refuse-ok (not (length bin == 64)) decoded_length _ e in
      let (m, e2) = refuse-ok (has_more (drop 64 octets)) trailing_bytes _ e1 in
      let (t, e3, e4) = >>=-ok (checked ops (sig_of bin) check_validity) _ e2 in
      let whole : bin ≡ octets =
        sym (append-nil bin)
        ∙ ap (λ rest. bin ++ rest) (sym (no_more (drop 64 octets) m))
        ∙ take-append-drop 64 octets in
      ap (λ v. serialize ops v check_validity) (sym (ok_inj e4))
      ∙ ap (λ (r : Result Unit). r >> ok (octets_of (sig_of bin))) e3
      ∙ ap (λ o. ok (octets_of (sig_of o))) whole
      ∙ ap (λ o. ok o)
          (octets_of-sig_of octets a (ap length (sym whole) ∙ passed_size (length bin) l))
    where
      passed_size : (k : ℕ) → not (k == 64) ≡ false → k ≡ 64
      passed_size k l = ground arith
