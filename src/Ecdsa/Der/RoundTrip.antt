-- ===== src/Ecdsa/Der/RoundTrip.antt =====
-- ecc/dsa.py: `Sig.parse` undoes `Sig.serialize`, and under `strict` it reads nothing else.
use ellipticcurves.Prelude.{
  ℕ, ◌^◌, ◌<◌, ◌≤◌, ◌≡◌, refl, sym, ap, ap₂, ◌∙◌, subst, arith, Bool, true, false, List, [], ◌∷◌,
  ◌++◌, length, append-nil, ◌==◌, not, ◌&&◌,
}
use ellipticcurves.Prelude.Bytes.{AreBytes, AreBytes-parts}
use ellipticcurves.Prelude.Result.{
  Result, ok, err, refuse, ◌>>=◌, ◌>>◌, >>=-ok, refuse-ok, bad_header, trailing_bytes,
}
use ellipticcurves.Ecdsa.{SigCurve, Sig, checked}
use ellipticcurves.Ecdsa.Der.{serialize, parse_der_value, has_more, parse}
use ellipticcurves.Ecdsa.Der.Value.{parse_der_value-short, parse_der_value_strict}
use ellipticcurves.Ecdsa.Der.Sequence.{body}
use ellipticcurves.Ecdsa.Der.Content.{
  IsSmall, body-IsSmall, length-body, parse_content, parse_marked, serialize_small, serialize-body,
  parse_content-body, parse_content_strict,
}

parse_written :
    (ec : SigCurve) (sig : Sig) (check_validity strict : Bool) (rest : List ℕ)
    → IsSmall sig
    → parse ec (48 ∷ (length (body sig) ∷ (body sig ++ rest))) check_validity strict ≡ (
        refuse (strict && has_more rest) trailing_bytes
        >> (checked ec sig check_validity >> ok sig))
parse_written ec sig check_validity strict rest v =
    let size = length-body sig v.small_r v.small_s in
    parse_marked ec (length (body sig) ∷ (body sig ++ rest)) check_validity strict
    ∙ ap (λ r. r >>= parse_content ec check_validity strict)
        (parse_der_value-short (body sig) rest strict (omega (arith, size))
          (omega (arith, size, v.small_sum)))
    ∙ parse_content-body ec sig check_validity strict rest v

parse_serialized :
    (ec : SigCurve) (sig : Sig) (check_validity strict : Bool) (written rest : List ℕ)
    → IsSmall sig
    → serialize ec sig check_validity ≡ ok written
    → parse ec (written ++ rest) check_validity strict
      ≡ (refuse (strict && has_more rest) trailing_bytes >> ok sig)
parse_serialized ec sig check_validity strict written rest v e =
    let (w, c) = serialize-body ec sig check_validity v e in
    ap (λ st. parse ec (st ++ rest) check_validity strict) w
    ∙ parse_written ec sig check_validity strict rest v
    ∙ ap (λ (r : Result Unit). refuse (strict && has_more rest) trailing_bytes >> (r >> ok sig)) c

-- What serialize writes of a signature whose r and s are below 2 ^ 256, parse reads back as the
-- same signature, strict or not.
pub parse-serialize :
    (ec : SigCurve) (sig : Sig) (check_validity strict : Bool) (written : List ℕ)
    → sig.r < 2 ^ 256
    → sig.s < 2 ^ 256
    → serialize ec sig check_validity ≡ ok written
    → parse ec written check_validity strict ≡ ok sig
parse-serialize ec sig check_validity strict written a b e =
    ap (λ st. parse ec st check_validity strict) (sym (append-nil written))
    ∙ parse_serialized ec sig check_validity strict written [] (body-IsSmall sig a b) e
    ∙ nothing_more strict
  where
    nothing_more : (strict : Bool) → (refuse (strict && false) trailing_bytes >> ok sig) ≡ ok sig
    nothing_more true = refl
    nothing_more false = refl

-- Bytes that follow what serialize wrote of a signature whose r and s are below 2 ^ 256 are
-- refused under strict with the error of trailing bytes, and are passed over without it.
pub parse-serialize-trailing :
    (ec : SigCurve) (sig : Sig) (check_validity : Bool) (written : List ℕ) (b : ℕ) (rest : List ℕ)
    → sig.r < 2 ^ 256
    → sig.s < 2 ^ 256
    → serialize ec sig check_validity ≡ ok written
    → (parse ec (written ++ (b ∷ rest)) check_validity true ≡ err trailing_bytes)
      × (parse ec (written ++ (b ∷ rest)) check_validity false ≡ ok sig)
parse-serialize-trailing ec sig check_validity written b rest hr hs e =
    let v = body-IsSmall sig hr hs in
    (
      parse_serialized ec sig check_validity true written (b ∷ rest) v e,
      parse_serialized ec sig check_validity false written (b ∷ rest) v e,
    )

-- What `parse` accepts under `strict`.
record IsStrict (ec : SigCurve) (octets : List ℕ) (check_validity : Bool) (sig : Sig) : Type 0 where
  pub written : octets ≡ 48 ∷ (length (body sig) ∷ body sig)
  pub small : IsSmall sig
  pub accepted : checked ec sig check_validity ≡ ok tt

marker_is_48 :
    (ec : SigCurve) (marker : ℕ) (stream : List ℕ) (check_validity strict : Bool) {sig : Sig}
    → parse ec (marker ∷ stream) check_validity strict ≡ ok sig
    → marker ≡ 48
unfolding parse
marker_is_48 ec marker stream check_validity strict e =
    let (t, e1) = refuse-ok (not (marker == 48)) bad_header _ e in ground arith

parse-IsStrict :
    (ec : SigCurve) (octets : List ℕ) (check_validity : Bool) {sig : Sig}
    → AreBytes octets
    → parse ec octets check_validity true ≡ ok sig
    → IsStrict ec octets check_validity sig
parse-IsStrict ec [] check_validity a e = absurd (unfold parse in cc)
parse-IsStrict ec (marker ∷ stream) check_validity {sig} a e =
    let m = marker_is_48 ec marker stream check_validity true e in
    let (read, e1, e2) =
      >>=-ok (parse_der_value stream true) (parse_content ec check_validity true) (
        sym (parse_marked ec stream check_validity true)
        ∙ ap (λ k. parse ec (k ∷ stream) check_validity true) (sym m)
        ∙ e) in
    let (b, p, l) = parse_der_value_strict stream e1 in
    let content = (AreBytes-parts read.0 read.1 (subst AreBytes b a.1).1).0 in
    let (c, n, v, t) = parse_content_strict ec check_validity read.0 read.1 content e2 in
    record {
      written =
          ap₂ (λ k st. k ∷ st) m b
          ∙ ap₂ (λ d r. 48 ∷ (length d ∷ (d ++ r))) c n
          ∙ ap (λ r. 48 ∷ (length (body sig) ∷ r)) (append-nil (body sig));
      small = v;
      accepted = t;
    }

-- Whatever bytes parse accepts under strict, serialize writes the same bytes of the signature
-- that parse returned.
pub serialize-parse :
    (ec : SigCurve) (octets : List ℕ) (check_validity : Bool) (sig : Sig)
    → AreBytes octets
    → parse ec octets check_validity true ≡ ok sig
    → serialize ec sig check_validity ≡ ok octets
serialize-parse ec octets check_validity sig a e =
    let s = parse-IsStrict ec octets check_validity a e in
    serialize_small ec sig check_validity s.small
    ∙ ap (λ (r : Result Unit). r >> ok (48 ∷ (length (body sig) ∷ body sig))) s.accepted
    ∙ ap (λ st. ok st) (sym s.written)

-- Bytes that parse accepts under strict are at least 8 and at most 72.
pub parse_size_bounds :
    (ec : SigCurve) (octets : List ℕ) (check_validity : Bool) (sig : Sig)
    → AreBytes octets
    → parse ec octets check_validity true ≡ ok sig
    → (8 ≤ length octets) × (length octets ≤ 72)
parse_size_bounds ec octets check_validity sig a e =
    let s = parse-IsStrict ec octets check_validity a e in
    let size = length-body sig s.small.small_r s.small.small_s in
    omega (arith, ap length s.written, size, s.small.small_sum)

-- Bytes that parse accepts under strict it accepts without strict, as the same signature.
parse_lax :
    (ec : SigCurve) (octets : List ℕ) (check_validity : Bool) (sig : Sig)
    → AreBytes octets
    → parse ec octets check_validity true ≡ ok sig
    → parse ec octets check_validity false ≡ ok sig
parse_lax ec octets check_validity sig a e =
    let s = parse-IsStrict ec octets check_validity a e in
    ap (λ st. parse ec st check_validity false) (sym (append-nil octets))
    ∙ parse_serialized ec sig check_validity false octets [] s.small
        (serialize-parse ec octets check_validity sig a e)
