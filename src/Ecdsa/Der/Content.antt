-- ===== src/Ecdsa/Der/Content.antt =====
-- ecc/dsa.py: the sequence of a signature, before its scalars are taken apart.
use ellipticcurves.Prelude.{
  ℕ, ◌+◌, ◌/◌, ◌^◌, ◌<◌, ◌≤◌, ◌≡◌, refl, sym, ap, ◌∙◌, arith, Bool, true, false, List, [], ◌∷◌,
  ◌++◌, length, length-append, ltb, ◌&&◌,
}
use ellipticcurves.Prelude.Bytes.{bit_length, AreBytes}
use ellipticcurves.Prelude.Result.{
  Result, ok, refuse, ◌>>=◌, ◌>>◌, >>=-ok, ok_inj, refuse-ok, sequence_too_long, trailing_bytes,
}
use ellipticcurves.Ecdsa.{SigCurve, Sig, checked}
use ellipticcurves.Ecdsa.Der.{
  serialize_scalar, serialize, parse_der_value, has_more, parse_scalars, parse,
}
use ellipticcurves.Ecdsa.Der.Value.{der_length_short, length-serialize_scalar}
use ellipticcurves.Ecdsa.Der.Sequence.{
  scalar_size, body, parse_scalars-body, parse_scalars_strict, no_more,
}

-- The content takes at most 70 octets.
pub record IsSmall (sig : Sig) : Type 0 where
  pub small_r : bit_length sig.r / 8 < 127
  pub small_s : bit_length sig.s / 8 < 127
  pub small_sum : bit_length sig.r / 8 + bit_length sig.s / 8 ≤ 64

pub length-body :
    (sig : Sig)
    → bit_length sig.r / 8 < 127
    → bit_length sig.s / 8 < 127
    → length (body sig) ≡ bit_length sig.r / 8 + bit_length sig.s / 8 + 6
unfolding body
length-body sig a b = omega (
  arith,
  length-append (serialize_scalar sig.r) (serialize_scalar sig.s),
  length-serialize_scalar sig.r a,
  length-serialize_scalar sig.s b,
)

pub body-IsSmall : (sig : Sig) → sig.r < 2 ^ 256 → sig.s < 2 ^ 256 → IsSmall sig
body-IsSmall sig a b =
    let c = scalar_size sig.r a in
    let d = scalar_size sig.s b in
    record { small_r = omega arith; small_s = omega arith; small_sum = omega arith }

content_end : SigCurve → Bool → List ℕ → Sig → Result Sig
content_end ec check_validity rest sig = do
  refuse (has_more rest) trailing_bytes
  checked ec sig check_validity
  ok sig

-- What `parse` does with the sequence's content and what follows it.
unfoldable pub parse_content : SigCurve → Bool → Bool → List ℕ × List ℕ → Result Sig
parse_content ec check_validity strict sig_data = do
  refuse (strict && ltb 70 (length sig_data.0)) sequence_too_long
  sig ← parse_scalars sig_data.0 strict
  refuse (strict && has_more sig_data.1) trailing_bytes
  checked ec sig check_validity
  ok sig

pub parse_marked :
    (ec : SigCurve) (stream : List ℕ) (check_validity strict : Bool)
    → parse ec (48 ∷ stream) check_validity strict
      ≡ (parse_der_value stream strict >>= parse_content ec check_validity strict)
unfolding parse parse_content
parse_marked ec stream check_validity strict = refl

pub serialize_small :
    (ec : SigCurve) (sig : Sig) (check_validity : Bool)
    → IsSmall sig
    → serialize ec sig check_validity
      ≡ (checked ec sig check_validity >> ok (48 ∷ (length (body sig) ∷ body sig)))
unfolding serialize body
serialize_small ec sig check_validity v =
    ap (λ l. checked ec sig check_validity >> ok (48 ∷ (l ++ body sig)))
      (der_length_short (length (body sig))
        (omega (arith, length-body sig v.small_r v.small_s, v.small_sum)))

pub serialize-body :
    (ec : SigCurve) (sig : Sig) (check_validity : Bool) {written : List ℕ}
    → IsSmall sig
    → serialize ec sig check_validity ≡ ok written
    → (written ≡ 48 ∷ (length (body sig) ∷ body sig)) × (checked ec sig check_validity ≡ ok tt)
serialize-body ec sig check_validity v e =
    let (t, e1, e2) =
      >>=-ok (checked ec sig check_validity) (λ t. ok (48 ∷ (length (body sig) ∷ body sig)))
        (sym (serialize_small ec sig check_validity v) ∙ e) in
    (sym (ok_inj e2), e1)

not_too_long : (strict : Bool) (size : ℕ) → size ≤ 70 → strict && ltb 70 size ≡ false
not_too_long strict size h = ground arith

pub parse_content-body :
    (ec : SigCurve) (sig : Sig) (check_validity strict : Bool) (rest : List ℕ)
    → IsSmall sig
    → parse_content ec check_validity strict (body sig, rest) ≡ (
        refuse (strict && has_more rest) trailing_bytes
        >> (checked ec sig check_validity >> ok sig))
unfolding parse_content
parse_content-body ec sig check_validity strict rest v = rw (
  not_too_long strict (length (body sig))
      (omega (arith, length-body sig v.small_r v.small_s, v.small_sum)),
  parse_scalars-body sig strict v.small_r v.small_s,
)

pub parse_content_strict :
    (ec : SigCurve) (check_validity : Bool) (content rest : List ℕ) {sig : Sig}
    → AreBytes content
    → parse_content ec check_validity true (content, rest) ≡ ok sig
    → (content ≡ body sig) × (rest ≡ []) × IsSmall sig × (checked ec sig check_validity ≡ ok tt)
unfolding parse_content content_end
parse_content_strict ec check_validity content rest {sig} a e =
    let (l, e1) = refuse-ok (ltb 70 (length content)) sequence_too_long _ e in
    let (read, e2, e3) =
      >>=-ok (parse_scalars content true) (content_end ec check_validity rest) e1 in
    let (n, e4) = refuse-ok (has_more rest) trailing_bytes _ e3 in
    let (t, e5, e6) = >>=-ok (checked ec read check_validity) (λ t. ok read) e4 in
    let same = ok_inj e6 in
    let (b, hr, hs) = parse_scalars_strict content a (e2 ∙ ap (λ s. ok s) same) in
    let size : length content ≤ 70 = ground arith in
    (
      b,
      no_more rest n,
      record {
        small_r = hr;
        small_s = hs;
        small_sum = omega (arith, ap length b, length-body sig hr hs);
      },
      ap (λ s. checked ec s check_validity) (sym same) ∙ e5,
    )
