-- ===== src/Borromean/Wire.antt =====
-- ecc/borromean.py: the octets of a signature, `BorromeanSig.serialize` and `BorromeanSig.parse`.
use ellipticcurves.Prelude.{
  passed_lt, ℕ, zero, suc, ◌+◌, ◌^◌, ◌<◌, ◌≤◌, ◌≡◌, refl, sym, ap, ◌∙◌, subst, arith, Bool, true,
  false, List, [], ◌∷◌, ◌++◌, append_assoc, map, length, length-append, take, drop, take-append,
  drop-append, ltb, not, if◌then◌else◌,
}
use ellipticcurves.Prelude.Bytes.{to_bytes, from_bytes, length-to_bytes, from_bytes-to_bytes}
use ellipticcurves.Prelude.Result.{
  pass, Result, ok, ok_inj, >>=-ok, refuse, refuse-ok, ◌>>=◌, ◌>>◌, not_enough_data, trailing_bytes,
  no_keys, s_not_in_range, empty_e0, no_rings,
}
use ellipticcurves.Borromean.{
  BorromeanSig, is_empty, assert_valid, assert_valid_rings, assert_valid_values,
}

-- The octets of the values of a ring, and of all rings, `n_size` each.
pub values_octets : ℕ → List ℕ → List ℕ
values_octets n_size [] = []
values_octets n_size (s ∷ values) = to_bytes n_size s ++ values_octets n_size values

pub rings_octets : ℕ → List (List ℕ) → List ℕ
unfolding values_octets
rings_octets n_size [] = []
rings_octets n_size (values ∷ rings) = values_octets n_size values ++ rings_octets n_size rings

-- For a signature on the curve with the order n, whose scalars take n_size octets.
unfoldable pub serialize : ℕ → ℕ → BorromeanSig → Bool → Result (List ℕ)
unfolding rings_octets assert_valid
serialize n n_size sig check_validity = do
  (if check_validity then assert_valid n sig else ok tt)
  ok (sig.e0 ++ rings_octets n_size sig.s)

-- The octets that are read, and what is left of the stream.
pub read_exactly : ℕ → List ℕ → Result (List ℕ × List ℕ)
read_exactly size stream = do
  refuse (ltb (length stream) size) not_enough_data
  ok (take size stream, drop size stream)

pub read_ring : ℕ → ℕ → List ℕ → Result (List ℕ × List ℕ)
unfolding read_exactly
read_ring n_size zero stream = ok ([], stream)
read_ring n_size (suc rsize) stream = do
  chunk ← read_exactly n_size stream
  rest ← read_ring n_size rsize chunk.1
  ok (from_bytes chunk.0 ∷ rest.0, rest.1)

pub read_rings : ℕ → List ℕ → List ℕ → Result (List (List ℕ) × List ℕ)
unfolding read_ring
read_rings n_size [] stream = ok ([], stream)
read_rings n_size (rsize ∷ rsizes) stream = do
  values ← read_ring n_size rsize stream
  rest ← read_rings n_size rsizes values.1
  ok (values.0 ∷ rest.0, rest.1)

-- `sha256().digest_size`, `secp256k1.n` and `secp256k1.n_size`
abbrev pub digest_size : ℕ
digest_size = 32

abbrev pub secp256k1_n : ℕ
secp256k1_n = 0xFFFFFFFFFFFFFFFFFFFFFFFFFFFFFFFEBAAEDCE6AF48A03BBFD25E8CD0364141

abbrev pub secp256k1_n_size : ℕ
secp256k1_n_size = 32

-- For a digest of sha256 and the curve secp256k1, whatever the signature was made for.
unfoldable pub parse : List ℕ → List ℕ → Bool → Result BorromeanSig
unfolding read_exactly read_rings assert_valid
parse stream rsizes check_validity = do
  e0 ← read_exactly digest_size stream
  s ← read_rings secp256k1_n_size rsizes e0.1
  refuse (not (is_empty s.1)) trailing_bytes
  let sig : BorromeanSig = record { e0 = e0.0; s = s.0 }
  (if check_validity then assert_valid secp256k1_n sig else ok tt)
  ok sig

read_exactly-append :
    (xs ys : List ℕ) (k : ℕ) → length xs ≡ k → read_exactly k (xs ++ ys) ≡ ok (xs, ys)
unfolding read_exactly
read_exactly-append xs ys k e =
    subst (λ k. read_exactly k (xs ++ ys) ≡ ok (xs, ys)) e
      (rw
        (
          enough (length xs) (length ys) (length (xs ++ ys)) (length-append xs ys),
          take-append xs ys,
          drop-append xs ys,
        )
        refl)
  where
    enough : (a b l : ℕ) → l ≡ a + b → ltb l a ≡ false
    enough a b l e = ground arith

-- The values are below n.
abbrev AllBelow : ℕ → List ℕ → Type 0
AllBelow n [] = Unit
AllBelow n (s ∷ values) = (s < n) × AllBelow n values

abbrev EachBelow : ℕ → List (List ℕ) → Type 0
EachBelow n [] = Unit
EachBelow n (values ∷ rings) = AllBelow n values × EachBelow n rings

assert_valid_values-AllBelow :
    (n : ℕ) (values : List ℕ) → assert_valid_values n values ≡ ok tt → AllBelow n values
unfolding assert_valid_values
assert_valid_values-AllBelow n [] e = tt
assert_valid_values-AllBelow n (s ∷ values) e =
    let (t, e1) = refuse-ok (not (ltb s n)) s_not_in_range _ e in
    (passed_lt s n t, assert_valid_values-AllBelow n values e1)

assert_valid_rings-EachBelow :
    (n : ℕ) (rings : List (List ℕ)) → assert_valid_rings n rings ≡ ok tt → EachBelow n rings
unfolding assert_valid_rings
assert_valid_rings-EachBelow n [] e = tt
assert_valid_rings-EachBelow n (values ∷ rings) e =
    let (t, e1) = refuse-ok (is_empty values) no_keys _ e in
    let (_, e2, e3) = >>=-ok (assert_valid_values n values) _ e1 in
    (assert_valid_values-AllBelow n values e2, assert_valid_rings-EachBelow n rings e3)

read_ring-octets :
    (n n_size : ℕ) (values rest : List ℕ)
    → n ≤ 256 ^ n_size
    → AllBelow n values
    → read_ring n_size (length values) (values_octets n_size values ++ rest) ≡ ok (values, rest)
unfolding read_ring values_octets
read_ring-octets n n_size [] rest h b = refl
read_ring-octets n n_size (s ∷ values) rest h b =
    ap (read_ring n_size (suc (length values)))
      (append_assoc (to_bytes n_size s) (values_octets n_size values) rest)
    ∙ pass (read_exactly n_size (to_bytes n_size s ++ (values_octets n_size values ++ rest))) _ (
        read_exactly-append (to_bytes n_size s) (values_octets n_size values ++ rest) n_size
          (length-to_bytes n_size s))
    ∙ pass (read_ring n_size (length values) (values_octets n_size values ++ rest)) _
        (read_ring-octets n n_size values rest h b.1)
    ∙ ap (λ v. ok (v ∷ values, rest)) (from_bytes-to_bytes n_size s (omega (arith, h, b.0)))

read_rings-octets :
    (n n_size : ℕ) (rings : List (List ℕ))
    → n ≤ 256 ^ n_size
    → EachBelow n rings
    → read_rings n_size (map (λ (values : List ℕ). length values) rings) (rings_octets n_size rings)
      ≡ ok (rings, [])
unfolding read_rings rings_octets
read_rings-octets n n_size [] h b = refl
read_rings-octets n n_size (values ∷ rings) h b =
    pass
      (read_ring n_size (length values) (values_octets n_size values ++ rings_octets n_size rings))
      _ (read_ring-octets n n_size values (rings_octets n_size rings) h b.0)
    ∙ pass
        (read_rings n_size (map (λ (values : List ℕ). length values) rings)
          (rings_octets n_size rings))
        _ (read_rings-octets n n_size rings h b.1)

-- For a signature on secp256k1 with an e0 of 32 octets, the digest size of sha256: what
-- BorromeanSig.serialize writes of it, with its validity checked, BorromeanSig.parse reads back
-- for the sizes of its rings.
pub parse-serialize_back :
    (sig : BorromeanSig) (octets : List ℕ)
    → length sig.e0 ≡ digest_size
    → serialize secp256k1_n secp256k1_n_size sig true ≡ ok octets
    → parse octets (map (λ (values : List ℕ). length values) sig.s) true ≡ ok sig
unfolding serialize parse
parse-serialize_back sig octets l e =
    let (_, e1, e2) = >>=-ok (assert_valid secp256k1_n sig) _ e in
    let (t1, e3) = refuse-ok (is_empty sig.e0) empty_e0 _ e1 in
    let (t2, e4) = refuse-ok (is_empty sig.s) no_rings _ e3 in
    let rsizes = map (λ (values : List ℕ). length values) sig.s in
    ap (λ o. parse o rsizes true) (sym (ok_inj e2))
    ∙ pass (read_exactly digest_size (sig.e0 ++ rings_octets secp256k1_n_size sig.s)) _
        (read_exactly-append sig.e0 (rings_octets secp256k1_n_size sig.s) digest_size l)
    ∙ pass (read_rings secp256k1_n_size rsizes (rings_octets secp256k1_n_size sig.s)) _ (
        read_rings-octets secp256k1_n secp256k1_n_size sig.s (omega arith)
          (assert_valid_rings-EachBelow secp256k1_n sig.s e4))
    ∙ pass (assert_valid secp256k1_n sig) _ e1
