-- ===== src/Borromean.antt =====
-- ecc/borromean.py: ring signatures. The hash function and the octets of a point are parameters.
pub mod Ring
pub mod Correct
pub mod Wire
use ellipticcurves.Prelude.{
  ℕ, suc, ◌+◌, ◌*◌, ◌%◌, Bool, true, false, List, [], ◌∷◌, ◌++◌, map, length, take, drop, ltb, ◌==◌,
  not, ◌&&◌,
}
use ellipticcurves.Prelude.Bytes.{to_bytes}
use ellipticcurves.Prelude.Int.{pos, neg_ℤ}
use ellipticcurves.Prelude.Result.{
  Result, ok, err, refuse, ◌>>=◌, ◌>>◌, no_octets, prv_key_range, implausible, failed_verification,
  empty_e0, no_rings, no_keys, s_not_in_range, ring_shape, sign_key_range,
}
use ellipticcurves.Curve.{Point}
use ellipticcurves.Points.{PointArith}

-- `digest` is the digest of `hf`, `scalar_of h` is `int_from_bits(h, ec.nlen)` and `octets_of` has the
-- octets of a point that is not infinity.
pub record RingOps : Type 0 where
  pub points : PointArith
  pub n : ℕ
  pub digest : List ℕ → List ℕ
  pub scalar_of : List ℕ → ℕ
  pub octets_of : Point → List ℕ

-- The curve of a signature is passed beside it.
pub record BorromeanSig : Type 0 where
  pub e0 : List ℕ
  pub s : List (List ℕ)

-- What the arguments of `sign_` say of one ring, with the values that are drawn for it: `drawn` at
-- first and `redrawn` in step 2, one for each position before j_star.
pub record RingInput : Type 0 where
  pub keys : List Point
  pub j_star : ℕ
  pub k : ℕ
  pub q : ℕ
  pub drawn : List ℕ
  pub redrawn : List ℕ

unfoldable pub zip : List Point → List ℕ → List (Point × ℕ)
zip (P ∷ Ps) (s ∷ ss) = (P, s) ∷ zip Ps ss
zip _ _ = []

abbrev pub same_octets : List ℕ → List ℕ → Bool
same_octets [] [] = true
same_octets (a ∷ xs) (b ∷ ys) = a == b && same_octets xs ys
same_octets _ _ = false

abbrev pub is_empty {ℓ} : {A : Type ℓ} → List A → Bool
is_empty [] = true
is_empty (x ∷ xs) = false

abbrev pub before : RingInput → List (Point × ℕ)
before input = zip (take input.j_star input.keys) input.redrawn

abbrev pub after : RingInput → List (Point × ℕ)
after input = zip (drop (suc input.j_star) input.keys) (drop (suc input.j_star) input.drawn)

abbrev pub rings_of : List RingInput → List (List Point)
rings_of inputs = map (λ (input : RingInput). input.keys) inputs

-- A check of every ring.
pub each_passes : (RingInput → Result (Unit {0})) → List RingInput → Result (Unit {0})
each_passes check [] = ok tt
each_passes check (input ∷ inputs) = check input >> each_passes check inputs

-- `_assert_matches_pubk_rings`
pub matches_pubk_rings : List (List Point) → List (List ℕ) → Bool
matches_pubk_rings [] [] = true
matches_pubk_rings (keys ∷ pubk_rings) (values ∷ s) =
    length values == length keys && matches_pubk_rings pubk_rings s
matches_pubk_rings _ _ = false

-- `BorromeanSig.assert_valid`, for a curve of order n.
pub assert_valid_values : ℕ → List ℕ → Result (Unit {0})
assert_valid_values n [] = ok tt
assert_valid_values n (s ∷ values) =
    refuse (not (ltb s n)) s_not_in_range >> assert_valid_values n values

pub assert_valid_rings : ℕ → List (List ℕ) → Result (Unit {0})
unfolding assert_valid_values
assert_valid_rings n [] = ok tt
assert_valid_rings n (values ∷ rings) = do
  refuse (is_empty values) no_keys
  assert_valid_values n values
  assert_valid_rings n rings

unfoldable pub assert_valid : ℕ → BorromeanSig → Result (Unit {0})
unfolding assert_valid_rings
assert_valid n sig = do
  refuse (is_empty sig.e0) empty_e0
  refuse (is_empty sig.s) no_rings
  assert_valid_rings n sig.s

module _ (ring : RingOps) where
  open ring use {points, n}

  -- `_hash`
  abbrev pub hash : List ℕ → List ℕ → ℕ → ℕ → List ℕ
  hash m R i j = ring.digest (R ++ m ++ to_bytes 4 i ++ to_bytes 4 j)

  unfoldable pub bytes_from_ring_point : Point → Result (List ℕ)
  bytes_from_ring_point Q = do refuse (Q.y == 0) no_octets; ok (ring.octets_of Q)

  pub all_bytes : List Point → Result (List ℕ)
  unfolding bytes_from_ring_point
  all_bytes [] = ok []
  all_bytes (Q ∷ keys) = do
    bytes_ ← bytes_from_ring_point Q
    rest ← all_bytes keys
    ok (bytes_ ++ rest)

  pub rings_bytes : List (List Point) → Result (List ℕ)
  unfolding all_bytes
  rings_bytes [] = ok []
  rings_bytes (keys ∷ pubk_rings) = do
    bytes_ ← all_bytes keys
    rest ← rings_bytes pubk_rings
    ok (bytes_ ++ rest)

  -- `_get_msg_format`
  unfoldable pub get_msg_format : List ℕ → List (List Point) → Result (List ℕ)
  unfolding rings_bytes
  get_msg_format msg pubk_rings = do t ← rings_bytes pubk_rings; ok (ring.digest (msg ++ t))

  -- `e[i][j]`, which is not zero.
  unfoldable pub ring_challenge : List ℕ → List ℕ → ℕ → ℕ → Result ℕ
  ring_challenge m R i j = do
    let e = ring.scalar_of (hash m R i j) % n
    refuse (e == 0) implausible
    ok e

  -- `-e * Q + s * G`, in octets.
  unfoldable pub ring_point : ℕ → Point → ℕ → Result (List ℕ)
  unfolding bytes_from_ring_point
  ring_point e Q s = bytes_from_ring_point (points.double_mult (neg_ℤ (pos e)) Q (pos s) points.gen)

  -- The inner loop of step 1, from position j on: the octets that close the ring.
  unfoldable pub close : List ℕ → ℕ → ℕ → List ℕ → List (Point × ℕ) → Result (List ℕ)
  unfolding ring_challenge ring_point
  close m i j r [] = ok r
  close m i j r ((Q, s) ∷ rest) = do
    e ← ring_challenge m r i j
    t ← ring_point e Q s
    close m i (suc j) t rest

  -- The inner loop of step 2: the challenge at position j_star.
  unfoldable pub lead : List ℕ → ℕ → ℕ → ℕ → List (Point × ℕ) → Result ℕ
  unfolding ring_challenge ring_point
  lead m i j e [] = ok e
  lead m i j e ((Q, s) ∷ rest) = do
    r ← ring_point e Q s
    e' ← ring_challenge m r i (suc j)
    lead m i (suc j) e' rest

  -- Step 1 for one ring, and for all.
  unfoldable pub close_ring : List ℕ → ℕ → RingInput → Result (List ℕ)
  unfolding close zip
  close_ring m i input = do
    r ← bytes_from_ring_point (points.mult input.k points.gen)
    close m i (suc input.j_star) r (after input)

  unfoldable pub close_rings : List ℕ → ℕ → List RingInput → Result (List ℕ)
  unfolding close_ring
  close_rings m i [] = ok []
  close_rings m i (input ∷ inputs) = do
    r ← close_ring m i input
    rest ← close_rings m (suc i) inputs
    ok (r ++ rest)

  -- Step 2 for one ring, and for all.
  unfoldable pub sign_ring : List ℕ → List ℕ → ℕ → RingInput → Result (List ℕ)
  unfolding lead zip
  sign_ring m e0 i input = do
    e ← ring_challenge m e0 i 0
    e_star ← lead m i 0 e (before input)
    ok (
        map (λ (t : Point × ℕ). t.1) (before input)
        ++ (input.k + input.q * e_star) % n ∷ map (λ (t : Point × ℕ). t.1) (after input))

  unfoldable pub sign_rings : List ℕ → List ℕ → ℕ → List RingInput → Result (List (List ℕ))
  unfolding sign_ring
  sign_rings m e0 i [] = ok []
  sign_rings m e0 i (input ∷ inputs) = do
    values ← sign_ring m e0 i input
    rest ← sign_rings m e0 (suc i) inputs
    ok (values ∷ rest)

  -- `_assert_sign_key_idx_in_range`, and the scalars.
  abbrev pub assert_valid_inputs : List RingInput → Result (Unit {0})
  assert_valid_inputs inputs = do
    each_passes (λ input. refuse (not (ltb input.j_star (length input.keys))) sign_key_range) inputs
    each_passes (λ input. refuse (not (ltb 0 input.k && ltb input.k n)) prv_key_range) inputs
    each_passes (λ input. refuse (not (ltb 0 input.q && ltb input.q n)) prv_key_range) inputs

  unfoldable pub sign_ : List ℕ → List RingInput → Result BorromeanSig
  unfolding rings_bytes each_passes close_rings sign_rings assert_valid
  sign_ m inputs = do
    t ← rings_bytes (rings_of inputs)
    assert_valid_inputs inputs
    e0bytes ← close_rings m 0 inputs
    let e0 = ring.digest (e0bytes ++ m)
    s ← sign_rings m e0 0 inputs
    let sig : BorromeanSig = record { e0 = e0; s = s }
    assert_valid n sig
    ok sig

  unfoldable pub sign : List ℕ → List RingInput → Result BorromeanSig
  unfolding get_msg_format sign_
  sign msg inputs = do m ← get_msg_format msg (rings_of inputs); sign_ m inputs

  -- The inner loop of the verification, from position j on, where the challenge is e.
  unfoldable pub walk : List ℕ → ℕ → ℕ → ℕ → List (Point × ℕ) → Result (List ℕ)
  unfolding ring_challenge ring_point
  walk m i j e [] = ok []
  walk m i j e ((Q, s) ∷ []) = ring_point e Q s
  walk m i j e ((Q, s) ∷ (position ∷ rest)) = do
    r ← ring_point e Q s
    e' ← ring_challenge m r i (suc j)
    walk m i (suc j) e' (position ∷ rest)

  unfoldable pub walk_rings :
      List ℕ → List ℕ → ℕ → List (List Point) → List (List ℕ) → Result (List ℕ)
  unfolding walk zip
  walk_rings m e0 i (keys ∷ pubk_rings) (values ∷ s) = do
    e ← ring_challenge m e0 i 0
    r ← walk m i 0 e (zip keys values)
    rest ← walk_rings m e0 (suc i) pubk_rings s
    ok (r ++ rest)
  walk_rings m e0 i _ _ = ok []

  unfoldable pub assert_as_valid : List ℕ → BorromeanSig → List (List Point) → Result (Unit {0})
  unfolding assert_valid matches_pubk_rings get_msg_format walk_rings
  assert_as_valid msg sig pubk_rings = do
    assert_valid n sig
    refuse (not (matches_pubk_rings pubk_rings sig.s)) ring_shape
    m ← get_msg_format msg pubk_rings
    e0bytes ← walk_rings m sig.e0 0 pubk_rings sig.s
    refuse (not (same_octets (ring.digest (e0bytes ++ m)) sig.e0)) failed_verification
