-- ===== src/Ecdsa/Der/Scalar.antt =====
-- ecc/dsa.py: which octets are the shortest encoding of a scalar, with the padding of the highest bit.
use native.Mathlib.Nat
use ellipticcurves.Prelude.{
  ℕ, zero, suc, ◌+◌, ◌*◌, ◌/◌, ◌^◌, ◌≤◌, ◌<◌, ◌≡◌, refl, ap, arith, List, [], ◌∷◌, length, max,
  dec_lt,
}
use ellipticcurves.Prelude.Bytes.{
  bit_length, bit_length_bounds, AreBytes, from_bytes, from_bytes-cons, from_bytes-lt,
  pow_256_positive, pow_add,
}
use ellipticcurves.Prelude.Result.{ok}
use ellipticcurves.Ecdsa.Der.{strict_scalar}

-- `v` needs `k` octets and at most seven bits more.
abbrev pub Fits : ℕ → ℕ → Type 0
Fits zero v = v < 128
Fits (suc k) v = (128 * 256 ^ k ≤ v) × (v < 128 * 256 ^ suc k)

pub pow_256 : (k : ℕ) → 256 ^ k ≡ 2 ^ (8 * k)
pow_256 zero = refl
pow_256 (suc k) = omega (
  arith,
  Nat.pow-succ' 256 k,
  pow_256 k,
  pow_add 8 (8 * k),
  ap (λ n. 2 ^ n) {x = 8 * suc k} {y = 8 + 8 * k} (omega arith),
)

Fits-of_bits :
    (k l v : ℕ) → 8 * k ≤ l → l ≤ 8 * k + 7 → v < 2 ^ l → 2 ^ l ≤ max 1 (2 * v) → Fits k v
Fits-of_bits zero l v a b c d = omega (arith, Nat.pow-le-pow_right {n = 2} (omega arith) b)
Fits-of_bits (suc k) l v a b c d =
    let upper : 2 ^ l ≤ 2 ^ (7 + 8 * suc k) = Nat.pow-le-pow_right (omega arith) (omega arith) in
    let lower : 2 ^ (8 * suc k) ≤ 2 ^ l = Nat.pow-le-pow_right (omega arith) a in
    let split = pow_add 7 (8 * suc k) in
    omega (arith, pow_256 (suc k), Nat.pow-succ' 256 k, pow_256_positive k)

pub bit_length-Fits : (v : ℕ) → Fits (bit_length v / 8) v
bit_length-Fits v =
    let (a, b) = bit_length_bounds v in
    Fits-of_bits (bit_length v / 8) (bit_length v) v (omega arith) (omega arith) a b

pub Fits-lt : (k v : ℕ) → Fits k v → v < 256 ^ suc k
Fits-lt zero v f = omega arith
Fits-lt (suc k) v f = omega (arith, f.1, Nat.pow-succ' 256 (suc k), pow_256_positive (suc k))

pub Fits-unique : (j k v : ℕ) → Fits j v → Fits k v → j ≡ k
Fits-unique zero zero v f g = refl
Fits-unique zero (suc k) v f g = absurd (omega (arith, g.0, pow_256_positive k))
Fits-unique (suc j) zero v f g = absurd (omega (arith, f.0, pow_256_positive j))
Fits-unique (suc j) (suc k) v f g = elim (dec_lt j k) [
  | yes l ↦ absurd (omega (arith, f.1, g.0, powers (suc j) k l))
  | no m ↦ elim (dec_lt k j) [
    | yes l ↦ absurd (omega (arith, f.0, g.1, powers (suc k) j l))
    | no l ↦ omega arith
  ]
]
  where
    powers : (i l : ℕ) → i ≤ l → 256 ^ i ≤ 256 ^ l
    powers i l h = Nat.pow-le-pow_right (omega arith) h

-- The first two octets decide the size.
lead_le : (P q w m : ℕ) → m ≤ q → m * P ≤ q * P + w
lead_le P q w m h = omega (arith, Nat.mul-le-mul_right {m = m} {n = q} P h)

lead_lt : (P q w m : ℕ) → w < P → q < m → q * P + w < m * P
lead_lt P q w m l h = omega (arith, Nat.mul-le-mul_right {m = suc q} {n = m} P (omega arith))

le_lead : (P q w m : ℕ) → w < P → m * P ≤ q * P + w → m ≤ q
le_lead P q w m l h = elim (dec_lt q m) [
  | yes d ↦ absurd (omega (arith, lead_lt P q w m l d))
  | no d ↦ omega arith
]

lt_lead : (P q w m : ℕ) → q * P + w < m * P → q < m
lt_lead P q w m h = elim (dec_lt q m) [
  | yes d ↦ d
  | no d ↦ absurd (omega (arith, lead_le P q w m (omega arith)))
]

two_bytes :
    (b c : ℕ) (bs : List ℕ)
    → from_bytes (b ∷ c ∷ bs) ≡ (256 * b + c) * 256 ^ length bs + from_bytes bs
two_bytes b c bs = omega (
  arith,
  from_bytes-cons b (c ∷ bs),
  from_bytes-cons c bs,
  ap (λ (t : ℕ). b * t) (Nat.pow-succ' 256 (length bs)),
)

one_byte : (b : ℕ) → from_bytes (b ∷ []) ≡ b
one_byte b = unfold from_bytes in omega arith

strict_two :
    (b c : ℕ) (bs : List ℕ) → strict_scalar (b ∷ c ∷ bs) ≡ ok tt → (128 ≤ 256 * b + c) × (b < 128)
unfolding strict_scalar
strict_two b c bs h = ground arith

pub strict_scalar-Fits :
    (b : ℕ) (bs : List ℕ)
    → AreBytes (b ∷ bs)
    → strict_scalar (b ∷ bs) ≡ ok tt
    → Fits (length bs) (from_bytes (b ∷ bs))
strict_scalar-Fits b [] a h =
    let l : b < 128 = unfold strict_scalar in ground arith in omega (arith, one_byte b)
strict_scalar-Fits b (c ∷ bs) a h =
    let (m, l) = strict_two b c bs h in
    let P = 256 ^ length bs in
    let lower = lead_le P (256 * b + c) (from_bytes bs) 128 m in
    let upper =
      lead_lt P (256 * b + c) (from_bytes bs) 32768 (from_bytes-lt bs a.1.1)
        (omega (arith, a.1.0)) in
    omega (arith, two_bytes b c bs, Nat.pow-succ' 256 (length bs))

pub Fits-strict_scalar :
    (b : ℕ) (bs : List ℕ)
    → AreBytes (b ∷ bs)
    → Fits (length bs) (from_bytes (b ∷ bs))
    → strict_scalar (b ∷ bs) ≡ ok tt
Fits-strict_scalar b [] a h =
    let l : b < 128 = omega (arith, one_byte b) in unfold strict_scalar in ground arith
Fits-strict_scalar b (c ∷ bs) a h =
    let P = 256 ^ length bs in
    let w = from_bytes bs in
    let value = two_bytes b c bs in
    let m : 128 ≤ 256 * b + c =
      le_lead P (256 * b + c) w 128 (from_bytes-lt bs a.1.1) (omega (arith, h.0)) in
    let u : 256 * b + c < 32768 =
      lt_lead P (256 * b + c) w 32768 (omega (arith, h.1, Nat.pow-succ' 256 (length bs))) in
    let l : b < 128 = omega arith in unfold strict_scalar in ground (arith, a.1.0)
