-- ===== src/Prelude/Bytes.antt =====
-- Python's `int.bit_length`, `int.to_bytes` and `int.from_bytes`, on lists of bytes.
use native.Mathlib.Nat
use ellipticcurves.Prelude.{
  ℕ, zero, suc, ◌+◌, ◌*◌, ◌/◌, ◌%◌, ◌^◌, ◌≤◌, ◌<◌, ◌≡◌, refl, ap, ap₂, ◌∙◌, arith, List, [], ◌∷◌,
  ◌++◌, length, length-append, max, false, ◌==◌, if◌then◌else◌, Bool-cases, inl, inr,
}

pub pow_add : (a b : ℕ) → 2 ^ (a + b) ≡ 2 ^ a * 2 ^ b
pow_add zero b = ap (λ n. 2 ^ n) {x = 0 + b} {y = b} (omega arith) ∙ omega arith
pow_add (suc a) b =
    ap (λ n. 2 ^ n) {x = suc a + b} {y = suc (a + b)} (omega arith) ∙ grind (arith, pow_add a b)

unfoldable pub bits_of_fuel : ℕ → ℕ → ℕ
bits_of_fuel zero n = 0
bits_of_fuel (suc fuel) n = let rest = suc (bits_of_fuel fuel (n / 2)) in if n == 0 then 0 else rest

-- A number has at most as many bits as its value, so the fuel `n` is enough.
unfoldable pub bit_length : ℕ → ℕ
unfolding bits_of_fuel
bit_length n = bits_of_fuel n n

bits_of_fuel_step :
    (fuel n : ℕ)
    → n == 0 ≡ false
    → 2 ^ bits_of_fuel (suc fuel) n ≡ 2 * 2 ^ bits_of_fuel fuel (n / 2)
bits_of_fuel_step fuel n e =
    ap (λ k. 2 ^ k) {x = bits_of_fuel (suc fuel) n} {y = suc (bits_of_fuel fuel (n / 2))}
      (unfold bits_of_fuel in rw e)
    ∙ omega arith

bits_of_fuel_zero : (fuel : ℕ) → bits_of_fuel fuel 0 ≡ 0
unfolding bits_of_fuel
bits_of_fuel_zero zero = refl
bits_of_fuel_zero (suc fuel) = refl

bits_of_fuel_bounds :
    (fuel n : ℕ)
    → n ≤ fuel
    → (n < 2 ^ bits_of_fuel fuel n) × (2 ^ bits_of_fuel fuel n ≤ max 1 (2 * n))
bits_of_fuel_bounds zero n h = unfold bits_of_fuel in omega arith
bits_of_fuel_bounds (suc fuel) n h = elim (Bool-cases (n == 0)) [
  | inl e ↦
      let z : n ≡ 0 = ground arith in
      let w : 2 ^ bits_of_fuel (suc fuel) n ≡ 1 =
        ap (λ k. 2 ^ bits_of_fuel (suc fuel) k) z
        ∙ ap (λ k. 2 ^ k) (bits_of_fuel_zero (suc fuel)) in
      omega arith
  | inr e ↦
      let p : 0 < n = ground arith in
      let (a, b) = bits_of_fuel_bounds fuel (n / 2) (omega arith) in
      omega (arith, bits_of_fuel_step fuel n e)
]

pub bit_length_bounds : (n : ℕ) → (n < 2 ^ bit_length n) × (2 ^ bit_length n ≤ max 1 (2 * n))
unfolding bit_length
bit_length_bounds n = bits_of_fuel_bounds n n (omega arith)

abbrev pub AreBytes : List ℕ → Type 0
AreBytes [] = Unit
AreBytes (b ∷ bs) = (b < 256) × AreBytes bs

-- `n.to_bytes(size, "big")`, of an `n` that fits.
unfoldable pub to_bytes : ℕ → ℕ → List ℕ
to_bytes zero n = []
to_bytes (suc size) n = to_bytes size (n / 256) ++ (n % 256 ∷ [])

unfoldable pub from_bytes_loop : ℕ → List ℕ → ℕ
from_bytes_loop v [] = v
from_bytes_loop v (b ∷ bs) = from_bytes_loop (v * 256 + b) bs

-- `int.from_bytes(bs, "big")` and `int.from_bytes(bs, "little")`
unfoldable pub from_bytes : List ℕ → ℕ
unfolding from_bytes_loop
from_bytes bs = from_bytes_loop 0 bs

unfoldable pub from_bytes_little : List ℕ → ℕ
from_bytes_little [] = 0
from_bytes_little (b ∷ bs) = b + 256 * from_bytes_little bs

pub length-to_bytes : (size n : ℕ) → length (to_bytes size n) ≡ size
unfolding to_bytes
length-to_bytes zero n = refl
length-to_bytes (suc size) n =
    omega (
      arith,
      length-append (to_bytes size (n / 256)) (n % 256 ∷ []),
      length-to_bytes size (n / 256),
    )

pub AreBytes-append : (xs ys : List ℕ) → AreBytes xs → AreBytes ys → AreBytes (xs ++ ys)
AreBytes-append [] ys a b = b
AreBytes-append (x ∷ xs) ys a b = (a.0, AreBytes-append xs ys a.1 b)

pub to_bytes-AreBytes : (size n : ℕ) → AreBytes (to_bytes size n)
unfolding to_bytes
to_bytes-AreBytes zero n = tt
to_bytes-AreBytes (suc size) n =
    AreBytes-append (to_bytes size (n / 256)) (n % 256 ∷ []) (to_bytes-AreBytes size (n / 256))
      (omega arith)

pub AreBytes-parts : (xs ys : List ℕ) → AreBytes (xs ++ ys) → AreBytes xs × AreBytes ys
AreBytes-parts [] ys a = (tt, a)
AreBytes-parts (x ∷ xs) ys a = let (b, c) = AreBytes-parts xs ys a.1 in ((a.0, b), c)

from_bytes_loop-append :
    (v b : ℕ) (xs : List ℕ) → from_bytes_loop v (xs ++ (b ∷ [])) ≡ from_bytes_loop v xs * 256 + b
unfolding from_bytes_loop
from_bytes_loop-append v b [] = refl
from_bytes_loop-append v b (x ∷ xs) = from_bytes_loop-append (v * 256 + x) b xs

pub from_bytes-append :
    (b : ℕ) (xs : List ℕ) → from_bytes (xs ++ (b ∷ [])) ≡ from_bytes xs * 256 + b
unfolding from_bytes
from_bytes-append b xs = from_bytes_loop-append 0 b xs

-- What has been written is read back.
pub from_bytes-to_bytes : (size n : ℕ) → n < 256 ^ size → from_bytes (to_bytes size n) ≡ n
unfolding to_bytes
from_bytes-to_bytes zero n h = unfold from_bytes in omega arith
from_bytes-to_bytes (suc size) n h =
    from_bytes-append (n % 256) (to_bytes size (n / 256))
    ∙ omega (arith, from_bytes-to_bytes size (n / 256) (omega arith))

first_byte :
    (x : ℕ) (xs : List ℕ)
    → from_bytes_loop x xs ≡ x * 256 ^ length xs + from_bytes_loop 0 xs
    → from_bytes_loop 0 (x ∷ xs) ≡ x * 256 ^ length xs + from_bytes_loop 0 xs
unfolding from_bytes_loop
first_byte x xs e = ap (λ v. from_bytes_loop v xs) {x = 0 * 256 + x} {y = x} (omega arith) ∙ e

from_bytes_loop_from :
    (v : ℕ) (xs : List ℕ) → from_bytes_loop v xs ≡ v * 256 ^ length xs + from_bytes_loop 0 xs
unfolding from_bytes_loop
from_bytes_loop_from v [] = omega arith
from_bytes_loop_from v (x ∷ xs) =
    from_bytes_loop_from (v * 256 + x) xs
    ∙ omega (
      arith,
      first_byte x xs (from_bytes_loop_from x xs),
      ap (λ (t : ℕ). v * t) (Nat.pow-succ' 256 (length xs)),
    )

-- The first byte is the most significant one.
pub from_bytes-cons :
    (b : ℕ) (xs : List ℕ) → from_bytes (b ∷ xs) ≡ b * 256 ^ length xs + from_bytes xs
unfolding from_bytes
from_bytes-cons b xs =
    ap (λ v. from_bytes_loop v xs) {x = 0 * 256 + b} {y = b} (omega arith)
    ∙ from_bytes_loop_from b xs

pub from_bytes-lt : (xs : List ℕ) → AreBytes xs → from_bytes xs < 256 ^ length xs
from_bytes-lt [] a = unfold from_bytes in omega arith
from_bytes-lt (x ∷ xs) a = omega (
  arith,
  from_bytes-cons x xs,
  from_bytes-lt xs a.1,
  Nat.mul-le-mul_right {m = x} {n = 255} (256 ^ length xs) (omega (arith, a.0)),
  Nat.pow-succ' 256 (length xs),
)

-- The bytes from the first one on.
to_bytes_first : (size n : ℕ) → to_bytes (suc size) n ≡ (n / 256 ^ size % 256) ∷ to_bytes size n
unfolding to_bytes
to_bytes_first zero n = ap (λ k. k % 256 ∷ []) {x = n} {y = n / 1} (omega arith)
to_bytes_first (suc size) n =
    ap (λ bs. bs ++ (n % 256 ∷ [])) (to_bytes_first size (n / 256))
    ∙ ap (λ k. (k % 256) ∷ (to_bytes size (n / 256) ++ (n % 256 ∷ [])))
        (Nat.div-div-eq-div-mul n 256 (256 ^ size)
          ∙ ap (λ k. n / k) {x = 256 * 256 ^ size} {y = 256 ^ suc size} (omega arith))

low_part : (size a m : ℕ) → a * 256 ^ suc size ≡ 256 * (a * 256 ^ size)
low_part size a m = omega (arith, ap (λ (t : ℕ). a * t) (Nat.pow-succ' 256 size))

to_bytes_low : (size a m : ℕ) → to_bytes size (a * 256 ^ size + m) ≡ to_bytes size m
unfolding to_bytes
to_bytes_low zero a m = refl
to_bytes_low (suc size) a m =
    ap₂ (λ k l. to_bytes size k ++ (l ∷ [])) {x = (a * 256 ^ suc size + m) / 256}
      {y = a * 256 ^ size + m / 256} (omega (arith, low_part size a m))
      (omega (arith, low_part size a m))
    ∙ ap (λ bs. bs ++ (m % 256 ∷ [])) (to_bytes_low size a (m / 256))

pub pow_256_positive : (n : ℕ) → 0 < 256 ^ n
pow_256_positive zero = omega arith
pow_256_positive (suc n) = omega (arith, Nat.pow-succ' 256 n, pow_256_positive n)

-- What has been read is written back.
pub to_bytes-from_bytes : (xs : List ℕ) → AreBytes xs → to_bytes (length xs) (from_bytes xs) ≡ xs
to_bytes-from_bytes [] a = unfold to_bytes in refl
to_bytes-from_bytes (x ∷ xs) a =
    to_bytes_first (length xs) (from_bytes (x ∷ xs))
    ∙ ap₂ (λ b bs. b ∷ bs)
        (ap (λ n. n / 256 ^ length xs % 256)
            (from_bytes-cons x xs ∙ Nat.add_comm (x * 256 ^ length xs) (from_bytes xs))
          ∙ ap (λ n. n % 256)
              (Nat.add-mul-div_right (from_bytes xs) x (pow_256_positive (length xs)))
          ∙ ap (λ n. (n + x) % 256) (Nat.div-eq_of_lt (from_bytes-lt xs a.1))
          ∙ omega (arith, a.0))
        (ap (to_bytes (length xs)) (from_bytes-cons x xs)
          ∙ to_bytes_low (length xs) x (from_bytes xs)
          ∙ to_bytes-from_bytes xs a.1)
