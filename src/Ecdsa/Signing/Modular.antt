-- ===== src/Ecdsa/Signing/Modular.antt =====
-- The congruences of ECDSA.
use native.Mathlib.Nat
use ellipticcurves.Prelude.{
  ℕ, zero, suc, ap₂, ◌+◌, ◌-◌, ◌*◌, ◌%◌, ◌<◌, ◌≤◌, ◌≡◌, sym, ap, ◌∙◌, arith,
}
use ellipticcurves.Prelude.Modular.{mod-mul_right, mod_cong_add, mod_of_multiples}

pub mod_times_one : (n a t : ℕ) → t % n ≡ 1 % n → a * t % n ≡ a % n
mod_times_one n a t e =
    sym (mod-mul_right a t n)
    ∙ ap (λ k. a * k % n) e
    ∙ mod-mul_right a 1 n
    ∙ ap (λ k. k % n) {x = a * 1} {y = a} (omega arith)

-- w * e is w * s * k, where s is e / k.
quotient : (n e k i w : ℕ) → k * i % n ≡ 1 % n → w * e % n ≡ k * (i * e % n * w) % n
quotient n e k i w h =
    sym (mod_times_one n (w * e) (k * i) h)
    ∙ ap (λ t. t % n) {x = w * e * (k * i)} {y = w * k * (i * e)} (omega arith)
    ∙ sym (mod-mul_right (w * k) (i * e) n)
    ∙ ap (λ t. t % n) {x = w * k * (i * e % n)} {y = k * (i * e % n * w)} (omega arith)

-- For s = e / k and w = 1 / s, the product w * e is k.
pub nonce_back : (n e k i w : ℕ) → k * i % n ≡ 1 % n → i * e % n * w % n ≡ 1 % n → w * e % n ≡ k % n
nonce_back n e k i w h t = quotient n e k i w h ∙ mod_times_one n k (i * e % n * w) t

-- For w = 1 / (n - s), it is the opposite of k.
pub nonce_opposite :
    (n e k i w : ℕ)
    → 0 < n
    → k * i % n ≡ 1 % n
    → (n - i * e % n) * w % n ≡ 1 % n
    → (w * e + k) % n ≡ 0 % n
nonce_opposite n e k i w p h t =
    mod_cong_add n (w * e) (k * (i * e % n * w)) k (quotient n e k i w h)
    ∙ ap (λ t. t % n) (Nat.add_comm (k * (s * w)) k)
    ∙ sym (mod_cong_add n (k * ((n - s) * w)) k (k * (s * w)) (mod_times_one n k ((n - s) * w) t))
    ∙ mod_of_multiples n (k * ((n - s) * w) + k * (s * w)) 0 0 (k * w) (
        omega arith
        ∙ distribute (n - s) s
        ∙ ap (λ t. t * (k * w)) {x = n - s + s} {y = n} (omega (arith, Nat.mod-lt (i * e) p))
        ∙ omega arith)
  where
    s : ℕ
    s = i * e % n

    distribute : (a b : ℕ) → k * (a * w) + k * (b * w) ≡ (a + b) * (k * w)
    distribute a b = omega arith

pub opposite_product : (n s w : ℕ) → s ≤ n → w ≤ n → (n - s) * (n - w) % n ≡ s * w % n
opposite_product n s w h l = mod_of_multiples n ((n - s) * (n - w)) (s * w) (s + w) n (
    ap (λ (t : ℕ). (n - s) * (n - w) + t) {x = n * (s + w)} {y = n * s + n * w} (omega arith)
    ∙ ap₂ (λ a b. (n - s) * (n - w) + (a * s + b * w)) (sym from_w) (sym from_s)
    ∙ product (n - s) (n - w)
    ∙ ap₂ (λ a b. s * w + a * b) from_s from_w)
  where
    from_s : n - s + s ≡ n
    from_s = omega arith

    from_w : n - w + w ≡ n
    from_w = omega arith

    product : (a b : ℕ) → a * b + ((b + w) * s + (a + s) * w) ≡ s * w + (a + s) * (b + w)
    product a b = omega arith

-- The inverse of a number modulo n is not zero.
pub inverse_positive : (n s w : ℕ) → 1 < n → s * w % n ≡ 1 % n → 0 < w
inverse_positive n s zero h e = absurd (
    omega (
      arith,
      ap (λ k. k % n) {x = s * 0} {y = 0} (omega arith),
      Nat.mod-eq_of_lt {n = 0} {m = n} (omega arith),
      Nat.mod-eq_of_lt h,
    ))
inverse_positive n s (suc w) h e = omega arith
