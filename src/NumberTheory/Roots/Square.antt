-- ===== src/NumberTheory/Roots/Square.antt =====
-- number_theory.py: the number that `mod_sqrt_var` returns is a square root.
use native.Mathlib.Nat
use ellipticcurves.Prelude.{
  ℕ, zero, suc, ◌+◌, ◌-◌, ◌*◌, ◌/◌, ◌%◌, ◌^◌, ◌<◌, ◌≡◌, ◌≢◌, refl, sym, ap, ◌∙◌, subst, Bool, true,
  false, arith, ◌==◌, ◌||◌, ==_iff, if◌then◌else◌, ◌⊎◌, inl, inr,
}
use ellipticcurves.Prelude.Int.{ℤ, pos, mod_ℤ}
use ellipticcurves.Prelude.Modular.{mod_cong_mul, mod-mul_left, mod-mul_right, mod_ℤ-lt, mod_ℤ-pos}
use ellipticcurves.Prelude.Result.{Result, ok, err, ok_inj, >>=-ok, no_root}
use ellipticcurves.NumberTheory.{assert_valid_modulus}
use ellipticcurves.NumberTheory.Roots.{
  Split, split_loop, non_residue, is_residue, tonelli_search, tonelli_reduced, root_or_none,
  sqrt_reduced, mod_sqrt_var,
}
use ellipticcurves.NumberTheory.Roots.Loops.{split_loop_lem, search_loop_lem}

power_sum : (a m n : ℕ) → a ^ (m + n) ≡ a ^ m * a ^ n
power_sum a zero n =
    ap (λ k. a ^ k) {x = 0 + n} {y = n} (omega arith)
    ∙ omega (arith, Nat.pow-zero a, ap (λ k. k * a ^ n) (Nat.pow-zero a))
power_sum a (suc m) n =
    ap (λ k. a ^ k) {x = suc m + n} {y = suc (m + n)} (omega arith)
    ∙ Nat.pow-succ' a (m + n)
    ∙ ap (λ k. a * k) (power_sum a m n)
    ∙ regroup (a ^ m) (a ^ n)
    ∙ ap (λ k. k * a ^ n) (sym (Nat.pow-succ' a m))
  where
    regroup : (x y : ℕ) → a * (x * y) ≡ a * x * y
    regroup x y = omega arith

power_square : (a n : ℕ) → (a * a) ^ n ≡ a ^ (n + n)
power_square a zero = Nat.pow-zero (a * a) ∙ sym (Nat.pow-zero a)
power_square a (suc n) =
    Nat.pow-succ' (a * a) n
    ∙ ap (λ k. a * a * k) (power_square a n)
    ∙ regroup (a ^ (n + n))
    ∙ ap (λ k. a * k) (sym (Nat.pow-succ' a (n + n)))
    ∙ sym (Nat.pow-succ' a (suc (n + n)))
    ∙ ap (λ k. a ^ k) {x = suc (suc (n + n))} {y = suc n + suc n} (omega arith)
  where
    regroup : (x : ℕ) → a * a * x ≡ a * (a * x)
    regroup x = omega arith

power_mod : (a n p : ℕ) → (a % p) ^ n % p ≡ a ^ n % p
power_mod a zero p = ap (λ k. k % p) (Nat.pow-zero (a % p) ∙ sym (Nat.pow-zero a))
power_mod a (suc n) p =
    ap (λ k. k % p) (Nat.pow-succ' (a % p) n)
    ∙ mod-mul_left a ((a % p) ^ n) p
    ∙ sym (mod-mul_right a ((a % p) ^ n) p)
    ∙ ap (λ k. a * k % p) (power_mod a n p)
    ∙ mod-mul_right a (a ^ n) p
    ∙ ap (λ k. k % p) (sym (Nat.pow-succ' a n))

-- The square of a reduced power.
square_power : (a n p : ℕ) → a ^ n % p * (a ^ n % p) % p ≡ a ^ (n + n) % p
square_power a n p =
    mod-mul_left (a ^ n) (a ^ n % p) p
    ∙ mod-mul_right (a ^ n) (a ^ n) p
    ∙ ap (λ k. k % p) (sym (power_sum a n n))

pub chosen :
    (test : Bool) (then_r else_r : Result ℕ) {r : ℕ}
    → (if test then then_r else else_r) ≡ ok r
    → ((test ≡ true) × (then_r ≡ ok r)) ⊎ ((test ≡ false) × (else_r ≡ ok r))
chosen true then_r else_r e = inl (refl, e)
chosen false then_r else_r e = inr (refl, e)

root_or_none-ok : (a p r : ℕ) {root : ℕ} → root_or_none a p r ≡ ok root → root * root % p ≡ a
root_or_none-ok a p r {root} e = elim (chosen (r * r % p == a) _ _ e) [
  | inl (b, same) ↦ subst (λ k. k * k % p ≡ a) (ok_inj same) ((==_iff (r * r % p) a).0 b)
  | inr (b, raised) ↦ absurd (refused raised)
]
  where
    refused : err no_root ≡ ok root → ⊥
    refused q = cc

-- r = a ^ ((q + 1) / 2) and t = a ^ q.
start-IsRoot :
    (a q p : ℕ)
    → q % 2 ≡ 1
    → a ^ ((q + 1) / 2) % p * (a ^ ((q + 1) / 2) % p) % p ≡ a * (a ^ q % p) % p
start-IsRoot a q p o =
    square_power a ((q + 1) / 2) p
    ∙ ap (λ k. a ^ k % p) {x = (q + 1) / 2 + (q + 1) / 2} {y = suc q} (omega (arith, o))
    ∙ ap (λ k. k % p) (Nat.pow-succ' a q)
    ∙ sym (mod-mul_right a (a ^ q) p)

tonelli_search_lem :
    (a p : ℕ) (f : Split) {r : ℕ}
    → f.q % 2 ≡ 1
    → f.s ≢ 1
    → tonelli_search a p f ≡ ok r
    → r * r % p ≡ a % p
unfolding tonelli_search
tonelli_search_lem a p f o n e = elim (chosen (f.s == 1) _ _ e) [
  | inl (b, same) ↦ absurd (n ((==_iff f.s 1).0 b))
  | inr (b, searched) ↦
      let (z, e1, e2) = >>=-ok (non_residue (p - 2) 2 p) _ searched in
      search_loop_lem f.s a p _ (start-IsRoot a f.q p o) e2
]

bit_square : (a : ℕ) → a < 2 → a * a % 2 ≡ a
bit_square zero l = refl
bit_square (suc zero) l = refl
bit_square (suc (suc a)) l = absurd (omega arith)

tonelli_reduced_lem :
    (a p : ℕ) {r : ℕ} → a < p → p % 4 ≢ 3 → tonelli_reduced a p ≡ ok r → r * r % p ≡ a
unfolding tonelli_reduced
tonelli_reduced_lem a p {r} l n e = elim (chosen (a == 0 || p == 2) _ _ e) [
  | inl (b, same) ↦ subst (λ k. k * k % p ≡ a) (ok_inj same) (own_root b)
  | inr (b, searched) ↦ elim (chosen (is_residue a p) _ _ searched) [
    | inl (c, found) ↦
        let (odd, parts) = split_loop_lem (p - 1) (p - 1) 0 (above_one b) (omega arith) in
        subst (λ k. r * r % p ≡ k) (Nat.mod-eq_of_lt l)
          (tonelli_search_lem a p (split_loop (p - 1) (p - 1) 0) odd (not_once odd parts) found)
    | inr (c, raised) ↦ absurd (refused raised)
  ]
]
  where
    refused : err no_root ≡ ok r → ⊥
    refused q = cc

    one_of : (a == 0 || p == 2) ≡ true → (a ≡ 0) ⊎ (p ≡ 2)
    one_of b = ground arith

    own_root : (a == 0 || p == 2) ≡ true → a * a % p ≡ a
    own_root b = elim (one_of b) [
      | inl z ↦ subst (λ k. k * k % p ≡ k) (sym z) (Nat.zero-mod p)
      | inr two ↦ subst (λ k. a * a % k ≡ a) (sym two) (bit_square a (subst (λ k. a < k) two l))
    ]

    above_one : (a == 0 || p == 2) ≡ false → 0 < p - 1
    above_one b = ground arith

    not_once :
        (split_loop (p - 1) (p - 1) 0).q % 2 ≡ 1
        → (split_loop (p - 1) (p - 1) 0).q * 2 ^ (split_loop (p - 1) (p - 1) 0).s ≡ (p - 1) * 2 ^ 0
        → (split_loop (p - 1) (p - 1) 0).s ≢ 1
    not_once odd parts one =
        n (omega (arith, odd, sym (ap (λ k. (split_loop (p - 1) (p - 1) 0).q * 2 ^ k) one) ∙ parts))

sqrt_reduced_lem : (a p : ℕ) {r : ℕ} → a < p → sqrt_reduced a p ≡ ok r → r * r % p ≡ a
unfolding sqrt_reduced
sqrt_reduced_lem a p {r} l e = elim (chosen (p % 4 == 3) _ _ e) [
  | inl (b, direct) ↦ root_or_none-ok a p (a ^ (p / 4 + 1) % p) direct
  | inr (b, other) ↦ elim (chosen (p % 8 == 5) _ _ other) [
    | inl (c, two) ↦ elim (chosen (a ^ (p / 8 + 1) % p * (a ^ (p / 8 + 1) % p) % p == a) _ _ two) [
      | inl (d, same) ↦ subst (λ k. k * k % p ≡ a) (ok_inj same) ((==_iff _ a).0 d)
      | inr (d, second) ↦ root_or_none-ok a p _ second
    ]
    | inr (c, general) ↦ tonelli_reduced_lem a p l (differs b) general
  ]
]
  where
    differs : (p % 4 == 3) ≡ false → p % 4 ≢ 3
    differs b = ground arith

-- For every modulus p, a prime or not, and every a: what mod_sqrt_var returns, if it does not
-- raise an exception, is a number whose square is a modulo p.
pub mod_sqrt_var_lem :
    (a : ℤ) (p : ℕ) {r : ℕ} → mod_sqrt_var a (pos p) ≡ ok r → r * r % p ≡ mod_ℤ a p
unfolding mod_sqrt_var assert_valid_modulus
mod_sqrt_var_lem a zero e = cc
mod_sqrt_var_lem a (suc p) e =
    sqrt_reduced_lem (mod_ℤ a (suc p)) (suc p) (mod_ℤ-lt a (suc p) (omega arith)) e

-- For p of 3 modulo 4 and an s with s ^ (p - 1) of 1 modulo p: mod_sqrt_var returns a root of s
-- * s modulo p.
pub mod_sqrt_var-square :
    (s p : ℕ)
    → p % 4 ≡ 3
    → s ^ (p - 1) % p ≡ 1
    → (r : ℕ) × (mod_sqrt_var (pos (s * s)) (pos p) ≡ ok r) × (r * r % p ≡ s * s % p)
unfolding mod_sqrt_var assert_valid_modulus
mod_sqrt_var-square s zero h f = absurd (omega arith)
mod_sqrt_var-square s (suc n) h f = (
  a ^ (suc n / 4 + 1) % suc n,
  rw ((==_iff (suc n % 4) 3).1 h, mod_ℤ-pos (s * s) (suc n), (==_iff _ a).1 squared) refl,
  squared,
)
  where
    a : ℕ
    a = s * s % suc n

    second_power : 1 * s ^ 2 ≡ s * s
    second_power =
        ap (λ k. 1 * k)
          (Nat.pow-succ' s 1
            ∙ ap (λ k. s * k) (Nat.pow-succ' s 0 ∙ ap (λ k. s * k) (Nat.pow-zero s)))
        ∙ omega arith

    squared : a ^ (suc n / 4 + 1) % suc n * (a ^ (suc n / 4 + 1) % suc n) % suc n ≡ a
    squared =
        square_power a (suc n / 4 + 1) (suc n)
        ∙ power_mod (s * s) (suc n / 4 + 1 + (suc n / 4 + 1)) (suc n)
        ∙ ap (λ k. k % suc n)
            (power_square s (suc n / 4 + 1 + (suc n / 4 + 1))
              ∙ ap (λ k. s ^ k) {x = _} {y = suc n - 1 + 2} (omega (arith, h))
              ∙ power_sum s (suc n - 1) 2)
        ∙ mod_cong_mul (suc n) (s ^ (suc n - 1)) 1 (s ^ 2)
            (f ∙ sym (Nat.mod-eq_of_lt (omega (arith, h))))
        ∙ ap (λ k. k % suc n) {x = 1 * s ^ 2} {y = s * s} second_power
