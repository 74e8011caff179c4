-- ===== src/Prelude/Modular.antt =====
-- Remainders: equal ones from an equation up to multiples of the modulus.
use native.Mathlib.Nat.{add-mul-mod_self_left, div-add-mod, mod-add-mod, mod-eq_of_lt, mod-lt}
use ellipticcurves.Prelude.{ℕ, ◌+◌, ◌-◌, ◌*◌, ◌/◌, ◌%◌, ◌<◌, ◌≡◌, refl, sym, ap, ◌∙◌, arith}
use ellipticcurves.Prelude.Int.{
  ℤ, pos, negsuc, mod_ℤ, pos_part, neg_part, ◌+ℤ◌, ◌-ℤ◌, ◌*ℤ◌, +ℤ_parts, -ℤ_parts, pos_part-*ℤ,
  neg_part-*ℤ,
}

pub mod_of_multiples : (m a b u v : ℕ) → a + m * u ≡ b + m * v → a % m ≡ b % m
mod_of_multiples m a b u v e =
    sym (add-mul-mod_self_left a m u) ∙ ap (λ n. n % m) e ∙ add-mul-mod_self_left b m v

pub mod-mul_left : (a b m : ℕ) → a % m * b % m ≡ a * b % m
mod-mul_left a b m =
    mod_of_multiples m (a % m * b) (a * b) (a / m * b) 0
      (omega (arith, ap (λ (t : ℕ). t * b) (div-add-mod a m)))

pub mod-mul_right : (a b m : ℕ) → a * (b % m) % m ≡ a * b % m
mod-mul_right a b m =
    mod_of_multiples m (a * (b % m)) (a * b) (a * (b / m)) 0
      (omega (arith, ap (λ (t : ℕ). a * t) (div-add-mod b m)))

pub mod_cong_mul : (m a b c : ℕ) → a % m ≡ b % m → a * c % m ≡ b * c % m
mod_cong_mul m a b c e = sym (mod-mul_left a c m) ∙ ap (λ n. n * c % m) e ∙ mod-mul_left b c m

pub mod_cong_add : (m a b c : ℕ) → a % m ≡ b % m → (a + c) % m ≡ (b + c) % m
mod_cong_add m a b c e = sym (mod-add-mod a m c) ∙ ap (λ n. (n + c) % m) e ∙ mod-add-mod b m c

pub mod_cancel_add : (m a b c : ℕ) → 0 < m → (a + c) % m ≡ (b + c) % m → a % m ≡ b % m
mod_cancel_add m a b c h e = whole a ∙ mod_cong_add m (a + c) (b + c) (m - c % m) e ∙ sym (whole b)
  where
    whole : (x : ℕ) → x % m ≡ (x + c + (m - c % m)) % m
    whole x =
        mod_of_multiples m x (x + c + (m - c % m)) (c / m + 1) 0
          (omega (arith, div-add-mod c m, mod-lt c h))

-- A remainder stands for its number up to a multiple of the modulus.
pub mod_ℤ_parts :
    (a : ℤ) (m : ℕ)
    → 0 < m
    → (u : ℕ) × (v : ℕ) × (mod_ℤ a m + neg_part a + m * u ≡ pos_part a + m * v)
unfolding mod_ℤ
mod_ℤ_parts (pos n) m h = (n / m, 0, omega (arith, div-add-mod n m))
mod_ℤ_parts (negsuc n) m h = (0, 1 + n / m, omega (arith, div-add-mod n m, mod-lt n h))

pub mod_ℤ-lt : (a : ℤ) (m : ℕ) → 0 < m → mod_ℤ a m < m
unfolding mod_ℤ
mod_ℤ-lt (pos n) m h = mod-lt n h
mod_ℤ-lt (negsuc n) m h = omega (arith, mod-lt n h)

pub mod_ℤ-pos : (n m : ℕ) → mod_ℤ (pos n) m ≡ n % m
unfolding mod_ℤ
mod_ℤ-pos n m = refl

mod_ℤ_of_multiples :
    (a : ℤ) (b m u v : ℕ) → 0 < m → mod_ℤ a m + m * u ≡ b + m * v → mod_ℤ a m ≡ b % m
mod_ℤ_of_multiples a b m u v h e =
    sym (mod-eq_of_lt (mod_ℤ-lt a m h)) ∙ mod_of_multiples m (mod_ℤ a m) b u v e

-- Reduction commutes with products, sums and differences.
pub mod_ℤ-*ℤ : (a c : ℤ) (m : ℕ) → 0 < m → mod_ℤ (a *ℤ c) m ≡ mod_ℤ a m * mod_ℤ c m % m
mod_ℤ-*ℤ a c m h =
    let (u, v, e) = mod_ℤ_parts (a *ℤ c) m h in
    let (ua, va, ea) = mod_ℤ_parts a m h in
    let (uc, vc, ec) = mod_ℤ_parts c m h in
    let c0 = mod_ℤ c m in
    mod_ℤ_of_multiples (a *ℤ c) (mod_ℤ a m * c0) m (u + va * c0 + vc * pos_part a + uc * neg_part a)
      (v + ua * c0 + uc * pos_part a + vc * neg_part a) h
      (omega (
        arith,
        e,
        pos_part-*ℤ a c,
        neg_part-*ℤ a c,
        ap (λ (t : ℕ). t * c0) ea,
        ap (λ (t : ℕ). t * pos_part a) ec,
        ap (λ (t : ℕ). t * neg_part a) ec,
      ))

pub mod_ℤ-+ℤ : (a c : ℤ) (m : ℕ) → 0 < m → mod_ℤ (a +ℤ c) m ≡ (mod_ℤ a m + mod_ℤ c m) % m
mod_ℤ-+ℤ a c m h =
    let (u, v, e) = mod_ℤ_parts (a +ℤ c) m h in
    let (ua, va, ea) = mod_ℤ_parts a m h in
    let (uc, vc, ec) = mod_ℤ_parts c m h in
    mod_ℤ_of_multiples (a +ℤ c) (mod_ℤ a m + mod_ℤ c m) m (u + va + vc) (v + ua + uc) h
      (omega (arith, e, ea, ec, +ℤ_parts a c))

pub mod_ℤ--ℤ : (a c : ℤ) (m : ℕ) → 0 < m → (mod_ℤ (a -ℤ c) m + mod_ℤ c m) % m ≡ mod_ℤ a m
mod_ℤ--ℤ a c m h =
    let (u, v, e) = mod_ℤ_parts (a -ℤ c) m h in
    let (ua, va, ea) = mod_ℤ_parts a m h in
    let (uc, vc, ec) = mod_ℤ_parts c m h in
    sym (
      mod_ℤ_of_multiples a (mod_ℤ (a -ℤ c) m + mod_ℤ c m) m (v + vc + ua) (u + uc + va) h
        (omega (arith, e, ea, ec, -ℤ_parts a c)))
