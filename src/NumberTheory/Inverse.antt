-- ===== src/NumberTheory/Inverse.antt =====
-- `mod_inv_var` and `mod_inv` return the inverse exactly when there is one.
use Prim.Native.Nat.{◌∣◌}
use native.Mathlib.Nat
use ellipticcurves.Prelude.{
  ℕ, zero, suc, ◌+◌, ◌*◌, ◌%◌, ◌<◌, ◌≡◌, refl, sym, ap, ◌∙◌, arith, subst, ◌≢◌, ◌==◌, false,
  Bool-cases, inl, inr, ◌⊎◌,
}
use ellipticcurves.Prelude.Int.{ℤ, pos, pos_part, neg_part, mod_ℤ, ◌*ℤ◌}
use ellipticcurves.Prelude.Modular.{
  mod_of_multiples, mod_ℤ_parts, mod_ℤ-lt, mod-mul_left, mod-mul_right, mod_ℤ-*ℤ, mod_ℤ-pos,
}
use ellipticcurves.Prelude.Result.{Result, Error, ok_inj, ok, err, no_inverse}
use ellipticcurves.NumberTheory.{Bezout, xgcd_var, pow_inverse, mod_inv_var, mod_inv}
use ellipticcurves.NumberTheory.Euclid.{IsBezout, xgcd_var-IsBezout}

-- `r` is the inverse of `a` modulo `m`, reduced.
pub record IsInverse (a : ℤ) (m r : ℕ) : Type 0 where
  pub reduced : r < m
  pub inverse : mod_ℤ a m * r % m ≡ 1 % m

-- The first cofactor, reduced, is the inverse.
cofactor_inverse :
    (n m : ℕ) (b : Bezout) → 0 < m → IsBezout n m b → b.g ≡ 1 → n * mod_ℤ b.x m % m ≡ 1 % m
cofactor_inverse n m b h z e =
    let (u, v, parts) = mod_ℤ_parts b.x m h in
    mod_of_multiples m (n * mod_ℤ b.x m) 1 (pos_part b.y + n * u) (neg_part b.y + n * v)
      (omega (arith, ap (λ (t : ℕ). n * t) parts, z.identity))

coprime_of_inverse : (n m s g : ℕ) → g ∣ n → g ∣ m → n * s % m ≡ 1 % m → g ≡ 1
coprime_of_inverse n m s g gn gm e = Nat.eq-one_of_dvd-one (
    (Nat.dvd-mod_iff g gm).0
      (subst (◌∣◌ g) e ((Nat.dvd-mod_iff g gm).1 (Nat.dvd-mul_right_of_dvd g gn s))))

-- An inverse is returned, or there is none.
abbrev pub Inverts : ℤ → ℕ → Result ℕ → Type 0
Inverts a m result =
    ((r : ℕ) × (result ≡ ok r) × IsInverse a m r)
    ⊎ ((result ≡ err no_inverse) × ((s : ℕ) → mod_ℤ a m * s % m ≢ 1 % m))

pub pow_inverse-Inverts : (a : ℤ) (m : ℕ) → 0 < m → Inverts a m (pow_inverse a m)
unfolding pow_inverse
pow_inverse-Inverts a m h =
    let b = xgcd_var (mod_ℤ a m) m in
    let z = xgcd_var-IsBezout (mod_ℤ a m) m in
    elim (Bool-cases (b.g == 1)) [
      | inl e ↦ inl (
        mod_ℤ b.x m,
        rw e refl,
        record {
          reduced = mod_ℤ-lt b.x m h;
          inverse = cofactor_inverse (mod_ℤ a m) m b h z (ground arith);
        },
      )
      | inr e ↦ inr (
        rw e refl,
        λ s i. not_one b.g e (coprime_of_inverse (mod_ℤ a m) m s b.g z.divides_a z.divides_b i),
      )
    ]
  where
    not_one : (n : ℕ) → (n == 1) ≡ false → n ≢ 1
    not_one n e f = ground arith

-- For every operand and every positive modulus, `mod_inv_var` returns the reduced inverse, or
-- raises and no inverse exists.
pub mod_inv_var-Inverts : (a : ℤ) (m : ℕ) → 0 < m → Inverts a m (mod_inv_var a (pos m))
unfolding mod_inv_var
mod_inv_var-Inverts a zero h = absurd (omega arith)
mod_inv_var-Inverts a (suc m) h = pow_inverse-Inverts a (suc m) h

pub IsInverse-unique : (a : ℤ) (m r s : ℕ) → IsInverse a m r → IsInverse a m s → r ≡ s
IsInverse-unique a m r s i j =
    sym (Nat.mod-eq_of_lt i.reduced)
    ∙ ap (λ n. n % m) (sym (Nat.mul-one r))
    ∙ times_one r s j.inverse
    ∙ ap (λ n. n % m) {x = r * (mod_ℤ a m * s)} {y = s * (mod_ℤ a m * r)} (omega arith)
    ∙ sym (times_one s r i.inverse)
    ∙ ap (λ n. n % m) (Nat.mul-one s)
    ∙ Nat.mod-eq_of_lt j.reduced
  where
    times_one : (k l : ℕ) → mod_ℤ a m * l % m ≡ 1 % m → k * 1 % m ≡ k * (mod_ℤ a m * l) % m
    times_one k l e =
        sym (mod-mul_right k 1 m) ∙ ap (λ n. k * n % m) (sym e) ∙ mod-mul_right k (mod_ℤ a m * l) m

pub IsInverse-of : (a : ℤ) (m i : ℕ) → 0 < m → mod_inv_var a (pos m) ≡ ok i → IsInverse a m i
IsInverse-of a m i h e = elim (mod_inv_var-Inverts a m h) [
  | inl (r, f, z) ↦ subst (IsInverse a m) (ok_inj (sym f ∙ e)) z
  | inr (f, none) ↦ absurd (two_results (sym e ∙ f))
]
  where
    two_results : {x : Error} → ok i ≡ err x → ⊥
    two_results q = cc

pub blinded-IsInverse :
    (a : ℤ) (b m i : ℕ)
    → 0 < m
    → IsInverse (pos (mod_ℤ (a *ℤ pos b) m)) m i
    → IsInverse a m (i * b % m)
unfolding mod_ℤ
blinded-IsInverse a b m i h z = record {
  reduced = Nat.mod-lt (i * b) h;
  inverse =
      mod-mul_right (mod_ℤ a m) (i * b) m
      ∙ ap (λ n. n % m) {x = mod_ℤ a m * (i * b)} {y = mod_ℤ a m * b * i} (omega arith)
      ∙ sym (mod-mul_left (mod_ℤ a m * b) i m)
      ∙ ap (λ n. n * i % m) blinded
      ∙ z.inverse;
}
  where
    blinded : mod_ℤ a m * b % m ≡ mod_ℤ (pos (mod_ℤ (a *ℤ pos b) m)) m
    blinded =
        sym (mod-mul_right (mod_ℤ a m) b m)
        ∙ sym (mod_ℤ-*ℤ a (pos b) m h)
        ∙ sym (Nat.mod-eq_of_lt (mod_ℤ-lt (a *ℤ pos b) m h))
        ∙ sym (mod_ℤ-pos (mod_ℤ (a *ℤ pos b) m) m)

pub agree :
    (a : ℤ) (m r : ℕ) (result : Result ℕ) → IsInverse a m r → Inverts a m result → ok r ≡ result
agree a m r result i (inl (s, e, j)) = ap ok (IsInverse-unique a m r s i j) ∙ sym e
agree a m r result i (inr (e, none)) = absurd (none r i.inverse)

-- Whatever blinding factor is drawn, `mod_inv` answers what `mod_inv_var` answers.
pub mod_inv-eq-mod_inv_var :
    (b : ℕ) (a : ℤ) (m : ℕ) → 0 < m → mod_inv b a (pos m) ≡ mod_inv_var a (pos m)
unfolding mod_inv
mod_inv-eq-mod_inv_var b a zero h = absurd (omega arith)
mod_inv-eq-mod_inv_var b a (suc n) h = elim (mod_inv_var-Inverts (pos (mod_ℤ (a *ℤ pos b) m)) m h) [
  | inl (i, e, z) ↦ rw e (
      agree a m (i * b % m) (mod_inv_var a (pos m)) (blinded-IsInverse a b m i h z)
        (mod_inv_var-Inverts a m h))
  | inr (e, none) ↦ rw e
]
  where
    m : ℕ
    m = suc n
