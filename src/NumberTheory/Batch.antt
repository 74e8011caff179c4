-- ===== src/NumberTheory/Batch.antt =====
-- Montgomery's trick answers what inverting the elements one at a time answers.
use native.Mathlib.Nat
use ellipticcurves.Prelude.{
  ℕ, zero, suc, ◌*◌, ◌%◌, ◌<◌, ◌≡◌, refl, sym, ap, ◌∙◌, arith, List, [], ◌∷◌, inl, inr, subst,
}
use ellipticcurves.Prelude.Int.{ℤ, pos, mod_ℤ, ◌*ℤ◌}
use ellipticcurves.Prelude.Modular.{mod_ℤ-lt, mod-mul_left, mod-mul_right, mod_ℤ-*ℤ}
use ellipticcurves.Prelude.Result.{ok}
use ellipticcurves.NumberTheory.{
  mod_inv_var, running_products, final_product, peel, peel_all, map_result, mod_inv_batch_var,
}
use ellipticcurves.NumberTheory.Inverse.{IsInverse, agree, pow_inverse-Inverts, mod_inv_var-Inverts}

-- One inverse for each element.
abbrev pub Inverses : ℕ → List ℤ → List ℕ → Type 0
Inverses m [] [] = Unit
Inverses m [] (r ∷ rs) = ⊥
Inverses m (x ∷ xs) [] = ⊥
Inverses m (x ∷ xs) (r ∷ rs) = IsInverse x m r × Inverses m xs rs

-- The inverse of c * x, times c, is the inverse of x; and times x, that of c.
split-IsInverse :
    (m c i : ℕ) (x : ℤ)
    → 0 < m
    → IsInverse (pos (mod_ℤ (pos c *ℤ x) m)) m i
    → IsInverse x m (i * c % m) × IsInverse (pos c) m (mod_ℤ (pos i *ℤ x) m)
unfolding mod_ℤ
split-IsInverse m c i x h z = (
  record {
    reduced = Nat.mod-lt (i * c) h;
    inverse =
        mod-mul_right (mod_ℤ x m) (i * c) m
        ∙ ap (λ n. n % m) {x = mod_ℤ x m * (i * c)} {y = c * mod_ℤ x m * i} (omega arith)
        ∙ product;
  },
  record {
    reduced = mod_ℤ-lt (pos i *ℤ x) m h;
    inverse =
        ap (λ n. c % m * n % m) (mod_ℤ-*ℤ (pos i) x m h)
        ∙ mod-mul_right (c % m) (i % m * mod_ℤ x m) m
        ∙ mod-mul_left c (i % m * mod_ℤ x m) m
        ∙ ap (λ n. n % m) {x = c * (i % m * mod_ℤ x m)} {y = i % m * (c * mod_ℤ x m)} (omega arith)
        ∙ mod-mul_left i (c * mod_ℤ x m) m
        ∙ ap (λ n. n % m) {x = i * (c * mod_ℤ x m)} {y = c * mod_ℤ x m * i} (omega arith)
        ∙ product;
  },
)
  where
    product : c * mod_ℤ x m * i % m ≡ 1 % m
    product =
        sym (mod-mul_left (c * mod_ℤ x m) i m)
        ∙ ap (λ n. n * i % m)
            (sym (mod-mul_left c (mod_ℤ x m) m)
              ∙ sym (mod_ℤ-*ℤ (pos c) x m h)
              ∙ sym (Nat.mod-eq_of_lt (mod_ℤ-lt (pos c *ℤ x) m h)))
        ∙ z.inverse

peel-Inverses :
    (m c inv : ℕ) (xs : List ℤ)
    → 0 < m
    → IsInverse (pos (final_product m c xs)) m inv
    → Inverses m xs (peel m inv xs (c ∷ running_products m c xs)).0
      × IsInverse (pos c) m (peel m inv xs (c ∷ running_products m c xs)).1
unfolding peel running_products final_product
peel-Inverses m c inv [] h z = (tt, z)
peel-Inverses m c inv (x ∷ xs) h z =
    let c' = mod_ℤ (pos c *ℤ x) m in
    let (rest, last) = peel-Inverses m c' inv xs h z in
    let (here, before) =
      split-IsInverse m c (peel m inv xs (c' ∷ running_products m c' xs)).1 x h last in
    ((here, rest), before)

peel_all-Inverses :
    (m inv : ℕ) (xs : List ℤ)
    → 0 < m
    → IsInverse (pos (final_product m 1 xs)) m inv
    → Inverses m xs (peel_all m xs inv)
unfolding peel_all final_product running_products
peel_all-Inverses m inv [] h z = tt
peel_all-Inverses m inv (x ∷ xs) h z =
    let c = mod_ℤ (pos 1 *ℤ x) m in
    let (rest, first) = peel-Inverses m c inv xs h z in
    (unit_factor (peel m inv xs (c ∷ running_products m c xs)).1 first, rest)
  where
    unit_factor : (i : ℕ) → IsInverse (pos (mod_ℤ (pos 1 *ℤ x) m)) m i → IsInverse x m i
    unit_factor i f =
        subst (IsInverse x m) (ap (λ n. n % m) (Nat.mul-one i) ∙ Nat.mod-eq_of_lt f.reduced)
          (split-IsInverse m 1 i x h f).0

-- The inverses of the elements are what the elements' own calls return.
pub Inverses-map_result :
    (m : ℕ) (xs : List ℤ) (rs : List ℕ)
    → 0 < m
    → Inverses m xs rs
    → map_result (λ y. mod_inv_var y (pos m)) xs ≡ ok rs
unfolding map_result
Inverses-map_result m [] [] h z = refl
Inverses-map_result m [] (r ∷ rs) h z = absurd z
Inverses-map_result m (x ∷ xs) [] h z = absurd z
Inverses-map_result m (x ∷ xs) (r ∷ rs) h z = rw (
  sym (agree x m r (mod_inv_var x (pos m)) z.0 (mod_inv_var-Inverts x m h)),
  Inverses-map_result m xs rs h z.1,
)

-- For every list and every positive modulus, the batch answers what inverting each element by
-- itself answers, an error included.
pub mod_inv_batch_var-eq-map_result :
    (xs : List ℤ) (m : ℕ)
    → 0 < m
    → mod_inv_batch_var xs (pos m) ≡ map_result (λ y. mod_inv_var y (pos m)) xs
unfolding mod_inv_batch_var
mod_inv_batch_var-eq-map_result xs zero h = absurd (omega arith)
mod_inv_batch_var-eq-map_result [] (suc n) h = refl
mod_inv_batch_var-eq-map_result (x ∷ xs) (suc n) h =
    elim (pow_inverse-Inverts (pos (final_product m 1 (x ∷ xs))) m h) [
      | inl (inv, e, z) ↦
          rw e (sym (Inverses-map_result m (x ∷ xs) _ h (peel_all-Inverses m inv (x ∷ xs) h z)))
      | inr (e, none) ↦ rw e
    ]
  where
    m : ℕ
    m = suc n
