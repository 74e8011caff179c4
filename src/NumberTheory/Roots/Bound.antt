-- ===== src/NumberTheory/Roots/Bound.antt =====
-- number_theory.py: the number that `mod_sqrt_var` returns is reduced modulo p.
use native.Mathlib.Nat
use ellipticcurves.Prelude.{
  ℕ, zero, suc, ◌+◌, ◌-◌, ◌*◌, ◌/◌, ◌%◌, ◌^◌, ◌<◌, ◌≡◌, refl, sym, ◌∙◌, subst, inl, inr, arith,
  ◌==◌, ◌||◌,
}
use ellipticcurves.Prelude.Int.{ℤ, pos, mod_ℤ}
use ellipticcurves.Prelude.Modular.{mod_ℤ-lt}
use ellipticcurves.Prelude.Result.{ok, err, ok_inj, >>=-ok, no_root, not_prime}
use ellipticcurves.NumberTheory.{assert_valid_modulus}
use ellipticcurves.NumberTheory.Roots.{
  Split, Search, split_loop, squarings, update, search_loop, non_residue, is_residue,
  tonelli_search, tonelli_reduced, root_or_none, sqrt_reduced, mod_sqrt_var,
}
use ellipticcurves.NumberTheory.Roots.Loops.{Option-cases}
use ellipticcurves.NumberTheory.Roots.Square.{chosen}

search_loop-lt :
    (fuel p : ℕ) (v : Search) {r : ℕ} → 0 < p → v.r < p → search_loop fuel p v ≡ ok r → r < p
unfolding search_loop
search_loop-lt zero p v {r} h l e = elim (chosen (v.t == 1) _ _ e) [
  | inl (b, same) ↦ subst (λ k. k < p) (ok_inj same) l
  | inr (b, raised) ↦ absurd (refused raised)
]
  where
    refused : err not_prime ≡ ok r → ⊥
    refused q = cc
search_loop-lt (suc fuel) p v {r} h l e = elim (chosen (v.t == 1) _ _ e) [
  | inl (b, same) ↦ subst (λ k. k < p) (ok_inj same) l
  | inr (b, next) ↦ elim (Option-cases (squarings (v.s - 1) 1 v.t p)) [
    | inl n ↦ absurd (refused (sym (rw n refl) ∙ next))
    | inr (i, n) ↦ search_loop-lt fuel p (update p i v) h (Nat.mod-lt _ h) (sym (rw n refl) ∙ next)
  ]
]
  where
    refused : err not_prime ≡ ok r → ⊥
    refused q = cc

tonelli_search-lt : (a p : ℕ) (f : Split) {r : ℕ} → 0 < p → tonelli_search a p f ≡ ok r → r < p
unfolding tonelli_search
tonelli_search-lt a p f h e = elim (chosen (f.s == 1) _ _ e) [
  | inl (b, same) ↦ subst (λ k. k < p) (ok_inj same) (Nat.mod-lt _ h)
  | inr (b, searched) ↦
      let (z, e1, e2) = >>=-ok (non_residue (p - 2) 2 p) _ searched in
      search_loop-lt f.s p _ h (Nat.mod-lt _ h) e2
]

tonelli_reduced-lt : (a p : ℕ) {r : ℕ} → a < p → tonelli_reduced a p ≡ ok r → r < p
unfolding tonelli_reduced
tonelli_reduced-lt a p {r} l e = elim (chosen (a == 0 || p == 2) _ _ e) [
  | inl (b, same) ↦ subst (λ k. k < p) (ok_inj same) l
  | inr (b, searched) ↦ elim (chosen (is_residue a p) _ _ searched) [
    | inl (c, found) ↦ tonelli_search-lt a p (split_loop (p - 1) (p - 1) 0) (omega (arith, l)) found
    | inr (c, raised) ↦ absurd (refused raised)
  ]
]
  where
    refused : err no_root ≡ ok r → ⊥
    refused q = cc

root_or_none-lt : (a p r : ℕ) {root : ℕ} → r < p → root_or_none a p r ≡ ok root → root < p
root_or_none-lt a p r {root} l e = elim (chosen (r * r % p == a) _ _ e) [
  | inl (b, same) ↦ subst (λ k. k < p) (ok_inj same) l
  | inr (b, raised) ↦ absurd (refused raised)
]
  where
    refused : err no_root ≡ ok root → ⊥
    refused q = cc

sqrt_reduced-lt : (a p : ℕ) {r : ℕ} → a < p → sqrt_reduced a p ≡ ok r → r < p
unfolding sqrt_reduced
sqrt_reduced-lt a p {r} l e = elim (chosen (p % 4 == 3) _ _ e) [
  | inl (b, direct) ↦ root_or_none-lt a p _ (Nat.mod-lt _ (omega (arith, l))) direct
  | inr (b, other) ↦ elim (chosen (p % 8 == 5) _ _ other) [
    | inl (c, two) ↦ elim (chosen (a ^ (p / 8 + 1) % p * (a ^ (p / 8 + 1) % p) % p == a) _ _ two) [
      | inl (d, same) ↦ subst (λ k. k < p) (ok_inj same) (Nat.mod-lt _ (omega (arith, l)))
      | inr (d, second) ↦ root_or_none-lt a p _ (Nat.mod-lt _ (omega (arith, l))) second
    ]
    | inr (c, general) ↦ tonelli_reduced-lt a p l general
  ]
]

-- A root that is found is below p.
pub mod_sqrt_var-lt : (a : ℤ) (p : ℕ) {r : ℕ} → mod_sqrt_var a (pos p) ≡ ok r → r < p
unfolding mod_sqrt_var assert_valid_modulus
mod_sqrt_var-lt a zero e = cc
mod_sqrt_var-lt a (suc p) e =
    sqrt_reduced-lt (mod_ℤ a (suc p)) (suc p) (mod_ℤ-lt a (suc p) (omega arith)) e
