-- ===== src/NumberTheory/Blinded.antt =====
-- number_theory.py: `mod_inv_batch`, which inverts blinded elements in a batch.
use ellipticcurves.Prelude.{
  ℕ, zero, suc, ◌*◌, ◌%◌, ◌<◌, ◌≡◌, ◌⊎◌, inl, inr, refl, sym, arith, List, [], ◌∷◌, length,
}
use ellipticcurves.Prelude.Int.{ℤ, pos, mod_ℤ, ◌*ℤ◌}
use ellipticcurves.Prelude.Result.{Result, Error, ok, err, no_inverse, ◌>>=◌}
use ellipticcurves.NumberTheory.{
  assert_valid_modulus, mod_inv_var, mod_inv, mod_inv_batch_var, map_result, or_else,
}
use ellipticcurves.NumberTheory.Inverse.{
  mod_inv_var-Inverts, mod_inv-eq-mod_inv_var, blinded-IsInverse,
}
use ellipticcurves.NumberTheory.Batch.{
  Inverses, Inverses-map_result, mod_inv_batch_var-eq-map_result,
}

-- `[x * b % m for x, b in zip(a, factors, strict=True)]`; there is a factor for each element.
unfoldable pub blinded : ℕ → List ℤ → List ℕ → List ℤ
blinded m [] bs = []
blinded m (x ∷ xs) [] = []
blinded m (x ∷ xs) (b ∷ bs) = pos (mod_ℤ (x *ℤ pos b) m) ∷ blinded m xs bs

-- `[i * b % m for i, b in zip(inverses, factors, strict=True)]`
unfoldable pub unblinded : ℕ → List ℕ → List ℕ → List ℕ
unblinded m [] bs = []
unblinded m (i ∷ is) [] = []
unblinded m (i ∷ is) (b ∷ bs) = (i * b % m) ∷ unblinded m is bs

-- `[mod_inv(x, m) for x in a]`, each with a factor of its own.
unfoldable pub each_mod_inv : List ℕ → List ℤ → ℤ → Result (List ℕ)
each_mod_inv bs [] m = ok []
each_mod_inv [] (x ∷ xs) m = ok []
each_mod_inv (b ∷ bs) (x ∷ xs) m = do i ← mod_inv b x m; rest ← each_mod_inv bs xs m; ok (i ∷ rest)

-- `factors` are the random numbers of the batch, `again` those that `mod_inv` draws if it fails.
unfoldable pub mod_inv_batch : List ℕ → List ℕ → List ℤ → ℤ → Result (List ℕ)
unfolding assert_valid_modulus or_else blinded unblinded each_mod_inv
mod_inv_batch factors again [] m = do n ← assert_valid_modulus m; ok []
mod_inv_batch factors again (x ∷ xs) m = do
  n ← assert_valid_modulus m
  or_else (do is ← mod_inv_batch_var (blinded n (x ∷ xs) factors) m; ok (unblinded n is factors))
      (each_mod_inv again (x ∷ xs) m)

-- Inverting each element finds the inverses, or raises.
each_inverted :
    (m : ℕ) (xs : List ℤ)
    → 0 < m
    → ((is : List ℕ) × (map_result (λ y. mod_inv_var y (pos m)) xs ≡ ok is) × Inverses m xs is)
      ⊎ ((e : Error) × (map_result (λ y. mod_inv_var y (pos m)) xs ≡ err e))
unfolding map_result
each_inverted m [] h = inl ([], refl, tt)
each_inverted m (x ∷ xs) h = elim (mod_inv_var-Inverts x m h) [
  | inl (i, e, z) ↦ elim (each_inverted m xs h) [
    | inl (is, es, zs) ↦ inl (i ∷ is, rw (e, es), (z, zs))
    | inr (raised, es) ↦ inr (raised, rw (e, es))
  ]
  | inr (e, none) ↦ inr (no_inverse, rw e)
]

unblinded-Inverses :
    (m : ℕ) (xs : List ℤ) (bs is : List ℕ)
    → 0 < m
    → length bs ≡ length xs
    → Inverses m (blinded m xs bs) is
    → Inverses m xs (unblinded m is bs)
unfolding blinded unblinded
unblinded-Inverses m [] bs [] h l z = tt
unblinded-Inverses m [] bs (i ∷ is) h l z = absurd z
unblinded-Inverses m (x ∷ xs) [] is h l z = absurd (omega arith)
unblinded-Inverses m (x ∷ xs) (b ∷ bs) [] h l z = absurd z
unblinded-Inverses m (x ∷ xs) (b ∷ bs) (i ∷ is) h l z =
    (blinded-IsInverse x b m i h z.0, unblinded-Inverses m xs bs is h (omega arith) z.1)

each_mod_inv-eq-map_result :
    (m : ℕ) (bs : List ℕ) (xs : List ℤ)
    → 0 < m
    → length bs ≡ length xs
    → each_mod_inv bs xs (pos m) ≡ map_result (λ y. mod_inv_var y (pos m)) xs
unfolding each_mod_inv map_result
each_mod_inv-eq-map_result m bs [] h l = refl
each_mod_inv-eq-map_result m [] (x ∷ xs) h l = absurd (omega arith)
each_mod_inv-eq-map_result m (b ∷ bs) (x ∷ xs) h l =
    rw (mod_inv-eq-mod_inv_var b x m h, each_mod_inv-eq-map_result m bs xs h (omega arith)) refl

-- For every list, positive modulus and blinding factors, as many as the elements, mod_inv_batch
-- answers what mod_inv_var of each element answers, an error included.
pub mod_inv_batch-eq-map_result :
    (factors again : List ℕ) (xs : List ℤ) (m : ℕ)
    → 0 < m
    → length factors ≡ length xs
    → length again ≡ length xs
    → mod_inv_batch factors again xs (pos m) ≡ map_result (λ y. mod_inv_var y (pos m)) xs
unfolding mod_inv_batch
mod_inv_batch-eq-map_result factors again xs zero h l k = absurd (omega arith)
mod_inv_batch-eq-map_result factors again [] (suc n) h l k = unfold map_result in refl
mod_inv_batch-eq-map_result factors again (x ∷ xs) (suc n) h l k =
    rw (mod_inv_batch_var-eq-map_result (blinded m (x ∷ xs) factors) m h)
      (elim (each_inverted m (blinded m (x ∷ xs) factors) h) [
        | inl (is, e, z) ↦ rw e (
            sym (
              Inverses-map_result m (x ∷ xs) (unblinded m is factors) h
                (unblinded-Inverses m (x ∷ xs) factors is h l z)))
        | inr (raised, e) ↦ rw e (each_mod_inv-eq-map_result m again (x ∷ xs) h k)
      ])
  where
    m : ℕ
    m = suc n
