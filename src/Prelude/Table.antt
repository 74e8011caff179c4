-- ===== src/Prelude/Table.antt =====
-- Python's indexing of a list, and lists whose entries are described by their position.
use ellipticcurves.Prelude.{
  ℕ, zero, suc, ◌+◌, ◌<◌, ◌≡◌, refl, List, [], ◌∷◌, ◌++◌, arith, length, length-append, subst,
  reverse, map, ap,
}
use mathlib.Core.List.{reverse-append}
use ellipticcurves.Prelude.Result.{Result, ok, err, index_error}

module _ {ℓ} {A : Type ℓ} where
  -- `xs[i]` at an index that is not negative.
  unfoldable pub index : List A → ℕ → Result A
  index [] i = err index_error
  index (x ∷ xs) zero = ok x
  index (x ∷ xs) (suc i) = index xs i

  module _ (P : ℕ → A → Type 0) where
    -- The entry at position `j` satisfies `P (k + j)`.
    abbrev pub Entries : ℕ → List A → Type 0
    Entries k [] = Unit
    Entries k (x ∷ xs) = P k x × Entries (suc k) xs

    at_position : (k j : ℕ) {x : A} → P (suc k + j) x → P (k + suc j) x
    at_position k j {x} = subst (λ n. P n x) (omega arith)

    pub index-Entries :
        (xs : List A) (k j : ℕ)
        → Entries k xs
        → j < length xs
        → (x : A) × (index xs j ≡ ok x) × P (k + j) x
    unfolding index
    index-Entries [] k j es h = absurd (omega arith)
    index-Entries (x ∷ xs) k zero es h =
        (x, refl, subst (λ n. P n x) {x = k} {y = k + 0} (omega arith) es.0)
    index-Entries (x ∷ xs) k (suc j) es h =
        let (y, e, p) = index-Entries xs (suc k) j es.1 (omega arith) in (y, e, at_position k j p)

    pub Entries-append :
        (xs : List A) (k : ℕ) (y : A)
        → Entries k xs
        → P (k + length xs) y
        → Entries k (xs ++ (y ∷ []))
    Entries-append [] k y es p = (subst (λ n. P n y) {x = k + 0} {y = k} (omega arith) p, tt)
    Entries-append (x ∷ xs) k y es p =
        (es.0, Entries-append xs (suc k) y es.1 (subst (λ n. P n y) (omega arith) p))

  module _ (P Q : ℕ → A → Type 0) where
    -- Other positions, and another description of the entries.
    pub move-Entries :
        (xs : List A) (k l : ℕ)
        → ((i : ℕ) (x : A) → P (k + i) x → Q (l + i) x)
        → Entries P k xs
        → Entries Q l xs
    move-Entries [] k l f es = tt
    move-Entries (x ∷ xs) k l f es = (
      subst (λ n. Q n x) {x = l + 0} {y = l} (omega arith)
          (f 0 x (subst (λ n. P n x) {x = k} {y = k + 0} (omega arith) es.0)),
      move-Entries xs (suc k) (suc l)
          (λ i y p.
            subst (λ n. Q n y) {x = l + suc i} {y = suc l + i} (omega arith)
              (f (suc i) y (subst (λ n. P n y) {x = suc k + i} {y = k + suc i} (omega arith) p)))
          es.1,
    )

    pub reverse-Entries :
        (xs : List A) (k n : ℕ)
        → k + length xs ≡ n
        → ((i j : ℕ) (x : A) → i + j + 1 ≡ n → P i x → Q j x)
        → Entries P k xs
        → Entries Q 0 (reverse xs) × (length (reverse xs) ≡ length xs)
    reverse-Entries [] k n e f es = (tt, refl)
    reverse-Entries (x ∷ xs) k n e f es =
        let (rest, l) = reverse-Entries xs (suc k) n (omega arith) f es.1 in
        rw (reverse-append (x ∷ []) xs) (
          Entries-append Q (reverse xs) 0 x rest
              (f k (0 + length (reverse xs)) x (omega (arith, l)) es.0),
          omega (arith, length-append (reverse xs) (x ∷ []), l),
        )

  pub append-Entries :
      (P : ℕ → A → Type 0) (xs ys : List A) (k : ℕ)
      → Entries P k xs
      → Entries P (k + length xs) ys
      → Entries P k (xs ++ ys)
  append-Entries P [] ys k es fs =
      move-Entries P P ys (k + 0) k (λ i x. subst (λ n. P n x) (omega arith)) fs
  append-Entries P (x ∷ xs) ys k es fs = (
    es.0,
    append-Entries P xs ys (suc k) es.1 (
        move-Entries P P ys (k + suc (length xs)) (suc k + length xs)
          (λ i y. subst (λ n. P n y) (omega arith)) fs),
  )

pub map-Entries :
    {A B : Type 0} (P : ℕ → A → Type 0) (Q : ℕ → B → Type 0) (f : A → B) (xs : List A) (k : ℕ)
    → ((i : ℕ) (x : A) → P i x → Q i (f x))
    → Entries P k xs
    → Entries Q k (map f xs) × (length (map f xs) ≡ length xs)
map-Entries P Q f [] k g es = (tt, refl)
map-Entries P Q f (x ∷ xs) k g es =
    let (rest, l) = map-Entries P Q f xs (suc k) g es.1 in ((g k x es.0, rest), ap suc l)
