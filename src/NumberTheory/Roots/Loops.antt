-- ===== src/NumberTheory/Roots/Loops.antt =====
-- number_theory.py: what the loops of `tonelli_var` compute.
use native.Mathlib.Nat
use ellipticcurves.Prelude.{
  ℕ, zero, suc, ◌+◌, ◌-◌, ◌*◌, ◌/◌, ◌%◌, ◌^◌, ◌<◌, ◌≤◌, ◌≡◌, refl, sym, ap, ◌∙◌, subst, ◌⊎◌, Bool,
  true, false, Option, some, none, arith, ◌==◌, ==_iff, if◌then◌else◌, Bool-cases, inl, inr,
}
use ellipticcurves.Prelude.Modular.{mod_cong_mul, mod-mul_left, mod-mul_right}
use ellipticcurves.Prelude.Result.{ok, err, ok_inj, not_prime}
use ellipticcurves.NumberTheory.Roots.{split_loop, squarings, Search, update, search_loop}

-- The loop returns q * 2 ^ s with an odd q.
pub split_loop_lem :
    (fuel q s : ℕ)
    → 0 < q
    → q ≤ fuel
    → ((split_loop fuel q s).q % 2 ≡ 1)
      × ((split_loop fuel q s).q * 2 ^ (split_loop fuel q s).s ≡ q * 2 ^ s)
unfolding split_loop
split_loop_lem zero q s l h = absurd (omega arith)
split_loop_lem (suc fuel) q s l h = elim (Bool-cases (q % 2 == 0)) [
  | inr e ↦ rw e (odd q e, refl)
  | inl e ↦
      let even = (==_iff (q % 2) 0).0 e in
      let (o, p) =
        split_loop_lem fuel (q / 2) (s + 1) (omega (arith, even, l)) (omega (arith, l, h)) in
      rw e (o, p ∙ doubled q s even)
]
  where
    odd : (q : ℕ) → (q % 2 == 0) ≡ false → q % 2 ≡ 1
    odd q e = ground arith

    doubled : (q s : ℕ) → q % 2 ≡ 0 → q / 2 * 2 ^ (s + 1) ≡ q * 2 ^ s
    doubled q s e =
        ap (λ n. q / 2 * 2 ^ n) {x = s + 1} {y = suc s} (omega arith)
        ∙ ap (λ n. q / 2 * n) (Nat.pow-succ' 2 s)
        ∙ regroup (2 ^ s)
        ∙ ap (λ n. n * 2 ^ s) {x = q / 2 * 2} {y = q} (omega (arith, e))
      where
        regroup : (w : ℕ) → q / 2 * (2 * w) ≡ q / 2 * 2 * w
        regroup w = omega arith

found_here :
    (test : Bool) (rest : Option ℕ) {i j : ℕ}
    → test ≡ true
    → (if test then some i else rest) ≡ some j
    → i ≡ j
found_here test rest t e = ground arith

found_later :
    (test : Bool) (rest : Option ℕ) (i : ℕ) {j : ℕ}
    → test ≡ false
    → (if test then some i else rest) ≡ some j
    → rest ≡ some j
found_later test rest i t e = ground arith

-- The index is one of the range.
pub squarings-lt : (left i t2i p : ℕ) {j : ℕ} → squarings left i t2i p ≡ some j → j < i + left
unfolding squarings
squarings-lt zero i t2i p e = cc
squarings-lt (suc left) i t2i p {j} e = elim (Bool-cases (t2i * t2i % p == 1)) [
  | inl b ↦ omega (arith, found_here _ _ b e)
  | inr b ↦ omega (arith, squarings-lt left (i + 1) (t2i * t2i % p) p (found_later _ _ i b e))
]

-- r ^ 2 = a * t modulo p.
abbrev pub IsRoot : ℕ → ℕ → Search → Type 0
IsRoot a p v = v.r * v.r % p ≡ a * v.t % p

square_product : (r b p : ℕ) → r * b % p * (r * b % p) % p ≡ r * r * (b * b) % p
square_product r b p =
    mod-mul_left (r * b) (r * b % p) p
    ∙ mod-mul_right (r * b) (r * b) p
    ∙ ap (λ n. n % p) {x = r * b * (r * b)} {y = r * r * (b * b)} (omega arith)

regroup_product : (a t c p : ℕ) → a * (t * (c % p) % p) % p ≡ a * t * c % p
regroup_product a t c p =
    mod-mul_right a (t * (c % p)) p
    ∙ ap (λ n. n % p) {x = a * (t * (c % p))} {y = a * t * (c % p)} (omega arith)
    ∙ mod-mul_right (a * t) c p

update-IsRoot : (a p i : ℕ) (v : Search) → IsRoot a p v → IsRoot a p (update p i v)
update-IsRoot a p i v e =
    let b = v.c ^ (2 ^ (v.s - i - 1)) % p in
    square_product v.r b p
    ∙ mod_cong_mul p (v.r * v.r) (a * v.t) (b * b) e
    ∙ sym (regroup_product a v.t (b * b) p)

pub Option-cases : (o : Option ℕ) → (o ≡ none) ⊎ ((i : ℕ) × (o ≡ some i))
Option-cases none = inl refl
Option-cases (some i) = inr (i, refl)

ended : (a p r t : ℕ) → r * r % p ≡ a * t % p → (t == 1) ≡ true → r * r % p ≡ a % p
ended a p r t e b =
    e ∙ ap (λ n. n % p) {x = a * t} {y = a} (ap (λ n. a * n) ((==_iff t 1).0 b) ∙ omega arith)

-- What the loop returns is a root, on any fuel.
pub search_loop_lem :
    (fuel a p : ℕ) (v : Search) {r : ℕ}
    → IsRoot a p v
    → search_loop fuel p v ≡ ok r
    → r * r % p ≡ a % p
unfolding search_loop
search_loop_lem zero a p v {r} root e = elim (Bool-cases (v.t == 1)) [
  | inl b ↦ subst (λ k. k * k % p ≡ a % p) (ok_inj (sym (rw b refl) ∙ e)) (ended a p v.r v.t root b)
  | inr b ↦ absurd (refused (sym (rw b refl) ∙ e))
]
  where
    refused : err not_prime ≡ ok r → ⊥
    refused q = cc
search_loop_lem (suc fuel) a p v {r} root e = elim (Bool-cases (v.t == 1)) [
  | inl b ↦ subst (λ k. k * k % p ≡ a % p) (ok_inj (sym (rw b refl) ∙ e)) (ended a p v.r v.t root b)
  | inr b ↦ elim (Option-cases (squarings (v.s - 1) 1 v.t p)) [
    | inl n ↦ absurd (refused (sym (rw (b, n) refl) ∙ e))
    | inr (i, n) ↦
        search_loop_lem fuel a p (update p i v) (update-IsRoot a p i v root)
          (sym (rw (b, n) refl) ∙ e)
  ]
]
  where
    refused : err not_prime ≡ ok r → ⊥
    refused q = cc

-- More fuel than s changes nothing.
pub search_loop-fuel :
    (fuel p : ℕ) (v : Search) → v.s ≤ fuel → search_loop (suc fuel) p v ≡ search_loop fuel p v
unfolding search_loop squarings
search_loop-fuel zero p v h = elim (Bool-cases (v.t == 1)) [
  | inl b ↦ rw b refl
  | inr b ↦ rw (b, ap (λ k. squarings k 1 v.t p) {x = v.s - 1} {y = 0} (omega arith)) refl
]
search_loop-fuel (suc fuel) p v h = elim (Bool-cases (v.t == 1)) [
  | inl b ↦ rw b refl
  | inr b ↦ elim (Option-cases (squarings (v.s - 1) 1 v.t p)) [
    | inl n ↦ rw (b, n) refl
    | inr (i, n) ↦
        rw (b, n)
          (search_loop-fuel fuel p (update p i v) (omega (arith, squarings-lt (v.s - 1) 1 v.t p n)))
  ]
]
