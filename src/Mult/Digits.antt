-- ===== src/Mult/Digits.antt =====
-- curves/curve_group.py: `_convert_number_to_base_var`, and the digits that Python's `f"{m:b}"`
-- writes, which are those of base 2.
use ellipticcurves.Prelude.{
  ℕ, zero, suc, ◌+◌, ◌*◌, ◌/◌, ◌%◌, ◌≤◌, ◌<◌, ◌≡◌, refl, sym, ap, ◌∙◌, Bool, true, false, List, [],
  ◌∷◌, ◌++◌, reverse, arith, ◌==◌, ◌&&◌, not, Bool-cases, inl, inr, append_assoc, subst, length,
}
use mathlib.Core.List.{reverse-append}
use native.Mathlib.Nat.{div-add-mod, mod-lt}

abbrev is_empty : List ℕ → Bool
is_empty [] = true
is_empty (x ∷ xs) = false

-- `while i or not digits`. For a base of at least 2 the fuel `i + 1` is enough.
base_loop : ℕ → ℕ → ℕ → List ℕ → List ℕ
base_loop zero i base digits = digits
base_loop (suc fuel) i base digits = elim (i == 0 && not (is_empty digits)) [
  | true ↦ digits
  | false ↦ base_loop fuel (i / base) base (digits ++ (i % base ∷ []))
]

-- The most significant digit stands first.
unfoldable pub convert_number_to_base_var : ℕ → ℕ → List ℕ
unfolding base_loop
convert_number_to_base_var i base = reverse (base_loop (suc i) i base [])

unfoldable pub binary : ℕ → List ℕ
unfolding convert_number_to_base_var
binary m = convert_number_to_base_var m 2

-- The number that digits stand for: least significant first, and most significant first.
unfoldable pub le_value : ℕ → List ℕ → ℕ
le_value base [] = 0
le_value base (d ∷ ds) = d + base * le_value base ds

unfoldable pub horner : ℕ → ℕ → List ℕ → ℕ
horner base v [] = v
horner base v (d ∷ ds) = horner base (v * base + d) ds

horner-append :
    (base v d : ℕ) (ds : List ℕ) → horner base v (ds ++ (d ∷ [])) ≡ horner base v ds * base + d
unfolding horner
horner-append base v d [] = refl
horner-append base v d (x ∷ ds) = horner-append base (v * base + x) d ds

horner-reverse : (base : ℕ) (ds : List ℕ) → horner base 0 (reverse ds) ≡ le_value base ds
unfolding horner le_value
horner-reverse base [] = refl
horner-reverse base (d ∷ ds) =
    ap (horner base 0) (reverse-append (d ∷ []) ds)
    ∙ horner-append base 0 d (reverse ds)
    ∙ omega (arith, ap (λ (t : ℕ). t * base) (horner-reverse base ds))

carry :
    (base r q : ℕ) (ds : List ℕ)
    → le_value base (ds ++ (r ∷ q ∷ [])) ≡ le_value base (ds ++ ((r + base * q) ∷ []))
unfolding le_value
carry base r q [] = omega arith
carry base r q (d ∷ ds) = ap (λ (t : ℕ). d + base * t) (carry base r q ds)

no_carry : (base : ℕ) (ds : List ℕ) → le_value base (ds ++ (0 ∷ [])) ≡ le_value base ds
unfolding le_value
no_carry base [] = omega arith
no_carry base (d ∷ ds) = ap (λ (t : ℕ). d + base * t) (no_carry base ds)

base_loop_stop :
    (fuel i base : ℕ) (ds : List ℕ)
    → (i == 0 && not (is_empty ds)) ≡ true
    → base_loop (suc fuel) i base ds ≡ ds
unfolding base_loop
base_loop_stop fuel i base ds e = rw (e, base_loop)

base_loop_step :
    (fuel i base : ℕ) (ds : List ℕ)
    → (i == 0 && not (is_empty ds)) ≡ false
    → base_loop (suc fuel) i base ds ≡ base_loop fuel (i / base) base (ds ++ (i % base ∷ []))
unfolding base_loop
base_loop_step fuel i base ds e = rw (e, base_loop)

div_smaller : (i fuel base : ℕ) → 2 ≤ base → i ≤ suc fuel → i / base ≤ fuel
div_smaller i fuel base h hi = grind (arith, div-add-mod i base)

base_loop-value :
    (fuel i base : ℕ) (ds : List ℕ)
    → 2 ≤ base
    → i ≤ fuel
    → le_value base (base_loop fuel i base ds) ≡ le_value base (ds ++ (i ∷ []))
unfolding base_loop
base_loop-value zero i base ds h hi =
    sym (no_carry base ds) ∙ ap (λ n. le_value base (ds ++ (n ∷ []))) {x = 0} {y = i} (omega arith)
base_loop-value (suc fuel) i base ds h hi = elim (Bool-cases (i == 0 && not (is_empty ds))) [
  | inl e ↦ rw (base_loop_stop fuel i base ds e) (
      sym (no_carry base ds)
      ∙ ap (λ n. le_value base (ds ++ (n ∷ []))) {x = 0} {y = i} (ground arith))
  | inr e ↦ rw (base_loop_step fuel i base ds e) (
      base_loop-value fuel (i / base) base (ds ++ (i % base ∷ [])) h (div_smaller i fuel base h hi)
      ∙ ap (le_value base) (append_assoc ds (i % base ∷ []) (i / base ∷ []))
      ∙ carry base (i % base) (i / base) ds
      ∙ ap (λ n. le_value base (ds ++ (n ∷ []))) {y = i} (omega (arith, div-add-mod i base)))
]

-- For every base of at least 2, the digits stand for the number.
pub convert_number_to_base_var-value :
    (i base : ℕ) → 2 ≤ base → horner base 0 (convert_number_to_base_var i base) ≡ i
unfolding convert_number_to_base_var
convert_number_to_base_var-value i base h =
    horner-reverse base _ ∙ base_loop-value (suc i) i base [] h (omega arith) ∙ single
  where
    single : le_value base (i ∷ []) ≡ i
    single = unfold le_value in omega arith

-- Every digit is below the base.
abbrev pub Below : ℕ → List ℕ → Type 0
Below base [] = Unit
Below base (d ∷ ds) = (d < base) × Below base ds

Below-append : (base : ℕ) (xs ys : List ℕ) → Below base xs → Below base ys → Below base (xs ++ ys)
Below-append base [] ys a b = b
Below-append base (x ∷ xs) ys a b = (a.0, Below-append base xs ys a.1 b)

Below-reverse : (base : ℕ) (xs : List ℕ) → Below base xs → Below base (reverse xs)
Below-reverse base [] a = a
Below-reverse base (x ∷ xs) a =
    subst (Below base) (sym (reverse-append (x ∷ []) xs))
      (Below-append base (reverse xs) (x ∷ []) (Below-reverse base xs a.1) (a.0, tt))

base_loop-Below :
    (fuel i base : ℕ) (ds : List ℕ)
    → 2 ≤ base
    → Below base ds
    → Below base (base_loop fuel i base ds)
unfolding base_loop
base_loop-Below zero i base ds h b = b
base_loop-Below (suc fuel) i base ds h b = elim (Bool-cases (i == 0 && not (is_empty ds))) [
  | inl e ↦ rw (base_loop_stop fuel i base ds e) b
  | inr e ↦ rw (base_loop_step fuel i base ds e) (
      base_loop-Below fuel (i / base) base (ds ++ (i % base ∷ [])) h
        (Below-append base ds _ b (mod-lt i (omega arith), tt)))
]

pub convert_number_to_base_var-Below :
    (i base : ℕ) → 2 ≤ base → Below base (convert_number_to_base_var i base)
unfolding convert_number_to_base_var
convert_number_to_base_var-Below i base h =
    Below-reverse base _ (base_loop-Below (suc i) i base [] h tt)

grows : (fuel i base d : ℕ) (ds : List ℕ) → is_empty (base_loop fuel i base (d ∷ ds)) ≡ false
unfolding base_loop
grows zero i base d ds = refl
grows (suc fuel) i base d ds = elim (Bool-cases (i == 0 && not (is_empty (d ∷ ds)))) [
  | inl e ↦ rw (base_loop_stop fuel i base (d ∷ ds) e)
  | inr e ↦
      rw (base_loop_step fuel i base (d ∷ ds) e)
        (grows fuel (i / base) base d (ds ++ (i % base ∷ [])))
]

reverse_not_empty : (ds : List ℕ) → is_empty ds ≡ false → is_empty (reverse ds) ≡ false
reverse_not_empty [] e = e
reverse_not_empty (d ∷ ds) e =
    ap is_empty (reverse-append (d ∷ []) ds) ∙ append_not_empty (reverse ds)
  where
    append_not_empty : (xs : List ℕ) → is_empty (xs ++ (d ∷ [])) ≡ false
    append_not_empty [] = refl
    append_not_empty (x ∷ xs) = refl

-- There is a first digit, also for zero.
pub convert_number_to_base_var_head :
    (i base : ℕ) → (d : ℕ) × (ds : List ℕ) × (convert_number_to_base_var i base ≡ d ∷ ds)
convert_number_to_base_var_head i base = first (convert_number_to_base_var i base) not_empty
  where
    not_empty : is_empty (convert_number_to_base_var i base) ≡ false
    not_empty =
        unfold convert_number_to_base_var in
        reverse_not_empty (base_loop (suc i) i base [])
          (rw (base_loop_step i i base [] (ground arith)) (grows i (i / base) base (i % base) []))

    first : (l : List ℕ) → is_empty l ≡ false → (d : ℕ) × (ds : List ℕ) × (l ≡ d ∷ ds)
    first [] e = cc
    first (d ∷ ds) e = (d, ds, refl)

pub binary-value : (m : ℕ) → horner 2 0 (binary m) ≡ m
unfolding binary
binary-value m = convert_number_to_base_var-value m 2 (omega arith)

pub binary-Below : (m : ℕ) → Below 2 (binary m)
unfolding binary
binary-Below m = convert_number_to_base_var-Below m 2 (omega arith)

pub binary_not_empty : (m : ℕ) → 0 < length (binary m)
unfolding binary
binary_not_empty m = let (d, ds, e) = convert_number_to_base_var_head m 2 in rw e (omega arith)
