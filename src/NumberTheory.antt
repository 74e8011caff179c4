-- ===== src/NumberTheory.antt =====
-- src/btclib_ecc/number_theory.py: the extended Euclidean algorithm and the modular inverses.
-- The operands of `xgcd_var` are the non-negative ones that the inverses reduce to.
pub mod Euclid
pub mod Inverse
pub mod Batch
pub mod Blinded
pub mod Roots
use mathlib.Core.WellFounded.{Acc}
use ellipticcurves.Prelude.{
  ℕ, zero, suc, ◌+◌, ◌-◌, ◌*◌, ◌/◌, ◌%◌, ◌<◌, Bool, true, false, List, [], ◌∷◌, ◌++◌, map, arith,
  ◌==◌, ltb, if◌then◌else◌, length,
}
use ellipticcurves.Prelude.Int.{ℤ, pos, negsuc, ◌-ℤ◌, ◌*ℤ◌, mod_ℤ}
use ellipticcurves.Prelude.Order.{lt_wf}
use ellipticcurves.Prelude.Result.{
  Result, ok, err, ◌>>=◌, ◌>>◌, refuse, non_positive_modulus, no_inverse,
}

-- The variables of the loop of `xgcd_var` other than `a` and `b`.
pub record Cofactors : Type 0 where
  pub x0 : ℤ
  pub x1 : ℤ
  pub y0 : ℤ
  pub y1 : ℤ

-- What `xgcd_var` returns: (g, x, y).
pub record Bezout : Type 0 where
  pub g : ℕ
  pub x : ℤ
  pub y : ℤ

pub rem_lt : (b n : ℕ) → b % suc n < suc n
rem_lt b n = omega arith

-- `q, b, a = b // a, a, b % a` and the cofactors with it.
unfoldable pub advance : ℕ → Cofactors → Cofactors
advance q c = record {
  x0 = c.x1;
  x1 = c.x0 -ℤ pos q *ℤ c.x1;
  y0 = c.y1;
  y1 = c.y0 -ℤ pos q *ℤ c.y1;
}

xgcd_loop : (a b : ℕ) → Acc ◌<◌ a → Cofactors → Bezout
unfolding advance
xgcd_loop zero b (Acc.intro _ smaller) c = record { g = b; x = c.x0; y = c.y0 }
xgcd_loop (suc n) b (Acc.intro _ smaller) c =
    xgcd_loop (b % suc n) (suc n) (smaller (b % suc n) (rem_lt b n)) (advance (b / suc n) c)

unfoldable pub xgcd_var : ℕ → ℕ → Bezout
unfolding xgcd_loop lt_wf
xgcd_var a b =
    xgcd_loop a b (lt_wf.apply a) (record { x0 = pos 0; x1 = pos 1; y0 = pos 1; y1 = pos 0 })

-- Python's `pow(a, -1, m)`: the loop of `xgcd_var` on the reduced operand, and a `ValueError` when
-- the two have a common divisor.
unfoldable pub pow_inverse : ℤ → ℕ → Result ℕ
pow_inverse a m =
    let r = xgcd_var (mod_ℤ a m) m in if r.g == 1 then ok (mod_ℤ r.x m) else err no_inverse

unfoldable pub assert_valid_modulus : ℤ → Result ℕ
assert_valid_modulus (pos zero) = err non_positive_modulus
assert_valid_modulus (pos (suc m)) = ok (suc m)
assert_valid_modulus (negsuc m) = err non_positive_modulus

unfoldable pub mod_inv_var : ℤ → ℤ → Result ℕ
unfolding assert_valid_modulus
mod_inv_var a m = do n ← assert_valid_modulus m; pow_inverse a n

-- `except BTClibEccValueError`
unfoldable pub or_else {ℓ} : {A : Type ℓ} → Result A → Result A → Result A
or_else (ok a) r = ok a
or_else (err e) r = r

-- `b` is what `1 + secrets.randbelow(m - 1)` drew, and 1 for the modulus 1.
unfoldable pub mod_inv : ℕ → ℤ → ℤ → Result ℕ
unfolding assert_valid_modulus or_else
mod_inv b a m = do
  n ← assert_valid_modulus m
  or_else (do i ← mod_inv_var (pos (mod_ℤ (a *ℤ pos b) n)) m; ok (i * b % n)) (mod_inv_var a m)

-- `acc`, the running products.
unfoldable pub running_products : ℕ → ℕ → List ℤ → List ℕ
running_products m product [] = []
running_products m product (x ∷ xs) =
    let next = mod_ℤ (pos product *ℤ x) m in next ∷ running_products m next xs

-- `[f(x) for x in a]` for an `f` that may raise.
unfoldable pub map_result : (ℤ → Result ℕ) → List ℤ → Result (List ℕ)
map_result f [] = ok []
map_result f (x ∷ xs) = do y ← f x; ys ← map_result f xs; ok (y ∷ ys)

-- `for i in range(len(a) - 1, 0, -1)`: the last element first, so each round is made when the rounds
-- of the elements behind it have been. The lists are a[1:] and the products acc[i - 1]; the result
-- is inverses[1:] and the final `inv`.
unfoldable pub peel : ℕ → ℕ → List ℤ → List ℕ → List ℕ × ℕ
peel m inv [] acc = ([], inv)
peel m inv (x ∷ xs) [] = ([], inv)
peel m inv (x ∷ xs) (c ∷ acc) =
    let (inverses, inv') = peel m inv xs acc in ((inv' * c % m) ∷ inverses, mod_ℤ (pos inv' *ℤ x) m)

unfoldable pub final_product : ℕ → ℕ → List ℤ → ℕ
final_product m product [] = product
final_product m product (x ∷ xs) = final_product m (mod_ℤ (pos product *ℤ x) m) xs

-- The work on a list that is not empty, once its last running product has been inverted.
unfoldable pub peel_all : ℕ → List ℤ → ℕ → List ℕ
unfolding peel running_products
peel_all m [] inv = []
peel_all m (x ∷ xs) inv =
    let (inverses, inv0) = peel m inv xs (running_products m 1 (x ∷ xs)) in inv0 ∷ inverses

unfoldable pub mod_inv_batch_var : List ℤ → ℤ → Result (List ℕ)
unfolding assert_valid_modulus map_result or_else
mod_inv_batch_var [] m = assert_valid_modulus m >>= λ n. ok []
mod_inv_batch_var (x ∷ xs) m = do
  n ← assert_valid_modulus m
  or_else (pow_inverse (pos (final_product n 1 (x ∷ xs))) n >>= λ inv. ok (peel_all n (x ∷ xs) inv))
      (map_result (λ y. mod_inv_var y m) (x ∷ xs))
