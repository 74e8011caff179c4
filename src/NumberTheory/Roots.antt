-- ===== src/NumberTheory/Roots.antt =====
-- number_theory.py: `legendre_symbol_var`, `mod_sqrt_var` and `tonelli_var`.
pub mod Loops
pub mod Square
pub mod Bound
use native.Mathlib.Nat
use mathlib.Core.WellFounded.{Acc}
use ellipticcurves.Prelude.{
  ℕ, zero, suc, ◌+◌, ◌-◌, ◌*◌, ◌/◌, ◌%◌, ◌^◌, ◌<◌, ◌≤◌, ◌≡◌, Bool, true, false, Option, some, none,
  arith, ◌==◌, ◌&&◌, ◌||◌, not, if◌then◌else◌,
}
use ellipticcurves.Prelude.Int.{ℤ, pos, negsuc, neg_ℤ, mod_ℤ}
use ellipticcurves.Prelude.Order.{lt_wf}
use ellipticcurves.Prelude.Result.{Result, ok, err, ◌>>=◌, no_root, not_prime}
use ellipticcurves.NumberTheory.{assert_valid_modulus, rem_lt}

-- An odd number times a power of two.
pub record Split : Type 0 where
  pub q : ℕ
  pub s : ℕ

-- `while q & 1 == 0`, on the fuel q.
unfoldable pub split_loop : ℕ → ℕ → ℕ → Split
split_loop zero q s = record { q = q; s = s }
split_loop (suc fuel) q s =
    let rest = split_loop fuel (q / 2) (s + 1) in
    if q % 2 == 0 then rest else record { q = q; s = s }

-- The sign that the factors of two and then the swap of the operands give to the symbol.
unfoldable pub turn_sign : Split → ℕ → ℤ → ℤ
turn_sign a p result =
    let halved = if a.s % 2 == 1 && (p % 8 == 3 || p % 8 == 5) then neg_ℤ result else result in
    if a.q % 4 == 3 && p % 4 == 3 then neg_ℤ halved else halved

split_loop-positive :
    (fuel q s : ℕ) → 0 < q → (0 < (split_loop fuel q s).q) × ((split_loop fuel q s).q ≤ q)
unfolding split_loop
split_loop-positive zero q s l = (l, omega arith)
split_loop-positive (suc fuel) q s l = ground (arith, split_loop-positive fuel (q / 2) (s + 1))

pub remainder_lt : (p n : ℕ) → p % (split_loop (suc n) (suc n) 0).q < suc n
remainder_lt p n =
    let (l, h) = split_loop-positive (suc n) (suc n) 0 (omega arith) in
    omega (arith, h, Nat.mod-lt p l)

symbol_loop : (a p : ℕ) → Acc ◌<◌ a → ℤ → ℤ
unfolding split_loop turn_sign
symbol_loop zero p (Acc.intro _ smaller) result = if p == 1 then result else pos 0
symbol_loop (suc n) p (Acc.intro _ smaller) result =
    let a = split_loop (suc n) (suc n) 0 in
    symbol_loop (p % a.q) a.q (smaller (p % a.q) (remainder_lt p n)) (turn_sign a p result)

unfoldable pub legendre_symbol_var : ℤ → ℤ → Result ℤ
unfolding symbol_loop assert_valid_modulus lt_wf
legendre_symbol_var a p = do
  m ← assert_valid_modulus p
  ok (symbol_loop (mod_ℤ a m) m (lt_wf.apply (mod_ℤ a m)) (pos 1))

-- `legendre_symbol_var(a, p) == 1` and `== -1`.
unfoldable pub is_residue : ℕ → ℕ → Bool
unfolding legendre_symbol_var
is_residue a p = elim (legendre_symbol_var (pos a) (pos p)) [ ok (pos n) ↦ n == 1 | _ ↦ false ]

unfoldable pub is_non_residue : ℕ → ℕ → Bool
unfolding legendre_symbol_var
is_non_residue a p = elim (legendre_symbol_var (pos a) (pos p)) [
  | ok (negsuc n) ↦ n == 0
  | _ ↦ false
]

-- `while legendre_symbol_var(z, p) != -1`, with the number of steps that are left before z is p.
unfoldable pub non_residue : ℕ → ℕ → ℕ → Result ℕ
unfolding is_non_residue
non_residue zero z p = err not_prime
non_residue (suc left) z p =
    let rest = non_residue left (z + 1) p in if is_non_residue z p then ok z else rest

-- `for i in range(1, s)`: `left` of its values are not yet tried.
unfoldable pub squarings : ℕ → ℕ → ℕ → ℕ → Option ℕ
squarings zero i t2i p = none
squarings (suc left) i t2i p =
    let rest = squarings left (i + 1) (t2i * t2i % p) p in
    if t2i * t2i % p == 1 then some i else rest

-- The variables of `while t != 1`.
pub record Search : Type 0 where
  pub r : ℕ
  pub c : ℕ
  pub t : ℕ
  pub s : ℕ

abbrev pub update : ℕ → ℕ → Search → Search
update p i v =
    let b = v.c ^ (2 ^ (v.s - i - 1)) % p in
    let c = b * b % p in record { r = v.r * b % p; c = c; t = v.t * c % p; s = i }

-- The loop, on the fuel s.
unfoldable pub search_loop : ℕ → ℕ → Search → Result ℕ
unfolding squarings
search_loop zero p v = if v.t == 1 then ok v.r else err not_prime
search_loop (suc fuel) p v = if v.t == 1 then ok v.r else elim (squarings (v.s - 1) 1 v.t p) [
  | none ↦ err not_prime
  | some i ↦ search_loop fuel p (update p i v)
]

-- From the factors of p - 1 on.
unfoldable pub tonelli_search : ℕ → ℕ → Split → Result ℕ
unfolding search_loop non_residue
tonelli_search a p f =
    if f.s == 1
    then ok (a ^ ((p + 1) / 4) % p)
    else (non_residue (p - 2) 2 p >>= λ z.
        search_loop f.s p
          (record { r = a ^ ((f.q + 1) / 2) % p; c = z ^ f.q % p; t = a ^ f.q % p; s = f.s }))

-- On the operand that is reduced modulo p.
unfoldable pub tonelli_reduced : ℕ → ℕ → Result ℕ
unfolding split_loop is_residue tonelli_search
tonelli_reduced a p =
    if a == 0 || p == 2
    then ok a
    else (if is_residue a p then tonelli_search a p (split_loop (p - 1) (p - 1) 0) else err no_root)

unfoldable pub tonelli_var : ℤ → ℤ → Result ℕ
unfolding tonelli_reduced assert_valid_modulus
tonelli_var a p = do m ← assert_valid_modulus p; tonelli_reduced (mod_ℤ a m) m

abbrev pub root_or_none : ℕ → ℕ → ℕ → Result ℕ
root_or_none a p r = if r * r % p == a then ok r else err no_root

unfoldable pub sqrt_reduced : ℕ → ℕ → Result ℕ
unfolding tonelli_reduced
sqrt_reduced a p =
    if p % 4 == 3
    then root_or_none a p (a ^ (p / 4 + 1) % p)
    else (if p % 8 == 5
        then (let r = a ^ (p / 8 + 1) % p in
            if r * r % p == a then ok r else root_or_none a p (r * (2 ^ (p / 4) % p) % p))
        else tonelli_reduced a p)

unfoldable pub mod_sqrt_var : ℤ → ℤ → Result ℕ
unfolding sqrt_reduced assert_valid_modulus
mod_sqrt_var a p = do m ← assert_valid_modulus p; sqrt_reduced (mod_ℤ a m) m
