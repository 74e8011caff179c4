-- ===== src/Ecdsa/Signing/Crack.antt =====
-- ecc/dsa.py: two signatures with one nonce give the key and the nonce away.
use native.Mathlib.Nat
use ellipticcurves.Prelude.{
  ℕ, ◌+◌, ◌*◌, ◌%◌, ◌<◌, ◌≡◌, ◌≢◌, sym, ap, ap₂, ◌∙◌, arith, subst, true, false, ltb, not, ◌&&◌,
  ◌==◌, ==_iff,
}
use ellipticcurves.Prelude.Int.{ℤ, pos, mod_ℤ, ◌*ℤ◌, ◌-ℤ◌}
use ellipticcurves.Prelude.Modular.{
  mod_ℤ-lt, mod_ℤ-pos, mod_ℤ-*ℤ, mod_ℤ--ℤ, mod-mul_left, mod-mul_right, mod_cong_mul, mod_cong_add,
  mod_cancel_add,
}
use ellipticcurves.Prelude.Result.{ok, refuse-ok, r_not_in_range}
use ellipticcurves.NumberTheory.{mod_inv_var}
use ellipticcurves.NumberTheory.Inverse.{IsInverse, IsInverse-of}
use ellipticcurves.Ecdsa.{SigCurve, Sig, assert_valid}
use ellipticcurves.Ecdsa.Signing.{CurveKey, same_curve, crack_prv_key_var}
use ellipticcurves.Ecdsa.Signing.Modular.{mod_times_one}

-- What the signature of the challenge `c` with the key `q` and the nonce `k` satisfies.
pub record Signs (n c q k : ℕ) (sig : Sig) : Type 0 where
  pub reduced : sig.s < n
  pub equation : k * sig.s % n ≡ (c + sig.r * q) % n

-- A quotient: when a = b * k modulo n and i is the inverse of b, then a * i is k.
quotient_ℤ :
    (n k i : ℕ) (a b : ℤ)
    → 0 < n
    → k < n
    → mod_ℤ a n ≡ k * mod_ℤ b n % n
    → IsInverse b n i
    → mod_ℤ (a *ℤ pos i) n ≡ k
quotient_ℤ n k i a b h l e v =
    mod_ℤ-*ℤ a (pos i) n h
    ∙ ap₂ (λ x y. x * y % n) e (mod_ℤ-pos i n)
    ∙ mod-mul_right (k * mod_ℤ b n % n) i n
    ∙ mod-mul_left (k * mod_ℤ b n) i n
    ∙ ap (λ x. x % n) {x = k * mod_ℤ b n * i} {y = k * (mod_ℤ b n * i)} (omega arith)
    ∙ mod_times_one n k (mod_ℤ b n * i) v.inverse
    ∙ Nat.mod-eq_of_lt l

-- A difference is the number that is added back.
difference_back : (n a b : ℕ) → 0 < n → (mod_ℤ (pos a -ℤ pos b) n + b) % n ≡ a % n
difference_back n a b h =
    sym (Nat.add-mod-mod (mod_ℤ (pos a -ℤ pos b) n) b n)
    ∙ ap (λ x. (mod_ℤ (pos a -ℤ pos b) n + x) % n) (sym (mod_ℤ-pos b n))
    ∙ mod_ℤ--ℤ (pos a) (pos b) n h
    ∙ mod_ℤ-pos a n

difference_unique : (n a b x : ℕ) → 0 < n → (x + b) % n ≡ a % n → mod_ℤ (pos a -ℤ pos b) n ≡ x % n
difference_unique n a b x h e =
    sym (Nat.mod-eq_of_lt (mod_ℤ-lt (pos a -ℤ pos b) n h))
    ∙ mod_cancel_add n (mod_ℤ (pos a -ℤ pos b) n) x b h (difference_back n a b h ∙ sym e)

-- The difference of two products.
difference :
    (n k : ℕ) (s t c d m : ℕ)
    → 0 < n
    → k * s % n ≡ (c + m) % n
    → k * t % n ≡ (d + m) % n
    → mod_ℤ (pos c -ℤ pos d) n ≡ k * mod_ℤ (pos s -ℤ pos t) n % n
difference n k s t c d m h e f = difference_unique n c d (k * b) h (
    mod_cancel_add n (k * b + d) c m h (
      ap (λ x. x % n) {x = k * b + d + m} {y = d + m + k * b} (omega arith)
      ∙ sym (mod_cong_add n (k * t) (d + m) (k * b) f)
      ∙ ap (λ x. x % n) {x = k * t + k * b} {y = (b + t) * k} (omega arith)
      ∙ mod_cong_mul n (b + t) s k (difference_back n s t h)
      ∙ ap (λ x. x % n) {x = s * k} {y = k * s} (omega arith)
      ∙ e))
  where
    b : ℕ
    b = mod_ℤ (pos s -ℤ pos t) n

same_residue : (n a b : ℕ) → 0 < n → a < n → b < n → mod_ℤ (pos a -ℤ pos b) n ≡ 0 → a ≡ b
same_residue n a b h l m e =
    sym (Nat.mod-eq_of_lt l)
    ∙ sym (difference_back n a b h)
    ∙ ap (λ x. (x + b) % n) e
    ∙ ap (λ x. x % n) {x = 0 + b} {y = b} (omega arith)
    ∙ Nat.mod-eq_of_lt m

key_equation :
    (n k q s r c : ℕ)
    → 0 < n
    → k * s % n ≡ (c + r * q) % n
    → mod_ℤ (pos (s * k) -ℤ pos c) n ≡ q * mod_ℤ (pos r) n % n
key_equation n k q s r c h e =
    difference_unique n (s * k) c (q * r) h (
      ap (λ x. x % n) {x = q * r + c} {y = c + r * q} (omega arith)
      ∙ sym e
      ∙ ap (λ x. x % n) {x = k * s} {y = s * k} (omega arith))
    ∙ sym (mod-mul_right q r n)
    ∙ ap (λ x. q * x % n) (sym (mod_ℤ-pos r n))

not_same : (a b : ℕ) → a ≢ b → (a == b) ≡ false
not_same a b n = ground arith

valid_r : (ec : SigCurve) (sig : Sig) → assert_valid ec sig ≡ ok tt → mod_ℤ (pos sig.r) ec.n ≢ 0
unfolding assert_valid
valid_r ec sig e z =
    let (t, e1) = refuse-ok (not (ltb 0 sig.r && ltb sig.r ec.n)) r_not_in_range _ e in
    let (positive, bound) = in_range sig.r ec.n t in
    absurd (omega (arith, sym (mod_ℤ-pos sig.r ec.n) ∙ z, Nat.mod-eq_of_lt bound, positive))
  where
    in_range : (r n : ℕ) → not (ltb 0 r && ltb r n) ≡ false → (0 < r) × (r < n)
    in_range r n t = ground arith

-- For two signatures that are valid on curves with equal parameters, whose order n is prime,
-- given as the existence of the inverses modulo n; with one r and different s below n, each of
-- which solves k * s = c + r * q modulo n for its challenge c, with q and k below n:
-- crack_prv_key_var_ returns the key q and the nonce k.
pub crack_prv_key_var_lem :
    (curve1 curve : CurveKey) (q k c_1 c_2 : ℕ) (sig1 sig2 : Sig)
    → assert_valid curve1.ec sig1 ≡ ok tt
    → assert_valid curve.ec sig2 ≡ ok tt
    → same_curve curve1 curve ≡ true
    → q < curve.ec.n
    → k < curve.ec.n
    → Signs curve.ec.n c_1 q k sig1
    → Signs curve.ec.n c_2 q k sig2
    → sig1.r ≡ sig2.r
    → sig1.s ≢ sig2.s
    → ((a : ℤ) → mod_ℤ a curve.ec.n ≢ 0 → (i : ℕ) × (mod_inv_var a (pos curve.ec.n) ≡ ok i))
    → crack_prv_key_var c_1 curve1 sig1 c_2 curve sig2 ≡ ok (q, k)
unfolding crack_prv_key_var
crack_prv_key_var_lem curve1 curve q k c_1 c_2 sig1 sig2 valid1 valid2 same hq hk u v er es prime =
    let n = curve.ec.n in
    let h : 0 < n = omega arith in
    let second : k * sig2.s % n ≡ (c_2 + sig1.r * q) % n =
      v.equation ∙ ap (λ r. (c_2 + r * q) % n) (sym er) in
    let (i, f) =
      prime (pos sig1.s -ℤ pos sig2.s)
        (λ z. es (same_residue n sig1.s sig2.s h u.reduced v.reduced z)) in
    let (r_1, g) =
      prime (pos sig1.r)
        (subst (λ r. mod_ℤ (pos r) n ≢ 0) (sym er) (valid_r curve.ec sig2 valid2)) in
    let nonce : mod_ℤ ((pos c_1 -ℤ pos c_2) *ℤ pos i) n ≡ k =
      quotient_ℤ n k i (pos c_1 -ℤ pos c_2) (pos sig1.s -ℤ pos sig2.s) h hk
        (difference n k sig1.s sig2.s c_1 c_2 (sig1.r * q) h u.equation second)
        (IsInverse-of _ n i h f) in
    let key : mod_ℤ ((pos (sig2.s * k) -ℤ pos c_2) *ℤ pos r_1) n ≡ q =
      quotient_ℤ n q r_1 (pos (sig2.s * k) -ℤ pos c_2) (pos sig1.r) h hq
        (key_equation n k q sig2.s sig1.r c_2 h second) (IsInverse-of _ n r_1 h g) in
    rw (
      valid1,
      valid2,
      same,
      (==_iff sig1.r sig2.r).1 er,
      not_same sig1.s sig2.s es,
      f,
      g,
      nonce,
      key,
    )
