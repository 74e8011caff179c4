-- ===== src/Group/Multiple.antt =====
-- Laws of n * g in an abelian group.
use Prim.Native.Nat.add
use native.Mathlib.Nat.{div-add-mod}
use ellipticcurves.Prelude.{
  ℕ, zero, suc, ◌+◌, ◌*◌, ◌/◌, ◌%◌, ◌≡◌, refl, sym, ap, ap₂, ◌∙◌, ◌≡⟨◌⟩◌, ◌∎, arith,
}
use ellipticcurves.Prelude.Int.{
  ℤ, pos, negsuc, ◌+ℤ◌, ◌*ℤ◌, neg_ℤ, pos_part, neg_part, pos_part-*ℤ, neg_part-*ℤ, int_laws,
}
use ellipticcurves.Group.{AbelianGroup, nmul, zmul}

module _ {G : Type 0} (grp : AbelianGroup G) where
  open grp use {zero_point, plus, minus, plus_assoc, plus_comm, plus_zero, plus_minus}

  pub zero_plus : (a : G) → plus zero_point a ≡ a
  zero_plus a = plus_comm zero_point a ∙ plus_zero a

  pub plus_interchange : (a b c d : G) → plus (plus a b) (plus c d) ≡ plus (plus a c) (plus b d)
  plus_interchange a b c d =
      rw (plus_assoc a b, ← plus_assoc b c, plus_comm b c, plus_assoc c b, ← plus_assoc a c)

  pub nmul-add : (m n : ℕ) (g : G) → nmul grp (m + n) g ≡ plus (nmul grp m g) (nmul grp n g)
  unfolding nmul
  nmul-add zero n g = rw (add.zero n, zero_plus)
  nmul-add (suc m) n g =
      ap (λ k. nmul grp k g) (add.suc m n)
      ∙ ap (plus g) (nmul-add m n g)
      ∙ sym (plus_assoc g (nmul grp m g) (nmul grp n g))

  pub nmul-one : (g : G) → nmul grp 1 g ≡ g
  unfolding nmul
  nmul-one g = plus_zero g

  pub nmul-zero_point : (n : ℕ) → nmul grp n zero_point ≡ zero_point
  unfolding nmul
  nmul-zero_point zero = refl
  nmul-zero_point (suc n) = zero_plus _ ∙ nmul-zero_point n

  pub nmul-plus : (n : ℕ) (a b : G) → nmul grp n (plus a b) ≡ plus (nmul grp n a) (nmul grp n b)
  unfolding nmul
  nmul-plus zero a b = sym (plus_zero zero_point)
  nmul-plus (suc n) a b = ap (plus (plus a b)) (nmul-plus n a b) ∙ plus_interchange a b _ _

  pub nmul-mul : (m n : ℕ) (g : G) → nmul grp (m * n) g ≡ nmul grp m (nmul grp n g)
  unfolding nmul
  nmul-mul zero n g = ap (λ k. nmul grp k g) {x = zero * n} {y = 0} (omega arith)
  nmul-mul (suc m) n g =
      ap (λ k. nmul grp k g) {x = suc m * n} {y = n + m * n} (omega arith)
      ∙ nmul-add n (m * n) g
      ∙ ap (plus (nmul grp n g)) (nmul-mul m n g)

  -- The multiples of an element of order n depend on the scalar modulo n alone.
  pub nmul-mod : (n m : ℕ) (a : G) → nmul grp n a ≡ zero_point → nmul grp m a ≡ nmul grp (m % n) a
  nmul-mod n m a e =
      ap (λ k. nmul grp k a) {x = m} {y = m / n * n + m % n} (sym (div-add-mod m n) ∙ omega arith)
      ∙ nmul-add (m / n * n) (m % n) a
      ∙ ap (λ b. plus b (nmul grp (m % n) a))
          (nmul-mul (m / n) n a ∙ ap (nmul grp (m / n)) e ∙ nmul-zero_point (m / n))
      ∙ zero_plus (nmul grp (m % n) a)

  -- A left inverse is the opposite.
  pub minus_unique : (a b : G) → plus a b ≡ zero_point → b ≡ minus a
  minus_unique a b e =
      b
      ≡⟨ sym (zero_plus b) ⟩ plus zero_point b
      ≡⟨ ap (λ c. plus c b) (sym (plus_comm (minus a) a ∙ plus_minus a)) ⟩ plus (plus (minus a) a) b
      ≡⟨ plus_assoc (minus a) a b ⟩ plus (minus a) (plus a b)
      ≡⟨ ap (plus (minus a)) e ⟩ plus (minus a) zero_point
      ≡⟨ plus_zero (minus a) ⟩ minus a ∎

  pub minus-zero_point : minus zero_point ≡ zero_point
  minus-zero_point = sym (minus_unique zero_point zero_point (plus_zero zero_point))

  -- From x + b = a: x = a - b.
  plus_solve : (x a b : G) → plus x b ≡ a → x ≡ plus a (minus b)
  plus_solve x a b e =
      x
      ≡⟨ sym (plus_zero x) ⟩ plus x zero_point
      ≡⟨ ap (plus x) (sym (plus_minus b)) ⟩ plus x (plus b (minus b))
      ≡⟨ sym (plus_assoc x b (minus b)) ⟩ plus (plus x b) (minus b)
      ≡⟨ ap (λ c. plus c (minus b)) e ⟩ plus a (minus b) ∎

  plus_cancel : (x y c : G) → plus x c ≡ plus y c → x ≡ y
  plus_cancel x y c e = plus_solve x (plus y c) c e ∙ sym (plus_solve y (plus y c) c refl)

  pub minus-plus : (a b : G) → minus (plus a b) ≡ plus (minus a) (minus b)
  minus-plus a b = sym (
      minus_unique (plus a b) (plus (minus a) (minus b)) (
        plus_interchange a b (minus a) (minus b)
        ∙ ap₂ plus (plus_minus a) (plus_minus b)
        ∙ plus_zero zero_point))

  -- An integer multiple is the difference of two natural ones.
  zmul_parts :
      (k : ℤ) (g : G) → plus (zmul grp k g) (nmul grp (neg_part k) g) ≡ nmul grp (pos_part k) g
  unfolding zmul nmul
  zmul_parts (pos n) g = plus_zero _
  zmul_parts (negsuc n) g = plus_comm _ _ ∙ plus_minus _

  pub zmul_of_parts :
      (k : ℤ) (a b : ℕ) (g : G)
      → pos_part k + b ≡ neg_part k + a
      → zmul grp k g ≡ plus (nmul grp a g) (minus (nmul grp b g))
  zmul_of_parts k a b g e = plus_solve _ _ _ (
      plus_cancel _ _ (nmul grp (neg_part k) g) (
        plus (plus (zmul grp k g) (nmul grp b g)) (nmul grp (neg_part k) g)
        ≡⟨ plus_assoc _ _ _ ∙ ap (plus (zmul grp k g)) (plus_comm _ _) ∙ sym (plus_assoc _ _ _) ⟩
          plus (plus (zmul grp k g) (nmul grp (neg_part k) g)) (nmul grp b g)
        ≡⟨ ap (λ x. plus x (nmul grp b g)) (zmul_parts k g) ⟩
          plus (nmul grp (pos_part k) g) (nmul grp b g)
        ≡⟨ sym (nmul-add (pos_part k) b g) ⟩ nmul grp (pos_part k + b) g
        ≡⟨ ap (λ n. nmul grp n g) (e ∙ omega arith) ⟩ nmul grp (a + neg_part k) g
        ≡⟨ nmul-add a (neg_part k) g ⟩ plus (nmul grp a g) (nmul grp (neg_part k) g) ∎))

  pub zmul-add : (i j : ℤ) (g : G) → zmul grp (i +ℤ j) g ≡ plus (zmul grp i g) (zmul grp j g)
  zmul-add i j g =
      zmul_of_parts (i +ℤ j) (pos_part i + pos_part j) (neg_part i + neg_part j) g (omega int_laws)
      ∙ ap₂ plus (nmul-add _ _ g) (ap minus (nmul-add _ _ g) ∙ minus-plus _ _)
      ∙ plus_interchange _ _ _ _
      ∙ sym (ap₂ plus (zmul_of_parts i _ _ g (omega arith)) (zmul_of_parts j _ _ g (omega arith)))

  pub zmul-pos : (n : ℕ) (g : G) → zmul grp (pos n) g ≡ nmul grp n g
  unfolding zmul
  zmul-pos n g = refl

  minus-minus : (a : G) → minus (minus a) ≡ a
  minus-minus a = sym (minus_unique (minus a) a (plus_comm _ _ ∙ plus_minus a))

  pub zmul-neg_ℤ : (k : ℤ) (g : G) → zmul grp (neg_ℤ k) g ≡ minus (zmul grp k g)
  zmul-neg_ℤ k g =
      minus_unique _ _
        (sym (zmul-add k (neg_ℤ k) g) ∙ ap (λ z. zmul grp z g) zero_sum ∙ zmul-pos 0 g ∙ nmul_none)
    where
      zero_sum : k +ℤ neg_ℤ k ≡ pos 0
      zero_sum = omega int_laws

      nmul_none : nmul grp 0 g ≡ zero_point
      nmul_none = unfold nmul in refl

  pub nmul-minus : (n : ℕ) (a : G) → nmul grp n (minus a) ≡ minus (nmul grp n a)
  unfolding nmul
  nmul-minus zero a = sym minus-zero_point
  nmul-minus (suc n) a = ap (plus (minus a)) (nmul-minus n a) ∙ sym (minus-plus a _)

  pub zmul-mul : (n : ℕ) (k : ℤ) (g : G) → zmul grp (pos n *ℤ k) g ≡ nmul grp n (zmul grp k g)
  zmul-mul n k g =
      zmul_of_parts (pos n *ℤ k) (n * pos_part k) (n * neg_part k) g
        (omega (arith, pos_part-*ℤ (pos n) k, neg_part-*ℤ (pos n) k))
      ∙ ap₂ plus (nmul-mul n _ g) (ap minus (nmul-mul n _ g) ∙ sym (nmul-minus n _))
      ∙ sym (nmul-plus n _ _)
      ∙ ap (nmul grp n) (sym (zmul_of_parts k (pos_part k) (neg_part k) g (omega arith)))

  nmul_swap : (m n : ℕ) (g : G) → nmul grp m (nmul grp n g) ≡ nmul grp n (nmul grp m g)
  nmul_swap m n g =
      sym (nmul-mul m n g)
      ∙ ap (λ k. nmul grp k g) {x = m * n} {y = n * m} (omega arith)
      ∙ nmul-mul n m g

  pub zmul-nmul : (n : ℕ) (k : ℤ) (g : G) → zmul grp k (nmul grp n g) ≡ nmul grp n (zmul grp k g)
  zmul-nmul n k g =
      zmul_of_parts k (pos_part k) (neg_part k) (nmul grp n g) (omega arith)
      ∙ ap₂ plus (nmul_swap _ n g) (ap minus (nmul_swap _ n g) ∙ sym (nmul-minus n _))
      ∙ sym (nmul-plus n _ _)
      ∙ ap (nmul grp n) (sym (zmul_of_parts k (pos_part k) (neg_part k) g (omega arith)))
