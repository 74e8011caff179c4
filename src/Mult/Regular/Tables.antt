-- ===== src/Mult/Regular/Tables.antt =====
-- The tables of odd multiples: entry i of the plain one is (2 i + 1) * g, and the signed one of
-- width w has the 2 ^ w odd multiples from -(2 ^ w - 1) * g on.
use ellipticcurves.Prelude.{
  ℕ, zero, suc, ◌+◌, ◌-◌, ◌*◌, ◌/◌, ◌^◌, ◌≤◌, ◌<◌, ◌≡◌, refl, sym, ap, ◌∙◌, List, [], ◌∷◌, ◌++◌,
  map, reverse, arith, length, length-append, Bool-cases, inl, inr, ltb, subst,
}
use ellipticcurves.Prelude.Int.{
  ℤ, pos, pos_part, neg_part, ◌-ℤ◌, ◌+ℤ◌, neg_ℤ, int_laws, eq_of_parts,
}
use ellipticcurves.Prelude.Result.{ok}
use ellipticcurves.Prelude.Table.{
  Entries, index-Entries, Entries-append, move-Entries, reverse-Entries, append-Entries,
  map-Entries,
}
use ellipticcurves.Group.{PointOps, AbelianGroup, Represents, nmul, zmul}
use ellipticcurves.Group.Multiple.{zmul-neg_ℤ, zmul-pos}
use ellipticcurves.Group.Shows.{Shows, Times, Times-eq, Times-one, Times-add, Times-double}
use ellipticcurves.Group.Affine.{AffineOps, RepresentsAffine}
use ellipticcurves.Recode.Regular.{IsOddBelow, power_even, pow_positive}
use ellipticcurves.Mult.Window.{last}
use ellipticcurves.Mult.Regular.{
  odd_multiples_loop, odd_multiples, odd_multiples_aff, signed_odd_multiples_aff, entry,
}

pub last-Entries :
    {J : Type 0} (P : ℕ → J → Type 0) (xs : List J) (k : ℕ)
    → Entries P k xs
    → 0 < length xs
    → (x : J) × (last xs ≡ ok x) × P (k + length xs - 1) x
unfolding last
last-Entries P [] k es h = absurd (omega arith)
last-Entries P (x ∷ []) k es h =
    (x, refl, subst (λ n. P n x) {x = k} {y = k + 1 - 1} (omega arith) es.0)
last-Entries P (x ∷ y ∷ xs) k es h =
    let (z, e, p) = last-Entries P (y ∷ xs) (suc k) es.1 (omega arith) in
    (z, e, subst (λ n. P n z) (omega arith) p)

module _ {J G : Type 0} {ec : PointOps J} {grp : AbelianGroup G} (rep : Represents ec grp) where
  abbrev pub OddMultiples : G → List J → Type 0
  OddMultiples g T = Entries (λ i X. Times rep g X (2 * i + 1)) 0 T

  odd_multiples_loop-OddMultiples :
      (rounds : ℕ) (Q2 : J) (T : List J) {g : G}
      → Times rep g Q2 2
      → OddMultiples g T
      → 0 < length T
      → (T' : List J) × (odd_multiples_loop ec Q2 rounds T ≡ ok T')
        × OddMultiples g T'
        × (length T' ≡ length T + rounds)
  unfolding odd_multiples_loop
  odd_multiples_loop-OddMultiples zero Q2 T t es l = (T, refl, es, omega arith)
  odd_multiples_loop-OddMultiples (suc rounds) Q2 T {g} t es l =
      let (top, at, s) = last-Entries (λ i X. Times rep g X (2 * i + 1)) T 0 es l in
      let longer = length-append T (ec.add top Q2 ∷ []) in
      let next =
        Entries-append (λ i X. Times rep g X (2 * i + 1)) T 0 (ec.add top Q2) es
          (Times-eq rep (Times-add rep top Q2 s t) (omega arith)) in
      let (T', e, es', l') =
        odd_multiples_loop-OddMultiples rounds Q2 (T ++ (ec.add top Q2 ∷ [])) t next
          (omega (arith, longer)) in
      (T', rw at e, es', omega (arith, longer))

  -- The table for width w + 1 has 2 ^ (w - 1) entries.
  pub odd_multiples-OddMultiples :
      (Q : J) (w : ℕ) {g : G}
      → Shows rep Q g
      → 1 ≤ w
      → (T : List J) × (odd_multiples Q ec (w + 1) ≡ ok T)
        × OddMultiples g T
        × (2 * length T ≡ 2 ^ w)
  unfolding odd_multiples
  odd_multiples-OddMultiples Q w {g} s h = elim (Bool-cases (ltb 2 (w + 1))) [
    | inl e ↦
        let (T, f, es, l) =
          odd_multiples_loop-OddMultiples (2 ^ (w + 1 - 2) - 1) (ec.double Q) (Q ∷ [])
            (Times-double rep Q (Times-one rep s)) (first, tt) (omega arith) in
        (T, rw e f, es, omega (arith, l, size, pow_positive (w + 1 - 2)))
    | inr e ↦ (Q ∷ [], rw e, (first, tt), ap (λ n. 2 ^ n) {x = 1} {y = w} (ground arith))
  ]
    where
      first : Times rep g Q (2 * 0 + 1)
      first = Times-eq rep (Times-one rep s) (omega arith)

      size : 2 ^ suc (w + 1 - 2) ≡ 2 ^ w
      size = ap (λ n. 2 ^ n) {x = suc (w + 1 - 2)} {y = w} (omega arith)

pos_part_shift :
    (d : ℤ) (c : ℕ) → neg_part d ≤ c → pos_part (d +ℤ pos c) + neg_part d ≡ pos_part d + c
unfolding ◌+ℤ◌
pos_part_shift d c h = ground arith

module _ {J A G : Type 0} {ec : AffineOps J A} {grp : AbelianGroup G}
    (rep : RepresentsAffine ec grp) where
  -- Entry j of the signed table of width w.
  abbrev pub SignedMultiples : ℕ → G → List A → Type 0
  SignedMultiples h g T = Entries (λ j a. rep.Stands a (zmul grp (pos (2 * j + 1) -ℤ pos h) g)) 0 T

  -- The multiple (2 i + 1) * g as an entry of the signed table, and its opposite.
  upper :
      (a : A) (i j h : ℕ) (g : G)
      → 2 * i + h ≡ 2 * j
      → rep.Stands a (nmul grp (2 * i + 1) g)
      → rep.Stands a (zmul grp (pos (2 * j + 1) -ℤ pos h) g)
  upper a i j h g e = subst (rep.Stands a) (
      sym (zmul-pos grp (2 * i + 1) g)
      ∙ ap (λ k. zmul grp k g)
          (eq_of_parts (pos (2 * i + 1)) (pos (2 * j + 1) -ℤ pos h) (omega int_laws)))

  lower :
      (a : A) (i j h : ℕ) (g : G)
      → 2 * i + 2 * j + 2 ≡ h
      → rep.Stands a (nmul grp (2 * i + 1) g)
      → rep.Stands (ec.negate_aff a) (zmul grp (pos (2 * j + 1) -ℤ pos h) g)
  lower a i j h g e t =
      subst (rep.Stands (ec.negate_aff a))
        (ap grp.minus (sym (zmul-pos grp (2 * i + 1) g))
          ∙ sym (zmul-neg_ℤ grp (pos (2 * i + 1)) g)
          ∙ ap (λ k. zmul grp k g)
              (eq_of_parts (neg_ℤ (pos (2 * i + 1))) (pos (2 * j + 1) -ℤ pos h) (omega int_laws)))
        (rep.negate_aff-Stands a t)

  mirrored :
      (As : List A) (h : ℕ) (g : G)
      → 2 * length As ≡ h
      → Entries (λ i a. rep.Stands a (nmul grp (2 * i + 1) g)) 0 As
      → SignedMultiples h g (map ec.negate_aff (reverse As) ++ As)
        × (length (map ec.negate_aff (reverse As) ++ As) ≡ h)
  mirrored As h g l es =
      let (back, lb) =
        reverse-Entries Plain Negated As 0 (length As) (omega arith)
          (λ i j a e. lower a i j h g (omega (arith, l))) es in
      let (front, lf) = map-Entries Negated Signed ec.negate_aff (reverse As) 0 (λ i a t. t) back in
      (
        append-Entries Signed (map ec.negate_aff (reverse As)) As 0 front (
            move-Entries Plain Signed As 0 _
              (λ i a.
                upper a (0 + i) (0 + length (map ec.negate_aff (reverse As)) + i) h g
                  (omega (arith, l, lb, lf)))
              es),
        omega (arith, length-append (map ec.negate_aff (reverse As)) As, lb, lf),
      )
    where
      Plain : ℕ → A → Type 0
      Plain i a = rep.Stands a (nmul grp (2 * i + 1) g)

      Negated : ℕ → A → Type 0
      Negated j a = rep.Stands (ec.negate_aff a) (zmul grp (pos (2 * j + 1) -ℤ pos h) g)

      Signed : ℕ → A → Type 0
      Signed j a = rep.Stands a (zmul grp (pos (2 * j + 1) -ℤ pos h) g)

  pub signed_odd_multiples_aff-SignedMultiples :
      (Q : J) (w : ℕ) {g : G}
      → Shows rep.rep Q g
      → 1 ≤ w
      → (T : List A) × (signed_odd_multiples_aff Q ec w ≡ ok T)
        × SignedMultiples (2 ^ w) g T
        × (length T ≡ 2 ^ w)
  unfolding signed_odd_multiples_aff odd_multiples_aff
  signed_odd_multiples_aff-SignedMultiples Q w {g} s h =
      let (T, e, es, l) = odd_multiples-OddMultiples rep.rep Q w s h in
      let (As, f, aff, la) =
        rep.to_aff_batch-Stands (λ i. nmul grp (2 * i + 1) g) T
          (move-Entries (λ i X. Times rep.rep g X (2 * i + 1))
            (λ i X. Shows rep.rep X (nmul grp (2 * i + 1) g)) T 0 0 (λ i X t. t.shows) es) in
      let (signed, ls) = mirrored As (2 ^ w) g (omega (arith, l, la)) aff in
      (map ec.negate_aff (reverse As) ++ As, rw (e, f), signed, ls)

  pub entry-Stands :
      (w : ℕ) (T : List A) (d : ℤ) (g : G)
      → 1 ≤ w
      → IsOddBelow (2 ^ w) d
      → SignedMultiples (2 ^ w) g T
      → length T ≡ 2 ^ w
      → (a : A) × (entry w T d ≡ ok a) × rep.Stands a (zmul grp d g)
  unfolding entry
  entry-Stands w T d g h b es l =
      let j = pos_part (d +ℤ pos (2 ^ w - 1)) / 2 in
      let even = power_even w h in
      let shift = pos_part_shift d (2 ^ w - 1) (omega arith) in
      let (a, e, t) =
        index-Entries (λ j a. rep.Stands a (zmul grp (pos (2 * j + 1) -ℤ pos (2 ^ w)) g)) T 0 j es
          (omega (arith, shift)) in
      (
        a,
        e,
        subst (rep.Stands a)
            (ap (λ k. zmul grp k g)
              (eq_of_parts (pos (2 * (0 + j) + 1) -ℤ pos (2 ^ w)) d (omega (int_laws, shift))))
            t,
      )
