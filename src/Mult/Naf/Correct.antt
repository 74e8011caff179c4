-- ===== src/Mult/Naf/Correct.antt =====
-- The NAF multiplication returns the multiple of the point.
use ellipticcurves.Prelude.{
  ℕ, zero, suc, ◌+◌, ◌-◌, ◌*◌, ◌/◌, ◌^◌, max, ◌≤◌, ◌<◌, ◌≡◌, inl, inr, refl, sym, ap, ◌∙◌, true,
  false, List, [], ◌∷◌, ◌++◌, arith, length, length-append, ◌==◌, if◌then◌else◌, subst, Bool-cases,
}
use ellipticcurves.Prelude.Int.{
  ℤ, pos, negsuc, neg_ℤ, ◌+ℤ◌, ◌*ℤ◌, eq_of_parts, neg_ℤ_parts, +ℤ_parts, pos_part-*ℤ, neg_part-*ℤ,
}
use ellipticcurves.Prelude.Result.{ok}
use ellipticcurves.Prelude.Table.{Entries, index-Entries, Entries-append}
use ellipticcurves.Group.{PointOps, AbelianGroup, Represents}
use ellipticcurves.Group.Shows.{
  Shows, Times, Times-one, Times-eq, Times-double, Times-ZTimes, ZTimes, ZTimes-eq, ZTimes-add,
  ZTimes-double, ZTimes-negate, ZTimes-Times, Times-infinity,
}
use ellipticcurves.Recode.{signed_value, wnaf_of_m_var}
use ellipticcurves.Recode.Regular.{IsOddBelow, pow_positive}
use ellipticcurves.Recode.Naf.{reach, NafDigits, wnaf_of_m_var-IsNaf}
use ellipticcurves.Mult.Window.Correct.{w_positive}
use ellipticcurves.Mult.Naf.{
  extend_odd, extend_negated, naf_table, add_digit, naf_rounds, mult_w_naf_var,
}

-- The number of odd multiples in the table.
abbrev odd_count : ℕ → ℕ
odd_count w = 2 ^ (max w 2 - 2)

module _ {J G : Type 0} {ec : PointOps J} {grp : AbelianGroup G} (rep : Represents ec grp) (n : ℕ)
    (g : G) where
  -- Entry i of a table of n odd multiples and their opposites.
  abbrev OddOrOpposite : ℕ → J → Type 0
  OddOrOpposite i X =
      (i < n → ZTimes rep g X (pos (2 * i + 1)))
      × (n ≤ i → ZTimes rep g X (neg_ℤ (pos (2 * (i - n) + 1))))

  extend_odd-Entries :
      (rounds i : ℕ) (Q2 : J) (T : List J)
      → Times rep g Q2 2
      → 1 ≤ i
      → length T ≡ i
      → i + rounds ≡ n
      → Entries OddOrOpposite 0 T
      → (T' : List J) × (extend_odd ec Q2 rounds i T ≡ ok T')
        × Entries OddOrOpposite 0 T'
        × (length T' ≡ n)
  unfolding extend_odd
  extend_odd-Entries zero i Q2 T q h l e es = (T, refl, es, omega arith)
  extend_odd-Entries (suc rounds) i Q2 T q h l e es =
      let (x, at, p) = index-Entries OddOrOpposite T 0 (i - 1) es (omega arith) in
      let sum : ZTimes rep g (ec.add x Q2) (pos (2 * (0 + length T) + 1)) =
        ZTimes-eq rep (ZTimes-add rep x Q2 (p.0 (omega arith)) (ZTimes-Times rep q)) (
          eq_of_parts _ (pos (2 * (0 + length T) + 1))
            (omega (arith, +ℤ_parts (pos (2 * (0 + (i - 1)) + 1)) (pos 2)))) in
      let (T', f, es', l') =
        extend_odd-Entries rounds (suc i) Q2 (T ++ (ec.add x Q2 ∷ [])) q (omega arith)
          (omega (arith, length-append T (ec.add x Q2 ∷ []))) (omega arith)
          (Entries-append OddOrOpposite T 0 (ec.add x Q2) es
            (λ b. sum, λ b. absurd (omega arith))) in
      (T', rw at f, es', l')

  extend_negated-Entries :
      (rounds j quarter : ℕ) (T : List J)
      → length T ≡ n + j
      → j + rounds ≡ n
      → Entries OddOrOpposite 0 T
      → (T' : List J) × (extend_negated ec quarter rounds (quarter + j) T ≡ ok T')
        × Entries OddOrOpposite 0 T'
        × (length T' ≡ n + n)
  unfolding extend_negated
  extend_negated-Entries zero j quarter T l e es = (T, refl, es, omega arith)
  extend_negated-Entries (suc rounds) j quarter T l e es =
      let (x, at, p) = index-Entries OddOrOpposite T 0 (quarter + j - quarter) es (omega arith) in
      let opposite : ZTimes rep g (ec.negate x) (neg_ℤ (pos (2 * (0 + length T - n) + 1))) =
        ZTimes-eq rep (ZTimes-negate rep x (p.0 (omega arith)))
          (ap (λ k. neg_ℤ (pos (2 * k + 1))) (omega arith)) in
      let (T', f, es', l') =
        extend_negated-Entries rounds (suc j) quarter (T ++ (ec.negate x ∷ []))
          (omega (arith, length-append T (ec.negate x ∷ []))) (omega arith)
          (Entries-append OddOrOpposite T 0 (ec.negate x) es
            (λ b. absurd (omega arith), λ b. opposite)) in
      (
        T',
        rw at (
            ap (λ k. extend_negated ec quarter rounds k (T ++ (ec.negate x ∷ [])))
              {x = suc (quarter + j)} {y = quarter + suc j} (omega arith)
            ∙ f),
        es',
        l',
      )

  -- What a digit that is odd and below 2 * n adds.
  add_odd_digit :
      (w : ℕ) (T : List J) (R : J) (d v : ℤ)
      → (w == 1 ≡ true → n ≡ 1)
      → (w == 1 ≡ false → 2 ^ w / 4 ≡ n)
      → IsOddBelow (2 * n) d
      → Entries OddOrOpposite 0 T
      → length T ≡ n + n
      → ZTimes rep g R v
      → (X : J) × (add_digit ec w T R d ≡ ok X) × ZTimes rep g X (v +ℤ d)
  unfolding add_digit
  add_odd_digit w T R (pos zero) v one more b es l r = absurd (omega (arith, b.odd))
  add_odd_digit w T R (pos (suc k)) v one more b es l r =
      let (x, at, p) = index-Entries OddOrOpposite T 0 (k / 2) es (omega (arith, b.bound)) in
      (
        ec.add R x,
        rw at,
        ZTimes-add rep R x r (
            ZTimes-eq rep (p.0 (omega (arith, b.bound)))
              (ap pos {x = 2 * (0 + k / 2) + 1} {y = suc k} (omega (arith, b.odd)))),
      )
  add_odd_digit w T R (negsuc k) v one more b es l r =
      let (x, at, p) = index-Entries OddOrOpposite T 0 (n + k / 2) es (omega (arith, b.bound)) in
      (
        ec.add R x,
        rw (position, at),
        ZTimes-add rep R x r (
            ZTimes-eq rep (p.1 (omega arith)) (
              eq_of_parts _ (negsuc k)
                (omega (arith, b.odd, neg_ℤ_parts (pos (2 * (0 + (n + k / 2) - n) + 1)))))),
      )
    where
      position : (if w == 1 then 1 else 2 ^ w / 4 + (k + 1) / 2) ≡ n + k / 2
      position = elim (Bool-cases (w == 1)) [
        | inl e ↦ rw e (omega (arith, one e, b.odd, b.bound))
        | inr e ↦ rw e (omega (arith, more e, b.odd))
      ]

-- The numbers of rounds that build the table.
record Counts (w : ℕ) : Type 0 where
  first : 1 + (2 ^ w / 4 - 1) ≡ odd_count w
  second : 2 ^ w / 2 - 2 ^ w / 4 ≡ odd_count w
  one : w == 1 ≡ true → odd_count w ≡ 1
  more : w == 1 ≡ false → 2 ^ w / 4 ≡ odd_count w
  reach_lem : reach w ≡ 2 * odd_count w

counts : (w : ℕ) → 1 ≤ w → Counts w
counts zero h = absurd (omega arith)
counts (suc zero) h = record {
  first = refl;
  second = refl;
  one = λ e. refl;
  more = λ e. cc;
  reach_lem = refl;
}
counts (suc (suc v)) h = record {
  first = omega (arith, count, quarter, pow_positive v);
  second = omega (arith, count, quarter);
  one = λ e. absurd (ground arith);
  more = λ e. omega (arith, count, quarter);
  reach_lem =
      ap (λ n. 2 ^ n) {x = max (suc (suc v)) 2 - 1} {y = suc v} (omega arith)
      ∙ omega (arith, count);
}
  where
    count : odd_count (suc (suc v)) ≡ 2 ^ v
    count = ap (λ n. 2 ^ n) (omega arith)

    quarter : 2 ^ suc (suc v) ≡ 4 * 2 ^ v
    quarter = omega arith

twice : (v d : ℤ) → v +ℤ v +ℤ d ≡ d +ℤ pos 2 *ℤ v
twice v d = eq_of_parts _ _ (
    omega (
      arith,
      +ℤ_parts (v +ℤ v) d,
      +ℤ_parts v v,
      +ℤ_parts d (pos 2 *ℤ v),
      pos_part-*ℤ (pos 2) v,
      neg_part-*ℤ (pos 2) v,
    ))

plus_nothing : (v : ℤ) → v +ℤ v +ℤ pos 0 ≡ v +ℤ v
plus_nothing v = eq_of_parts _ _ (omega (arith, +ℤ_parts (v +ℤ v) (pos 0)))

module _ {J G : Type 0} {ec : PointOps J} {grp : AbelianGroup G} (rep : Represents ec grp) where
  -- The table for a width of at least 1.
  naf_table-Entries :
      (Q : J) (w : ℕ) {g : G}
      → Shows rep Q g
      → 1 ≤ w
      → (T : List J) × (naf_table Q ec w ≡ ok T)
        × Entries (OddOrOpposite rep (odd_count w) g) 0 T
        × (length T ≡ odd_count w + odd_count w)
  unfolding naf_table
  naf_table-Entries Q w {g} s h =
      let c = counts w h in
      let one : ZTimes rep g Q (pos (2 * 0 + 1)) =
        ZTimes-Times rep (Times-eq rep (Times-one rep s) (omega arith)) in
      let (T, e, es, l) =
        extend_odd-Entries rep (odd_count w) g (2 ^ w / 4 - 1) 1 (ec.double Q) (Q ∷ [])
          (Times-double rep Q (Times-one rep s)) (omega arith) refl c.first
          ((λ b. one, λ b. absurd (omega (arith, c.first))), tt) in
      let (T', f, es', l') =
        extend_negated-Entries rep (odd_count w) g (2 ^ w / 2 - 2 ^ w / 4) 0 (2 ^ w / 4) T
          (omega arith) (omega (arith, c.second)) es in
      (
        T',
        rw e (
            ap (λ i. extend_negated ec (2 ^ w / 4) (2 ^ w / 2 - 2 ^ w / 4) i T) {x = 2 ^ w / 4}
              {y = 2 ^ w / 4 + 0} (omega arith)
            ∙ f),
        es',
        l',
      )

  naf_rounds-ZTimes :
      (w : ℕ) (T : List J) (ds : List ℤ) (g : G)
      → 1 ≤ w
      → NafDigits w ds
      → Entries (OddOrOpposite rep (odd_count w) g) 0 T
      → length T ≡ odd_count w + odd_count w
      → (X : J) × (naf_rounds ec w T ds ≡ ok X) × ZTimes rep g X (signed_value 1 ds)
  unfolding naf_rounds signed_value
  naf_rounds-ZTimes w T [] g h b es l = (ec.infinity, refl, ZTimes-Times rep (Times-infinity rep g))
  naf_rounds-ZTimes w T (d ∷ ds) g h (inl z, b) es l =
      let (R, e, r) = naf_rounds-ZTimes w T ds g h b es l in
      (
        ec.double R,
        rw (e, z) refl,
        ZTimes-eq rep (ZTimes-double rep R r) (
            sym (plus_nothing (signed_value 1 ds))
            ∙ twice (signed_value 1 ds) (pos 0)
            ∙ ap (λ k. k +ℤ pos 2 *ℤ signed_value 1 ds) (sym z)),
      )
  naf_rounds-ZTimes w T (d ∷ ds) g h (inr o, b) es l =
      let (R, e, r) = naf_rounds-ZTimes w T ds g h b es l in
      let c = counts w h in
      let (X, f, x) =
        add_odd_digit rep (odd_count w) g w T (ec.double R) d
          (signed_value 1 ds +ℤ signed_value 1 ds) c.one c.more
          (subst (λ n. IsOddBelow n d) c.reach_lem o) es l (ZTimes-double rep R r) in
      (X, rw e f, ZTimes-eq rep x (twice (signed_value 1 ds) d))

  -- For formulas that implement an abelian group, and a tuple that stands for the point g,
  -- _mult_w_NAF_var returns a tuple that stands for m * g, for every scalar m that is not
  -- negative and every width w of at least 1.
  pub mult_w_naf_var-Times :
      (m : ℕ) (Q : J) (w : ℕ) {g : G}
      → Shows rep Q g
      → 1 ≤ w
      → (X : J) × (mult_w_naf_var (pos m) Q ec w ≡ ok X) × Times rep g X m
  unfolding mult_w_naf_var
  mult_w_naf_var-Times m Q w {g} s h =
      let (T, e, es, l) = naf_table-Entries Q w s h in
      let naf = wnaf_of_m_var-IsNaf m w h in
      let (X, f, x) = naf_rounds-ZTimes w T (wnaf_of_m_var m w) g h naf.odd_or_zero es l in
      (X, rw (w_positive w h, e) f, Times-ZTimes rep (ZTimes-eq rep x naf.value))
