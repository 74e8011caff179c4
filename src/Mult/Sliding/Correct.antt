-- ===== src/Mult/Sliding/Correct.antt =====
-- The sliding window returns the multiple of the point.
use ellipticcurves.Prelude.{
  ℕ, zero, suc, ◌+◌, ◌-◌, ◌*◌, ◌^◌, ◌≤◌, ◌<◌, ◌≡◌, refl, sym, ap, ◌∙◌, false, List, [], ◌∷◌, ◌++◌,
  take, drop, take-append-drop, length-take, length-drop, length, length-append, arith, ◌==◌, ltb,
  if◌then◌else◌, Bool-cases, inl, inr,
}
use ellipticcurves.Prelude.Int.{pos}
use ellipticcurves.Prelude.Result.{ok}
use ellipticcurves.Prelude.Table.{Entries, index-Entries, Entries-append}
use ellipticcurves.Group.{PointOps, AbelianGroup, Represents}
use ellipticcurves.Group.Multiple.{nmul-mul}
use ellipticcurves.Group.Shows.{
  Shows, Shows-eq, Times, Times-eq, Times-one, Times-add, Times-double, Times-infinity,
}
use ellipticcurves.Mult.Digits.{
  convert_number_to_base_var, convert_number_to_base_var-value, convert_number_to_base_var-Below,
  horner, Below,
}
use ellipticcurves.Mult.Window.{doubles}
use ellipticcurves.Mult.Window.Correct.{Scales-doubles, w_positive}
use ellipticcurves.Recode.Regular.{pow_positive}
use ellipticcurves.Mult.Regular.{odd_multiples_loop}
use ellipticcurves.Mult.Regular.Tables.{last-Entries}
use ellipticcurves.Mult.Regular.Scalar.{horner-lt}
use ellipticcurves.Mult.Sliding.{
  sliding_window_table, double_and_add_var, sliding_loop, mult_sliding_window_var,
}

horner_shift : (v : ℕ) (xs ys : List ℕ) → horner 2 v (xs ++ ys) ≡ horner 2 (horner 2 v xs) ys
unfolding horner
horner_shift v [] ys = refl
horner_shift v (x ∷ xs) ys = horner_shift (v * 2 + x) xs ys

horner_from : (v : ℕ) (xs : List ℕ) → horner 2 v xs ≡ v * 2 ^ length xs + horner 2 0 xs
unfolding horner
horner_from v [] = omega arith
horner_from v (x ∷ xs) = grind (arith, horner_from (v * 2 + x) xs, horner_from x xs)

Below-take : (n : ℕ) (xs : List ℕ) → Below 2 xs → Below 2 (take n xs)
Below-take zero xs b = tt
Below-take (suc n) [] b = tt
Below-take (suc n) (x ∷ xs) b = (b.0, Below-take n xs b.1)

Below-drop : (n : ℕ) (xs : List ℕ) → Below 2 xs → Below 2 (drop n xs)
Below-drop zero xs b = b
Below-drop (suc n) [] b = tt
Below-drop (suc n) (x ∷ xs) b = Below-drop n xs b.1

-- The scalar that has been read once the window is added to what `suc k` doublings make of it.
window_total :
    (k v r : ℕ) (window : List ℕ)
    → length window ≡ suc k
    → horner 2 0 window ≡ 2 ^ k + r
    → 2 ^ suc k * v + (2 ^ k + (0 + (horner 2 0 window - 2 ^ k))) ≡ horner 2 v window
window_total k v r window l e = omega (arith, horner_from v window, ap (λ n. v * 2 ^ n) l, e)

module _ {J G : Type 0} {ec : PointOps J} {grp : AbelianGroup G} (rep : Represents ec grp) (Q : J)
    {g : G} (s : Shows rep Q g) where
  scaled : (w : ℕ) (X : J) (v : ℕ) → Times rep g X v → Times rep g (doubles ec w X) (2 ^ w * v)
  scaled w X v r = record {
    shows = Shows-eq rep (Scales-doubles rep w X _ r.shows) (sym (nmul-mul grp (2 ^ w) v g));
  }

  double_and_add_var-Times :
      (R : J) (v : ℕ) (ds : List ℕ)
      → Times rep g R v
      → Below 2 ds
      → Times rep g (double_and_add_var R Q ds ec) (horner 2 v ds)
  unfolding double_and_add_var horner
  double_and_add_var-Times R v [] r b = r
  double_and_add_var-Times R v (d ∷ ds) r b =
      double_and_add_var-Times (if d == 1 then ec.add (ec.double R) Q else ec.double R) (v * 2 + d)
        ds (step d b.0) b.1
    where
      step :
          (d : ℕ)
          → d < 2
          → Times rep g (if d == 1 then ec.add (ec.double R) Q else ec.double R) (v * 2 + d)
      step zero h = Times-eq rep (Times-double rep R r) (omega arith)
      step (suc zero) h =
          Times-eq rep (Times-add rep (ec.double R) Q (Times-double rep R r) (Times-one rep s))
            (omega arith)
      step (suc (suc d)) h = absurd (omega arith)

  abbrev FromMultiple : ℕ → List J → Type 0
  FromMultiple p T = Entries (λ i X. Times rep g X (p + i)) 0 T

  table_loop-FromMultiple :
      (rounds p : ℕ) (T : List J)
      → FromMultiple p T
      → 0 < length T
      → (T' : List J) × (odd_multiples_loop ec Q rounds T ≡ ok T')
        × FromMultiple p T'
        × (length T' ≡ length T + rounds)
  unfolding odd_multiples_loop
  table_loop-FromMultiple zero p T es l = (T, refl, es, omega arith)
  table_loop-FromMultiple (suc rounds) p T es l =
      let (top, at, t) = last-Entries (λ i X. Times rep g X (p + i)) T 0 es l in
      let longer = length-append T (ec.add top Q ∷ []) in
      let (T', e, es', l') =
        table_loop-FromMultiple rounds p (T ++ (ec.add top Q ∷ []))
          (Entries-append (λ i X. Times rep g X (p + i)) T 0 (ec.add top Q) es
            (Times-eq rep (Times-add rep top Q t (Times-one rep s)) (omega arith)))
          (omega (arith, longer)) in
      (T', rw at e, es', omega (arith, longer))

  sliding_window_table-FromMultiple :
      (k : ℕ)
      → (T : List J) × (sliding_window_table Q ec (suc k) ≡ ok T)
        × FromMultiple (2 ^ k) T
        × (length T ≡ 2 ^ k)
  unfolding sliding_window_table
  sliding_window_table-FromMultiple k =
      let (T, e, es, l) =
        table_loop-FromMultiple (2 ^ k - 1) (2 ^ k) (doubles ec k Q ∷ [])
          (Times-eq rep (scaled k Q 1 (Times-one rep s)) (omega arith), tt) (omega arith) in
      (T, rw one_less e, es, omega (arith, l, pow_positive k))
    where
      one_less : suc k - 1 ≡ k
      one_less = omega arith

  -- A digit that is not zero opens a window of `suc k` digits: what they stand for.
  window_value :
      (k d : ℕ) (ds : List ℕ)
      → d == 0 ≡ false
      → ltb (length (d ∷ ds)) (suc k) ≡ false
      → Below 2 (d ∷ ds)
      → (r : ℕ) × (r < 2 ^ k)
        × (horner 2 0 (take (suc k) (d ∷ ds)) ≡ 2 ^ k + r)
        × (length (take (suc k) (d ∷ ds)) ≡ suc k)
  unfolding horner
  window_value k d ds z l b =
      let len : length (take k ds) ≡ k = ground (arith, length-take k ds) in
      let one : 0 * 2 + d ≡ 1 = ground (arith, b.0) in
      (
        horner 2 0 (take k ds),
        omega (arith, horner-lt 0 (take k ds) (Below-take k ds b.1), ap (λ n. 2 ^ n) len),
        ap (λ v. horner 2 v (take k ds)) one
            ∙ horner_from 1 (take k ds)
            ∙ omega (arith, ap (λ n. 2 ^ n) len),
        ap suc len,
      )

  sliding_loop-Times :
      (k fuel : ℕ) (T : List J) (ds : List ℕ) (R : J) (v : ℕ)
      → FromMultiple (2 ^ k) T
      → length T ≡ 2 ^ k
      → length ds ≤ fuel
      → Below 2 ds
      → Times rep g R v
      → (X : J) × (sliding_loop ec Q (suc k) T fuel ds R ≡ ok X) × Times rep g X (horner 2 v ds)
  unfolding sliding_loop horner
  sliding_loop-Times k zero T [] R v es lt l b r = (R, refl, r)
  sliding_loop-Times k zero T (d ∷ ds) R v es lt l b r = absurd (omega arith)
  sliding_loop-Times k (suc fuel) T [] R v es lt l b r = (R, refl, r)
  sliding_loop-Times k (suc fuel) T (d ∷ ds) R v es lt l b r = elim (Bool-cases (d == 0)) [
    | inl z ↦
        let (X, e, x) =
          sliding_loop-Times k fuel T ds (ec.double R) (v * 2 + d) es lt (omega arith) b.1
            (Times-eq rep (Times-double rep R r) (ground arith)) in
        (X, rw z e, x)
    | inr z ↦ elim (Bool-cases (ltb (length (d ∷ ds)) (suc k))) [
      | inl short ↦ (
        double_and_add_var R Q (d ∷ ds) ec,
        rw (z, short) refl,
        double_and_add_var-Times R v (d ∷ ds) r b,
      )
      | inr long ↦
          let (i, below, value, len) = window_value k d ds z long b in
          let (x, at, t) =
            index-Entries (λ j X. Times rep g X (2 ^ k + j)) T 0
              (horner 2 0 (take (suc k) (d ∷ ds)) - 2 ^ k) es (omega (arith, value, below)) in
          let total : 2 ^ suc k * v + (2 ^ k + (0 + (horner 2 0 (take (suc k) (d ∷ ds)) - 2 ^ k)))
              ≡ horner 2 v (take (suc k) (d ∷ ds)) =
            window_total k v i (take (suc k) (d ∷ ds)) len value in
          let (X, e, y) =
            sliding_loop-Times k fuel T (drop (suc k) (d ∷ ds)) (ec.add (doubles ec (suc k) R) x)
              (horner 2 v (take (suc k) (d ∷ ds))) es lt (omega (arith, length-drop k ds))
              (Below-drop (suc k) (d ∷ ds) b)
              (Times-eq rep (Times-add rep _ x (scaled (suc k) R v r) t) total) in
          (
            X,
            rw (z, long, one_less, at) e,
            Times-eq rep y (
                sym (horner_shift v (take (suc k) (d ∷ ds)) _)
                ∙ ap (horner 2 v) (take-append-drop (suc k) (d ∷ ds))),
          )
    ]
  ]
    where
      one_less : suc k - 1 ≡ k
      one_less = omega arith

  -- For formulas that implement an abelian group, and a tuple that stands for the point g,
  -- _mult_sliding_window_var returns a tuple that stands for m * g, for every scalar m that
  -- is not negative and every window w of at least 1.
  pub mult_sliding_window_var-Times :
      (m w : ℕ)
      → 1 ≤ w
      → (X : J) × (mult_sliding_window_var (pos m) Q ec w ≡ ok X) × Times rep g X m
  unfolding mult_sliding_window_var
  mult_sliding_window_var-Times m zero h = absurd (omega arith)
  mult_sliding_window_var-Times m (suc k) h =
      let (T, e, es, l) = sliding_window_table-FromMultiple k in
      let digits = convert_number_to_base_var m 2 in
      let (X, f, x) =
        sliding_loop-Times k (length digits) T digits ec.infinity 0 es l (omega arith)
          (convert_number_to_base_var-Below m 2 (omega arith)) (Times-infinity rep g) in
      (
        X,
        rw (w_positive (suc k) h, e) f,
        Times-eq rep x (convert_number_to_base_var-value m 2 (omega arith)),
      )
