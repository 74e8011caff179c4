-- ===== src/Mult/Window/Correct.antt =====
-- The multiplications by windows return the multiple of the point, and the double multiplication
-- the sum of two multiples.
use ellipticcurves.Prelude.{
  ℕ, zero, suc, ◌+◌, ◌*◌, ◌^◌, ◌≤◌, ◌≡◌, refl, ap, sym, ◌∙◌, Bool, true, false, List, [], ◌∷◌,
  arith, length, subst, leb,
}
use native.Mathlib.Nat.{pow-le-pow_right}
use ellipticcurves.Prelude.Int.{pos}
use ellipticcurves.Prelude.Result.{ok}
use ellipticcurves.Prelude.Table.{Entries, index-Entries}
use ellipticcurves.Group.{PointOps, AbelianGroup, Represents, nmul}
use ellipticcurves.Group.Multiple.{nmul-add, nmul-mul, nmul-one, nmul-plus}
use ellipticcurves.Group.Shows.{
  Shows, Shows-eq, Shows-add, Shows-double, Times, Times-one, Times-infinity, Times-double,
}
use ellipticcurves.Mult.Digits.{
  horner, convert_number_to_base_var, convert_number_to_base_var-value, Below,
  convert_number_to_base_var-Below, convert_number_to_base_var_head,
}
use ellipticcurves.Mult.Window.{
  window_loop, window_start, triple, doubles, mult_base_3_var, mult_fixed_window_var,
}
use ellipticcurves.Mult.Window.Tables.{Multiples, multiples-Multiples, cached_multiples-Multiples}

Below-le : (a b : ℕ) (ds : List ℕ) → a ≤ b → Below a ds → Below b ds
Below-le a b [] h l = tt
Below-le a b (d ∷ ds) h l = (omega (arith, l.0), Below-le a b ds h l.1)

pub first_digit : (b d : ℕ) (ds : List ℕ) → horner b d ds ≡ horner b 0 (d ∷ ds)
unfolding horner
first_digit b d ds = ap (λ v. horner b v ds) (omega arith)

two-le-pow : (w : ℕ) → 1 ≤ w → 2 ≤ 2 ^ w
two-le-pow zero h = absurd (omega arith)
two-le-pow (suc zero) h = omega arith
two-le-pow (suc (suc w)) h = omega (arith, two-le-pow (suc w) (omega arith))

pub w_positive : (w : ℕ) → 1 ≤ w → leb w 0 ≡ false
w_positive w h = ground arith

two_powers : (w : ℕ) → 2 ^ w + 2 ^ w ≡ 2 ^ suc w
two_powers w = omega arith

module _ {J G : Type 0} {ec : PointOps J} {grp : AbelianGroup G} (rep : Represents ec grp) where
  -- The point that the loop has reached: `h` says which point a digit names.
  unfoldable pub digits_point : ℕ → (ℕ → G) → G → List ℕ → G
  digits_point b h a [] = a
  digits_point b h a (d ∷ ds) = digits_point b h (grp.plus (nmul grp b a) (h d)) ds

  abbrev pub Scales : ℕ → (J → J) → Type 0
  Scales b scale = (X : J) (a : G) → Shows rep X a → Shows rep (scale X) (nmul grp b a)

  abbrev pub Names : (ℕ → G) → List J → Type 0
  Names h T = Entries (λ j x. Shows rep x (h j)) 0 T

  module _ (b : ℕ) (scale : J → J) (h : ℕ → G) (T : List J) where
    window_loop-Shows :
        (ds : List ℕ) (R : J) (a : G)
        → Scales b scale
        → Names h T
        → Below (length T) ds
        → Shows rep R a
        → (X : J) × (window_loop ec scale T ds R ≡ ok X) × Shows rep X (digits_point b h a ds)
    unfolding window_loop digits_point
    window_loop-Shows [] R a sc es l r = (R, refl, r)
    window_loop-Shows (d ∷ ds) R a sc es l r =
        let (t, at, p) = index-Entries (λ j x. Shows rep x (h j)) T 0 d es l.0 in
        let (X, e, x) =
          window_loop-Shows ds (ec.add (scale R) t) (grp.plus (nmul grp b a) (h d)) sc es l.1
            (Shows-add rep (scale R) t (sc R a r) (Shows-eq rep p (ap h (omega arith)))) in
        (X, rw at e, x)

    pub window_start-Shows :
        (d : ℕ) (ds : List ℕ)
        → Scales b scale
        → Names h T
        → Below (length T) (d ∷ ds)
        → (X : J) × (window_start ec scale T (d ∷ ds) ≡ ok X)
          × Shows rep X (digits_point b h (h d) ds)
    unfolding window_start
    window_start-Shows d ds sc es l =
        let (t, at, p) = index-Entries (λ j x. Shows rep x (h j)) T 0 d es l.0 in
        let (X, e, x) =
          window_loop-Shows ds t (h d) sc es l.1 (Shows-eq rep p (ap h (omega arith))) in
        (X, rw at e, x)

  -- With the multiples of one point in the table, the digits name the multiple that they spell.
  digits_point-horner :
      (b v : ℕ) (ds : List ℕ) (g : G)
      → digits_point b (λ d. nmul grp d g) (nmul grp v g) ds ≡ nmul grp (horner b v ds) g
  unfolding digits_point horner
  digits_point-horner b v [] g = refl
  digits_point-horner b v (d ∷ ds) g =
      ap (λ a. digits_point b (λ k. nmul grp k g) a ds)
        (sym (
          nmul-add grp (v * b) d g
          ∙ ap (λ a. grp.plus a (nmul grp d g))
              (ap (λ k. nmul grp k g) (omega arith) ∙ nmul-mul grp b v g)))
      ∙ digits_point-horner b (v * b + d) ds g

  Multiples-Names :
      (T : List J) (k : ℕ) (g : G)
      → Entries (λ j x. Times rep g x j) k T
      → Entries (λ j x. Shows rep x (nmul grp j g)) k T
  Multiples-Names [] k g es = tt
  Multiples-Names (x ∷ T) k g es = (es.0.shows, Multiples-Names T (suc k) g es.1)

  Scales-triple : Scales 3 (triple ec)
  unfolding triple nmul
  Scales-triple X a s =
      Shows-eq rep (Shows-add rep _ X (Shows-double rep X s) s)
        (grp.plus_assoc a a a ∙ ap (λ x. grp.plus a (grp.plus a x)) (sym (grp.plus_zero a)))

  pub Scales-doubles : (w : ℕ) → Scales (2 ^ w) (doubles ec w)
  unfolding doubles
  Scales-doubles zero X a s = Shows-eq rep s (sym (nmul-one grp a))
  Scales-doubles (suc w) X a s =
      Shows-eq rep (Scales-doubles w (ec.double X) _ (Shows-double rep X s)) (
        nmul-plus grp (2 ^ w) a a
        ∙ sym (nmul-add grp (2 ^ w) (2 ^ w) a)
        ∙ ap (λ n. nmul grp n a) (two_powers w))

  -- A window multiplication with a table of `b` multiples or more, in base `b`.
  window_start-Times :
      (b m : ℕ) (scale : J → J) (T : List J) {g : G}
      → 2 ≤ b
      → Scales b scale
      → Multiples rep g T
      → b ≤ length T
      → (X : J) × (window_start ec scale T (convert_number_to_base_var m b) ≡ ok X)
        × Times rep g X m
  window_start-Times b m scale T {g} hb sc es lt =
      let (d, ds, e) = convert_number_to_base_var_head m b in
      let below : Below (length T) (d ∷ ds) =
        Below-le b (length T) (d ∷ ds) lt
          (subst (Below b) e (convert_number_to_base_var-Below m b hb)) in
      let (X, f, x) =
        window_start-Shows b scale (λ j. nmul grp j g) T d ds sc (Multiples-Names T 0 g es) below in
      (
        X,
        ap (window_start ec scale T) e ∙ f,
        record {
          shows = Shows-eq rep x (
              digits_point-horner b d ds g
              ∙ ap (λ n. nmul grp n g)
                  (first_digit b d ds
                    ∙ ap (horner b 0) (sym e)
                    ∙ convert_number_to_base_var-value m b hb));
        },
      )

  module _ (m : ℕ) (Q : J) {g : G} (s : Shows rep Q g) where
    -- Triple and add returns m * Q.
    pub mult_base_3_var-Times : (X : J) × (mult_base_3_var (pos m) Q ec ≡ ok X) × Times rep g X m
    unfolding mult_base_3_var
    mult_base_3_var-Times =
        window_start-Times 3 m (triple ec) (ec.infinity ∷ Q ∷ ec.double Q ∷ []) (omega arith)
          Scales-triple
          (Times-infinity rep g, (Times-one rep s, (Times-double rep Q (Times-one rep s), tt)))
          (omega arith)

    -- For every window w of at least 1, and at most 5 with the memoized table.
    mult_fixed_window_var-Times :
        (w : ℕ) (cached : Bool)
        → 1 ≤ w
        → (cached ≡ true → w ≤ 5)
        → (X : J) × (mult_fixed_window_var (pos m) Q ec w cached ≡ ok X) × Times rep g X m
    unfolding mult_fixed_window_var
    mult_fixed_window_var-Times w false h c =
        let (T, e, es, l) = multiples-Multiples rep Q s (2 ^ w) (two-le-pow w h) in
        let (X, f, x) =
          window_start-Times (2 ^ w) m (doubles ec w) T (two-le-pow w h) (Scales-doubles w) es
            (omega arith) in
        (X, rw (w_positive w h, e) f, x)
    mult_fixed_window_var-Times w true h c =
        let (T, e, es, l) = cached_multiples-Multiples rep Q s in
        let (X, f, x) =
          window_start-Times (2 ^ w) m (doubles ec w) T (two-le-pow w h) (Scales-doubles w) es
            (rw l (pow-le-pow_right {n = 2} (omega arith) {i = w} {j = 5} (c refl))) in
        (X, rw (w_positive w h, e) f, x)
