-- ===== src/Mult/Window/Tables.antt =====
-- The tables of multiples hold at each position the multiple that the position says.
use ellipticcurves.Prelude.{
  ℕ, zero, suc, ◌+◌, ◌-◌, ◌*◌, ◌/◌, ◌%◌, ◌≤◌, ◌≡◌, refl, false, List, [], ◌∷◌, ◌++◌, arith, length,
  length-append, Bool-cases, inl, inr, ◌==◌, ltb,
}
use ellipticcurves.Prelude.Result.{ok}
use ellipticcurves.Prelude.Table.{Entries, index-Entries, Entries-append}
use ellipticcurves.Group.{PointOps, AbelianGroup, Represents}
use ellipticcurves.Group.Shows.{
  Shows, Times, Times-eq, Times-one, Times-infinity, Times-add, Times-double,
}
use ellipticcurves.Mult.Window.{last, multiples_loop, multiples_end, multiples, cached_multiples}

pub last-append : {J : Type 0} (xs : List J) (y : J) → last (xs ++ (y ∷ [])) ≡ ok y
unfolding last
last-append [] y = refl
last-append (x ∷ []) y = refl
last-append (x ∷ z ∷ xs) y = last-append (z ∷ xs) y

module _ {J G : Type 0} {ec : PointOps J} {grp : AbelianGroup G} (rep : Represents ec grp) where
  -- Entry `j` of the table is j * g.
  abbrev pub Multiples : G → List J → Type 0
  Multiples g T = Entries (λ j x. Times rep g x j) 0 T

  module _ (Q : J) {g : G} (s : Shows rep Q g) where
    append_entry :
        (T : List J) (x : J) (n : ℕ)
        → Multiples g T
        → length T ≡ n
        → Times rep g x n
        → Multiples g (T ++ (x ∷ [])) × (length (T ++ (x ∷ [])) ≡ n + 1)
    append_entry T x n es l t = (
      Entries-append (λ j y. Times rep g y j) T 0 x es (Times-eq rep t (omega arith)),
      omega (arith, length-append T (x ∷ [])),
    )

    multiples_loop-Multiples :
        (rounds r i : ℕ) (T : List J)
        → i ≡ 2 * r + 1
        → 1 ≤ r
        → Multiples g T
        → length T ≡ 2 * r
        → (T' : List J) × (multiples_loop ec Q rounds i T ≡ ok T')
          × Multiples g T'
          × (length T' ≡ 2 * r + 2 * rounds)
    unfolding multiples_loop
    multiples_loop-Multiples zero r i T e h es l = (T, refl, es, omega arith)
    multiples_loop-Multiples (suc rounds) r i T e h es l =
        let (half, at, t) =
          index-Entries (λ j x. Times rep g x j) T 0 ((i - 1) / 2) es (omega arith) in
        let d =
          append_entry T (ec.double half) (2 * r) es l
            (Times-eq rep (Times-double rep half t) (omega arith)) in
        let T' = T ++ (ec.double half ∷ []) in
        let top = ec.add (ec.double half) Q in
        let a = append_entry T' top (2 * r + 1) d.0 d.1 (
          Times-eq rep
            (Times-add rep (ec.double half) Q (Times-double rep half t) (Times-one rep s))
            (omega arith)) in
        let (T2, e2, es2, l2) =
          multiples_loop-Multiples rounds (r + 1) (i + 2) (T' ++ (top ∷ [])) (omega arith)
            (omega arith) a.0 (omega (arith, a.1)) in
        (T2, rw (at, last-append T (ec.double half)) e2, es2, omega arith)

    start_entries : Multiples g (ec.infinity ∷ Q ∷ [])
    start_entries = (Times-infinity rep g, (Times-one rep s, tt))

    multiples_end-Multiples :
        (size r : ℕ) (T : List J)
        → 2 ≤ size
        → 2 * (size / 2) ≡ r
        → Multiples g T
        → length T ≡ r
        → (T' : List J) × (multiples_end ec size T ≡ ok T') × Multiples g T' × (length T' ≡ size)
    unfolding multiples_end
    multiples_end-Multiples size r T h e es l = elim (Bool-cases (size % 2 == 1)) [
      | inl odd ↦
          let (half, at, t) =
            index-Entries (λ j x. Times rep g x j) T 0 ((size - 1) / 2) es (ground arith) in
          let d =
            append_entry T (ec.double half) r es l
              (Times-eq rep (Times-double rep half t) (ground arith)) in
          (T ++ (ec.double half ∷ []), rw (odd, at), d.0, ground (arith, d.1))
      | inr even ↦ (T, rw even, es, ground arith)
    ]

    -- For a size of at least 2, the table has that many entries and entry j is j * g.
    pub multiples-Multiples :
        (size : ℕ)
        → 2 ≤ size
        → (T : List J) × (multiples Q size ec ≡ ok T) × Multiples g T × (length T ≡ size)
    unfolding multiples
    multiples-Multiples size h =
        let (T, e, es, l) =
          multiples_loop-Multiples (size / 2 - 1) 1 3 (ec.infinity ∷ Q ∷ []) refl (omega arith)
            start_entries refl in
        let (T', e', es', l') =
          multiples_end-Multiples size (2 * (size / 2)) T h refl es (omega arith) in
        (T', rw (not_small, e) e', es', l')
      where
        not_small : ltb size 2 ≡ false
        not_small = ground arith

    pub cached_multiples-Multiples :
        (T : List J) × (cached_multiples Q ec ≡ ok T) × Multiples g T × (length T ≡ 32)
    unfolding cached_multiples
    cached_multiples-Multiples =
        multiples_loop-Multiples 15 1 3 (ec.infinity ∷ Q ∷ []) refl (omega arith) start_entries refl
