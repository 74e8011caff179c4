-- ===== src/Ssa/Batch/Term.antt =====
-- ecc/ssa.py: what one valid signature adds to the equation of a batch.
use native.Mathlib.Nat
use ellipticcurves.Prelude.{
  passed_lt, ℕ, ◌+◌, ◌-◌, ◌*◌, ◌%◌, ◌<◌, ◌≡◌, ◌≢◌, refl, sym, ap, ap₂, ◌∙◌, subst, arith, Bool,
  true, false, List, [], ◌∷◌, dec_lt, ltb, Bool-cases, inl, inr, not,
}
use ellipticcurves.Prelude.Modular.{mod-mul_left}
use ellipticcurves.Prelude.Result.{
  ok, refuse, >>=-ok, refuse-ok, not_an_x_coordinate, x_not_in_range, s_not_in_range, refuse_last,
}
use ellipticcurves.Curve.{JacPoint}
use ellipticcurves.Group.{AbelianGroup, nmul}
use ellipticcurves.Group.Multiple.{
  nmul-mod, nmul-add, nmul-mul, nmul-plus, nmul-zero_point, zero_plus,
}
use ellipticcurves.Ecdsa.Signing.Modular.{mod_times_one}
use ellipticcurves.Ecdsa.Signing.Verify.{inverse_found}
use ellipticcurves.Ssa.{Sig, assert_valid}
use ellipticcurves.Ssa.Verify.{nonce_point, assert_as_valid_bip340}
use ellipticcurves.Ssa.Batch.{BatchOps, in_subgroup, in_field, assert_as_valid_single}
use ellipticcurves.Ssa.Batch.Interface.{ImplementsBatch}

module _ {G Msg : Type 0} {batch : BatchOps Msg} {grp : AbelianGroup G}
    (impl : ImplementsBatch batch grp) where
  open batch use {ops, challenge}
  open grp use {zero_point, plus, plus_assoc, plus_comm, plus_zero}
  open impl.base.base use {Shows, g, x_of, y_of}

  abbrev pub Even : G → Type 0
  Even a = (a ≢ zero_point) × (y_of a % 2 ≡ 0)

  abbrev pub InRange : ℕ → Type 0
  InRange k = (0 < k) × (k < ops.ec.n)

  -- The signatures are valid one by one.
  abbrev pub EachValid : List Msg → List ℕ → List Sig → Type 0
  EachValid (msg ∷ msgs) (x_Q ∷ Qs) (sig ∷ sigs) =
      (assert_as_valid_single batch msg x_Q sig ≡ ok tt) × EachValid msgs Qs sigs
  EachValid [] [] [] = Unit
  EachValid _ _ _ = ⊥

  -- What one valid signature gives.
  pub record IsTerm (x_Q : ℕ) (sig : Sig) (c : ℕ) (K Q : G) : Type 0 where
    pub even_K : Even K
    pub even_Q : Even Q
    pub x_K : x_of K ≡ sig.r
    pub x_of_Q : x_of Q ≡ x_Q
    pub order_Q : nmul grp ops.ec.n Q ≡ zero_point
    pub equation : K ≡ plus (nmul grp (ops.ec.n - c) Q) (nmul grp sig.s g)

  -- rand * K + (rand * c) * Q = (rand * s) * G.
  pub term_sum :
      (rand c x_Q : ℕ) (sig : Sig) (K Q : G)
      → c < ops.ec.n
      → IsTerm x_Q sig c K Q
      → plus (nmul grp rand K) (nmul grp (rand * c % ops.ec.n) Q) ≡ nmul grp (rand * sig.s) g
  term_sum rand c x_Q sig K Q l t =
      ap (λ a. plus a (nmul grp (rand * c % ops.ec.n) Q))
        (ap (nmul grp rand) t.equation
          ∙ nmul-plus grp rand (nmul grp (ops.ec.n - c) Q) (nmul grp sig.s g)
          ∙ ap₂ plus (sym (nmul-mul grp rand (ops.ec.n - c) Q)) (sym (nmul-mul grp rand sig.s g)))
      ∙ plus_assoc (nmul grp (rand * (ops.ec.n - c)) Q) (nmul grp (rand * sig.s) g)
          (nmul grp (rand * c % ops.ec.n) Q)
      ∙ ap (plus (nmul grp (rand * (ops.ec.n - c)) Q))
          (plus_comm (nmul grp (rand * sig.s) g) (nmul grp (rand * c % ops.ec.n) Q))
      ∙ sym (
          plus_assoc (nmul grp (rand * (ops.ec.n - c)) Q) (nmul grp (rand * c % ops.ec.n) Q)
            (nmul grp (rand * sig.s) g))
      ∙ ap (λ a. plus a (nmul grp (rand * sig.s) g))
          (ap (plus (nmul grp (rand * (ops.ec.n - c)) Q))
              (sym (nmul-mod grp ops.ec.n (rand * c) Q t.order_Q))
            ∙ sym (nmul-add grp (rand * (ops.ec.n - c)) (rand * c) Q)
            ∙ ap (λ k. nmul grp k Q)
                (product (ops.ec.n - c)
                  ∙ ap (λ k. rand * k) {x = ops.ec.n - c + c} {y = ops.ec.n} (omega arith))
            ∙ nmul-mul grp rand ops.ec.n Q
            ∙ ap (nmul grp rand) t.order_Q
            ∙ nmul-zero_point grp rand)
      ∙ zero_plus grp (nmul grp (rand * sig.s) g)
    where
      product : (d : ℕ) → rand * d + rand * c ≡ rand * (d + c)
      product d = omega arith

  pub product-InRange : (rand c : ℕ) → InRange rand → InRange c → InRange (rand * c % ops.ec.n)
  product-InRange rand c p q = (positive, Nat.mod-lt (rand * c) n_positive)
    where
      n_positive : 0 < ops.ec.n
      n_positive = omega (arith, p.1)

      not_zero : rand * c % ops.ec.n ≡ 0 → ⊥
      not_zero z =
          let (i, e) = impl.base.base.prime rand p.0 p.1 in
          let back : c % ops.ec.n ≡ 0 % ops.ec.n =
            sym (mod_times_one ops.ec.n c (rand * i) (inverse_found rand ops.ec.n i n_positive e))
            ∙ ap (λ k. k % ops.ec.n) {x = c * (rand * i)} {y = rand * c * i} (omega arith)
            ∙ sym (mod-mul_left (rand * c) i ops.ec.n)
            ∙ ap (λ k. k * i % ops.ec.n) z
            ∙ ap (λ k. k % ops.ec.n) {x = 0 * i} {y = 0} (omega arith) in
          absurd (omega (arith, back, Nat.mod-eq_of_lt q.1, Nat.mod-eq_of_lt n_positive, q.0))

      positive : 0 < rand * c % ops.ec.n
      positive = elim (dec_lt 0 (rand * c % ops.ec.n)) [
        | yes l ↦ l
        | no l ↦ absurd (not_zero (omega arith))
      ]

  valid_x : (sig : Sig) → assert_valid ops sig ≡ ok tt → ops.is_x_coordinate sig.r ≡ true
  unfolding assert_valid
  valid_x sig e =
      let (t, e1) = refuse-ok (not (ops.is_x_coordinate sig.r)) not_an_x_coordinate _ e in
      positive _ t
    where
      positive : (t : Bool) → not t ≡ false → t ≡ true
      positive t e = ground arith

  valid_s : (sig : Sig) → assert_valid ops sig ≡ ok tt → sig.s < ops.ec.n
  unfolding assert_valid
  valid_s sig e =
      let (t, e1) = refuse-ok (not (ops.is_x_coordinate sig.r)) not_an_x_coordinate _ e in
      passed_lt sig.s ops.ec.n (refuse_last (not (ltb sig.s ops.ec.n)) s_not_in_range e1)

  -- The signature and the key of one valid signature.
  pub IsTerm-of :
      (msg : Msg) (x_Q : ℕ) (sig : Sig)
      → assert_as_valid_single batch msg x_Q sig ≡ ok tt
      → (assert_valid ops sig ≡ ok tt)
        × ((c : ℕ) × (challenge msg x_Q sig.r ≡ ok c)
            × InRange c
            × (K : G) × (Q : G) × IsTerm x_Q sig c K Q)
  unfolding assert_as_valid_single
  IsTerm-of msg x_Q sig e =
      let (u, e1, e2) = >>=-ok (assert_valid ops sig) _ e in
      let (y_Q, e3, e4) = >>=-ok (ops.y_even_in_subgroup x_Q) _ e2 in
      let (c, e5, e6) = >>=-ok (challenge msg x_Q sig.r) _ e4 in
      let (Q, even_Q, x_of_Q, s, order_Q) = impl.lifted x_Q e3 in
      let QJ : JacPoint = record { x = x_Q; y = y_Q; z = 1 } in
      let accepts =
        (assert_as_valid_bip340 impl.base c QJ sig s (impl.x_coordinate_lt sig.r (valid_x sig e1))
            (valid_s sig e1) (omega (arith, (impl.challenge_range msg x_Q sig.r e5).1))).0
          e6 in
      (
        e1,
        (
          c,
          e5,
          impl.challenge_range msg x_Q sig.r e5,
          nonce_point impl.base c Q sig,
          Q,
          record {
            even_K = (accepts.finite, accepts.even);
            even_Q = even_Q;
            x_K = accepts.same_x;
            x_of_Q = x_of_Q;
            order_Q = order_Q;
            equation = refl;
          },
        ),
      )

  pub in_subgroup_lem :
      (x_Q : ℕ) (sig : Sig) (c : ℕ) (K Q : G)
      → IsTerm x_Q sig c K Q
      → in_subgroup batch x_Q sig.r ≡ ok tt
  in_subgroup_lem x_Q sig c K Q t = elim (Bool-cases (ltb 1 ops.ec.cofactor)) [
    | inr e ↦ rw e
    | inl e ↦ rw (
      e,
      sym t.x_of_Q,
      sym t.x_K,
      impl.base.lift_in_subgroup Q t.even_Q.0,
      impl.base.lift_in_subgroup K t.even_K.0,
    )
  ]

  pub in_field_lem :
      (x_Q : ℕ) (sig : Sig) (c : ℕ) (K Q : G) → IsTerm x_Q sig c K Q → in_field batch x_Q ≡ ok tt
  in_field_lem x_Q sig c K Q t =
      reduced (subst (λ x. x < ops.ec.p) t.x_of_Q (impl.base.base.x_of_lt Q t.even_Q.0))
    where
      reduced : x_Q < ops.ec.p → refuse (not (ltb x_Q ops.ec.p)) x_not_in_range ≡ ok tt
      reduced l = ground arith
