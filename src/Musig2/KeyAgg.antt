-- ===== src/Musig2/KeyAgg.antt =====
-- ecc/musig2.py: the aggregate key and its tweaks.
use ellipticcurves.Prelude.{
  ℕ, ◌+◌, ◌-◌, ◌*◌, ◌%◌, ◌<◌, ◌≡◌, ◌≢◌, refl, sym, ap, ap₂, ◌∙◌, subst, arith, Bool, true, false,
  List, [], ◌∷◌, map, length-map, suc, Bool-cases, inl, inr, ltb, ◌==◌, not, ◌&&◌, if◌then◌else◌,
}
use ellipticcurves.Prelude.Result.{
  ok, >>=-ok, ok_inj, refuse-ok, infinite_aggregate, tweak_range, infinite_tweak,
}
use ellipticcurves.Curve.{Point}
use ellipticcurves.Group.{AbelianGroup, nmul, sum_of}
use ellipticcurves.Group.Multiple.{nmul-add, nmul-mul, nmul-one}
use ellipticcurves.Points.{tweak_add_var}
use ellipticcurves.Points.Laws.{
  finite_of_y, turn, turn-plus, nmul_rest, nmul_opposite, tweak_add_var_lem,
}
use ellipticcurves.Musig2.{
  MusigOps, KeyAggContext, is_odd, sign_of, coefficients, weighted_sum, key_agg, apply_tweak,
  apply_tweaks, key_agg_and_tweak,
}
use ellipticcurves.Musig2.Interface.{ImplementsMusig}

module _ {G Msg : Type 0} {mu : MusigOps Msg} {grp : AbelianGroup G}
    (impl : ImplementsMusig mu grp) where
  open mu use {points, ops}
  open grp use {zero_point, plus, plus_assoc, plus_zero}
  open impl.arith_lem use {point_of}
  open impl.arith_lem.base.base use {g}

  -- The aggregate key is gacc times the sum of the keys plus tacc times the generator.
  pub record IsAggregate (K : G) (ctx : KeyAggContext) : Type 0 where
    pub q : G
    pub is_Q : ctx.Q ≡ point_of q
    pub finite : q ≢ zero_point
    pub equation : q ≡ plus (nmul grp ctx.gacc K) (nmul grp ctx.tacc g)

  weighted_sum_lem :
      (coeff : Point → ℕ) (key : G) (keys : List G)
      → let pks = map point_of (key ∷ keys) in
        weighted_sum mu (map coeff pks) pks
        ≡ ok (point_of (sum_of grp (map coeff pks) (key ∷ keys)))
  unfolding sum_of
  weighted_sum_lem coeff key [] =
      ap ok (impl.arith_lem.mult_lem _ key ∙ ap point_of (sym (plus_zero (nmul grp _ key))))
  weighted_sum_lem coeff key (key' ∷ keys) =
      impl.arith_lem.multi_mult_lem _ (key ∷ key' ∷ keys)
        (ap (λ k. suc (suc k)) (length-map (map point_of keys) coeff ∙ length-map keys point_of))
        (omega arith)

  nmul_sign : (odd : Bool) (a : G) → nmul grp (if odd then ops.ec.n - 1 else 1) a ≡ turn grp odd a
  nmul_sign true a =
      nmul_opposite impl.arith_lem 1 a (omega (arith, impl.arith_lem.above_two))
      ∙ ap grp.minus (nmul-one grp a)
  nmul_sign false a = nmul-one grp a

  pub nmul-sign_of : (Q : Point) (a : G) → nmul grp (sign_of mu Q) a ≡ turn grp (is_odd mu Q) a
  nmul-sign_of Q a = elim (Bool-cases (Q.y % 2 == 1)) [
    | inl t ↦ rw (t, not_even _ t) (nmul_sign true a)
    | inr t ↦ rw (t, even _ t) (nmul-one grp a)
  ]
    where
      not_even : (y : ℕ) → (y % 2 == 1) ≡ true → (y % 2 == 0) ≡ false
      not_even y t = ground arith

      even : (y : ℕ) → (y % 2 == 1) ≡ false → (y % 2 == 0) ≡ true
      even y t = ground arith

  tweaked_point :
      (odd : Bool) (P : Point) (q : G)
      → P ≡ point_of q
      → (if (if odd then ops.ec.n - 1 else 1) == 1 then P else points.negate P)
        ≡ point_of (turn grp odd q)
  tweaked_point true P q e =
      rw (differs ops.ec.n impl.arith_lem.above_two)
        (ap points.negate e ∙ impl.arith_lem.negate_lem q)
    where
      differs : (n : ℕ) → 2 < n → (n - 1 == 1) ≡ false
      differs n h = ground arith
  tweaked_point false P q e = e

  tweak_equation :
      (odd : Bool) (gacc tacc t : ℕ) (K : G)
      → let sign = if odd then ops.ec.n - 1 else 1 in
        plus (turn grp odd (plus (nmul grp gacc K) (nmul grp tacc g))) (nmul grp t g)
        ≡ plus (nmul grp (sign * gacc % ops.ec.n) K) (nmul grp ((t + sign * tacc) % ops.ec.n) g)
  tweak_equation odd gacc tacc t K =
      let sign = if odd then ops.ec.n - 1 else 1 in
      ap (λ a. plus a (nmul grp t g)) (turn-plus grp odd (nmul grp gacc K) (nmul grp tacc g))
      ∙ plus_assoc (turn grp odd (nmul grp gacc K)) (turn grp odd (nmul grp tacc g)) (nmul grp t g)
      ∙ ap₂ plus (turned gacc K) (
          grp.plus_comm (turn grp odd (nmul grp tacc g)) (nmul grp t g)
          ∙ ap (plus (nmul grp t g))
              (sym (nmul_sign odd (nmul grp tacc g)) ∙ sym (nmul-mul grp sign tacc g))
          ∙ sym (nmul-add grp t (sign * tacc) g)
          ∙ sym (nmul_rest impl.arith_lem (t + sign * tacc) g))
    where
      turned :
          (k : ℕ) (a : G)
          → turn grp odd (nmul grp k a)
            ≡ nmul grp ((if odd then ops.ec.n - 1 else 1) * k % ops.ec.n) a
      turned k a =
          sym (nmul_sign odd (nmul grp k a))
          ∙ sym (nmul-mul grp (if odd then ops.ec.n - 1 else 1) k a)
          ∙ sym (nmul_rest impl.arith_lem _ a)

  pub apply_tweak-IsAggregate :
      (K : G) (ctx : KeyAggContext) (t : ℕ) (is_xonly : Bool) {tweaked : KeyAggContext}
      → IsAggregate K ctx
      → apply_tweak mu ctx t is_xonly ≡ ok tweaked
      → IsAggregate K tweaked
  unfolding apply_tweak
  apply_tweak-IsAggregate K ctx t is_xonly agg e =
      let odd = is_xonly && is_odd mu ctx.Q in
      let (t1, e1) = refuse-ok (not (ltb t ops.ec.n)) tweak_range _ e in
      let (t2, e2) = refuse-ok (_ == 0) infinite_tweak _ e1 in
      let moved =
        ap (λ P. tweak_add_var points P t) (tweaked_point odd ctx.Q agg.q agg.is_Q)
        ∙ tweak_add_var_lem impl.arith_lem (turn grp odd agg.q) t in
      subst (IsAggregate K) (ok_inj e2) (record {
        q = plus (turn grp odd agg.q) (nmul grp t g);
        is_Q = moved;
        finite = finite_of_y impl.arith_lem _ _ moved t2;
        equation =
            ap (λ a. plus (turn grp odd a) (nmul grp t g)) agg.equation
            ∙ tweak_equation odd ctx.gacc ctx.tacc t K;
      })

  apply_tweaks-IsAggregate :
      (K : G) (ctx : KeyAggContext) (tweaks : List (ℕ × Bool)) {tweaked : KeyAggContext}
      → IsAggregate K ctx
      → apply_tweaks mu ctx tweaks ≡ ok tweaked
      → IsAggregate K tweaked
  unfolding apply_tweaks
  apply_tweaks-IsAggregate K ctx [] agg e = subst (IsAggregate K) (ok_inj e) agg
  apply_tweaks-IsAggregate K ctx ((t, is_xonly) ∷ tweaks) agg e =
      let (ctx', e1, e2) = >>=-ok (apply_tweak mu ctx t is_xonly) _ e in
      apply_tweaks-IsAggregate K ctx' tweaks (apply_tweak-IsAggregate K ctx t is_xonly agg e1) e2

  -- The weighted sum of the keys.
  abbrev pub aggregate : List G → G
  aggregate keys = sum_of grp (coefficients mu (map point_of keys)) keys

  -- For operations on points that return what a group does whose every element n annihilates
  -- (multi_mult_var for as many scalars as points, two at least), and challenges from 1 to n
  -- - 1: the context that key_agg_and_tweak returns for at least one key and any tweaks,
  -- x-only or plain, keeps its invariant: Q is not infinity, and it is gacc times the sum of
  -- the keys, each with its coefficient, plus tacc times the generator.
  pub key_agg_and_tweak-IsAggregate :
      (key : G) (keys : List G) (tweaks : List (ℕ × Bool)) {ctx : KeyAggContext}
      → key_agg_and_tweak mu (map point_of (key ∷ keys)) tweaks ≡ ok ctx
      → IsAggregate (aggregate (key ∷ keys)) ctx
  unfolding key_agg_and_tweak key_agg
  key_agg_and_tweak-IsAggregate key keys tweaks e =
      let pks = map point_of (key ∷ keys) in
      let (ctx, e1, e2) = >>=-ok (key_agg mu pks) _ e in
      let (Q, e3, e4) = >>=-ok (weighted_sum mu (coefficients mu pks) pks) _ e1 in
      let (t, e5) = refuse-ok (Q.y == 0) infinite_aggregate _ e4 in
      let is_Q = ok_inj (sym e3 ∙ weighted_sum_lem _ key keys) in
      apply_tweaks-IsAggregate (aggregate (key ∷ keys)) ctx tweaks
        (subst (IsAggregate (aggregate (key ∷ keys))) (ok_inj e5) (record {
          q = aggregate (key ∷ keys);
          is_Q = is_Q;
          finite = finite_of_y impl.arith_lem Q _ is_Q t;
          equation =
              sym (plus_zero (aggregate (key ∷ keys)))
              ∙ ap₂ plus (sym (nmul-one grp (aggregate (key ∷ keys)))) (unfold nmul in refl);
        }))
        e2
