-- ===== src/Musig2/Signers.antt =====
-- ecc/musig2.py: a session of signers, whose keys and nonces are multiples of the generator.
use ellipticcurves.Prelude.{
  ℕ, ◌<◌, ◌≡◌, ◌≢◌, refl, sym, ap, ap₂, ◌∙◌, subst, Bool, false, Option, List, [], ◌∷◌, map, ◌==◌,
  if◌then◌else◌,
}
use ellipticcurves.Prelude.Result.{ok, >>=-ok, ok_inj}
use ellipticcurves.Curve.{Point}
use ellipticcurves.Group.{AbelianGroup, nmul, sum_of}
use ellipticcurves.Points.{sum_var}
use ellipticcurves.Points.Laws.{finite_of_y, turn, total, sum_var_lem}
use ellipticcurves.Musig2.{
  MusigOps, Session, SessionValues, KeyAggContext, Nonces, is_odd, key_agg_coeff, second_pub_key,
  key_agg_and_tweak, public_nonce, nonce_agg, with_adaptor, session_values, agg_s,
}
use ellipticcurves.Musig2.Interface.{ImplementsMusig}
use ellipticcurves.Musig2.KeyAgg.{aggregate, key_agg_and_tweak-IsAggregate}
use ellipticcurves.Musig2.Partial.{multiple_of_gen}
use ellipticcurves.Musig2.Shares.{Signer, EachSigned, key_of, nonce_1, nonce_2, agg_s_lem}

-- A session of these signers: their keys and the aggregate of their nonces.
abbrev pub session_of :
    {Msg : Type 0}
    → MusigOps Msg
    → Signer
    → List Signer
    → List (ℕ × Bool)
    → Msg
    → Option Point
    → Session Msg
session_of mu signer signers tweaks msg adaptor = record {
  agg_nonce = nonce_agg mu (map (λ (s : Signer). public_nonce mu s.nonce) (signer ∷ signers));
  pub_keys = map (λ (s : Signer). mu.points.mult s.d mu.points.gen) (signer ∷ signers);
  tweaks = tweaks;
  msg = msg;
  adaptor = adaptor;
}

module _ {G Msg : Type 0} {mu : MusigOps Msg} {grp : AbelianGroup G}
    (impl : ImplementsMusig mu grp) where
  open mu use {points, ops}
  open grp use {zero_point, plus}
  open impl.arith_lem use {point_of}
  open impl.arith_lem.base.base use {g}

  of_points :
      (f : Signer → Point) (h : Signer → G)
      → ((s : Signer) → f s ≡ point_of (h s))
      → (signers : List Signer) → map f signers ≡ map point_of (map h signers)
  of_points f h e [] = refl
  of_points f h e (signer ∷ signers) = ap₂ (λ x xs. x ∷ xs) (e signer) (of_points f h e signers)

  keys_are :
      (signers : List Signer)
      → map (λ (s : Signer). points.mult s.d points.gen) signers
        ≡ map point_of (map (key_of impl) signers)
  keys_are =
      of_points (λ (s : Signer). points.mult s.d points.gen) (key_of impl)
        (λ s. multiple_of_gen impl s.d)

  map-map :
      {A B C : Type 0} (f : A → B) (h : B → C) (xs : List A)
      → map h (map f xs) ≡ map (λ x. h (f x)) xs
  map-map f h [] = refl
  map-map f h (x ∷ xs) = ap (λ ys. h (f x) ∷ ys) (map-map f h xs)

  nonces_are :
      (signers : List Signer)
      → nonce_agg mu (map (λ (s : Signer). public_nonce mu s.nonce) signers) ≡ record {
        R_1 = point_of (total grp (map (nonce_1 impl) signers));
        R_2 = point_of (total grp (map (nonce_2 impl) signers));
      }
  unfolding nonce_agg
  nonces_are signers =
      ap₂ (λ P Q. record { R_1 = P; R_2 = Q })
        (ap (sum_var points) (
            map-map _ _ signers
            ∙ of_points _ (nonce_1 impl) (λ s. multiple_of_gen impl s.nonce.k_1) signers)
          ∙ sum_var_lem impl.arith_lem _)
        (ap (sum_var points) (
            map-map _ _ signers
            ∙ of_points _ (nonce_2 impl) (λ s. multiple_of_gen impl s.nonce.k_2) signers)
          ∙ sum_var_lem impl.arith_lem _)

  -- The parts of the values of a session.
  pub record Derived (session : Session Msg) (values : SessionValues) : Type 0 where
    pub ctx : KeyAggContext
    pub aggregated : key_agg_and_tweak mu session.pub_keys session.tweaks ≡ ok ctx
    pub same_ctx : record { Q = values.Q; gacc = values.gacc; tacc = values.tacc } ≡ ctx
    pub same_second : values.second ≡ second_pub_key session.pub_keys
    pub same_R :
        let sum =
          points.add
            (with_adaptor mu session.adaptor session.agg_nonce.R_1)
            (points.mult values.b session.agg_nonce.R_2) in
        values.R ≡ (if sum.y == 0 then points.gen else sum)
    pub challenged : mu.challenge session.msg values.Q.x values.R.x ≡ ok values.e

  pub session_values-Derived :
      (session : Session Msg) {values : SessionValues}
      → session_values mu session ≡ ok values
      → Derived session values
  unfolding session_values
  session_values-Derived session e =
      let (ctx, e1, e2) = >>=-ok (key_agg_and_tweak mu session.pub_keys session.tweaks) _ e in
      let (c, e3, e4) = >>=-ok (mu.challenge session.msg ctx.Q.x _) _ e2 in
      subst (Derived session) (ok_inj e4) (record {
        ctx = ctx;
        aggregated = e1;
        same_ctx = refl;
        same_second = refl;
        same_R = refl;
        challenged = e3;
      })

  abbrev pub nonce_total : ℕ → List Signer → G
  nonce_total b signers =
      plus (total grp (map (nonce_1 impl) signers))
        (nmul grp b (total grp (map (nonce_2 impl) signers)))

  -- What the values and the sum of the partial signatures are, for the adaptor tau.
  pub record Assembled (session : Session Msg) (values : SessionValues) (signers : List Signer)
      (psigs : List ℕ) (tau : G) : Type 0 where
    pub q : G
    pub is_Q : values.Q ≡ point_of q
    pub finite_q : q ≢ zero_point
    pub is_R : values.R ≡ point_of (plus (nonce_total values.b signers) tau)
    pub finite_r : plus (nonce_total values.b signers) tau ≢ zero_point
    pub challenged : mu.challenge session.msg values.Q.x values.R.x ≡ ok values.e
    pub s : ℕ
    pub summed : agg_s mu psigs session ≡ ok (record { r = values.R.x; s = s })
    pub bound : s < ops.ec.n
    pub equation :
        nmul grp s g
        ≡ plus
            (turn grp (is_odd mu values.R) (nonce_total values.b signers))
            (nmul grp values.e (turn grp (is_odd mu values.Q) q))

  -- The point that the nonces add up to, before the generator may take its place.
  abbrev pub nonce_sum : Session Msg → SessionValues → Point
  nonce_sum session values =
      points.add (with_adaptor mu session.adaptor session.agg_nonce.R_1)
        (points.mult values.b session.agg_nonce.R_2)

  nonce_sum_lem :
      (signer : Signer) (signers : List Signer) (tweaks : List (ℕ × Bool)) (msg : Msg)
      (adaptor : Option Point) (values : SessionValues) (tau : G)
      → ((a : G) → with_adaptor mu adaptor (point_of a) ≡ point_of (plus a tau))
      → nonce_sum (session_of mu signer signers tweaks msg adaptor) values
        ≡ point_of (plus (nonce_total values.b (signer ∷ signers)) tau)
  nonce_sum_lem signer signers tweaks msg adaptor values tau h =
      let N_1 = total grp (map (nonce_1 impl) (signer ∷ signers)) in
      let N_2 = total grp (map (nonce_2 impl) (signer ∷ signers)) in
      ap
        (λ (nonce : Nonces).
          points.add (with_adaptor mu adaptor nonce.R_1) (points.mult values.b nonce.R_2))
        (nonces_are (signer ∷ signers))
      ∙ ap₂ points.add (h N_1) (impl.arith_lem.mult_lem values.b N_2)
      ∙ impl.arith_lem.add_lem (plus N_1 tau) (nmul grp values.b N_2)
      ∙ ap point_of (
          grp.plus_assoc N_1 tau (nmul grp values.b N_2)
          ∙ ap (plus N_1) (grp.plus_comm tau (nmul grp values.b N_2))
          ∙ sym (grp.plus_assoc N_1 (nmul grp values.b N_2) tau))

  own_sum :
      (signers : List Signer) (pks : List Point) (second : Option Point)
      → pks ≡ map point_of (map (key_of impl) signers)
      → second ≡ second_pub_key pks
      → aggregate impl (map (key_of impl) signers)
        ≡ sum_of grp
            (map (λ a. key_agg_coeff mu pks second (point_of a)) (map (key_of impl) signers))
            (map (key_of impl) signers)
  own_sum signers pks second e f =
      let keys = map (key_of impl) signers in
      ap (λ ks. sum_of grp ks keys)
        (map-map point_of
            (key_agg_coeff mu (map point_of keys) (second_pub_key (map point_of keys))) keys
          ∙ ap (λ ps. map (λ a. key_agg_coeff mu ps (second_pub_key ps) (point_of a)) keys) (sym e)
          ∙ ap (λ o. map (λ a. key_agg_coeff mu pks o (point_of a)) keys) (sym f))

  pub session-Assembled :
      (signer : Signer) (signers : List Signer) (tweaks : List (ℕ × Bool)) (msg : Msg)
      (adaptor : Option Point) (psigs : List ℕ) (tau : G) {values : SessionValues}
      → ((a : G) → with_adaptor mu adaptor (point_of a) ≡ point_of (plus a tau))
      → session_values mu (session_of mu signer signers tweaks msg adaptor) ≡ ok values
      → EachSigned mu (session_of mu signer signers tweaks msg adaptor) (signer ∷ signers) psigs
      → ((nonce_sum (session_of mu signer signers tweaks msg adaptor) values).y == 0) ≡ false
      → Assembled
          (session_of mu signer signers tweaks msg adaptor)
          values
          (signer ∷ signers)
          psigs
          tau
  session-Assembled signer signers tweaks msg adaptor psigs tau {values} h f signed t =
      let session = session_of mu signer signers tweaks msg adaptor in
      let all = signer ∷ signers in
      let d = session_values-Derived session f in
      let agg =
        key_agg_and_tweak-IsAggregate impl (key_of impl signer) (map (key_of impl) signers) tweaks
          (ap (λ pks. key_agg_and_tweak mu pks tweaks) (sym (keys_are all)) ∙ d.aggregated) in
      let at = nonce_sum_lem signer signers tweaks msg adaptor values tau h in
      let (s, summed, bound, equation) =
        agg_s_lem impl session values all psigs (aggregate impl (map (key_of impl) all)) f signed
          (own_sum all session.pub_keys values.second (keys_are all) d.same_second) in
      record {
        q = agg.q;
        is_Q = ap (λ (c : KeyAggContext). c.Q) d.same_ctx ∙ agg.is_Q;
        finite_q = agg.finite;
        is_R = d.same_R ∙ ap (λ b. if b then points.gen else nonce_sum session values) t ∙ at;
        finite_r = finite_of_y impl.arith_lem (nonce_sum session values) _ at t;
        challenged = d.challenged;
        s = s;
        summed = summed;
        bound = bound;
        equation =
            equation
            ∙ ap
                (λ a.
                  plus (turn grp (is_odd mu values.R) (nonce_total values.b all))
                    (nmul grp values.e (turn grp (is_odd mu values.Q) a)))
                (ap
                    (λ (c : KeyAggContext).
                      plus (nmul grp c.gacc (aggregate impl (map (key_of impl) all)))
                        (nmul grp c.tacc g))
                    d.same_ctx
                  ∙ sym agg.equation);
      }
