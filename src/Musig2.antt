-- ===== src/Musig2.antt =====
-- ecc/musig2.py: the aggregation of keys, the session, the partial signatures and the adaptors, on
-- points and scalars; the octets of the keys and of the nonces are read.
pub mod Interface
pub mod KeyAgg
pub mod Nonce
pub mod Partial
pub mod Shares
pub mod Signers
pub mod Correct
pub mod Adaptor
use ellipticcurves.Prelude.{
  ℕ, ◌+◌, ◌-◌, ◌*◌, ◌%◌, Bool, true, false, Option, none, some, List, [], ◌∷◌, map, ltb, ◌==◌, not,
  ◌&&◌, ◌||◌, if◌then◌else◌,
}
use ellipticcurves.Prelude.Int.{pos, ◌-ℤ◌, neg_ℤ, mod_ℤ}
use ellipticcurves.Prelude.Result.{
  Result, ok, err, refuse, ◌>>=◌, ◌>>◌, infinite_aggregate, tweak_range, infinite_tweak,
  foreign_key, first_nonce_range, second_nonce_range, prv_key_range, other_pub_key, psig_range,
  has_adaptor, no_adaptor,
}
use ellipticcurves.Curve.{Point}
use ellipticcurves.Points.{PointArith, same_point, sum_var, tweak_add_var}
use ellipticcurves.Ssa.{SsaOps, Sig, assert_valid}

-- `key_agg_hash L pk` and `nonce_coeff_hash R_1 R_2 x_Q msg` are the integers of the tagged hashes,
-- and `challenge msg x_Q x_K` is `ssa.challenge_`.
pub record MusigOps (Msg : Type 0) : Type 0 where
  pub points : PointArith
  pub ops : SsaOps
  pub key_agg_hash : List Point → Point → ℕ
  pub nonce_coeff_hash : Point → Point → ℕ → Msg → ℕ
  pub challenge : Msg → ℕ → ℕ → Result ℕ

pub record KeyAggContext : Type 0 where
  pub Q : Point
  pub gacc : ℕ
  pub tacc : ℕ

pub record Nonces : Type 0 where
  pub R_1 : Point
  pub R_2 : Point

pub record Session (Msg : Type 0) : Type 0 where
  pub agg_nonce : Nonces
  pub pub_keys : List Point
  pub tweaks : List (ℕ × Bool)
  pub msg : Msg
  pub adaptor : Option Point

-- `L` is the list of the keys, and `second` is none for 33 zero bytes.
pub record SessionValues : Type 0 where
  pub Q : Point
  pub gacc : ℕ
  pub tacc : ℕ
  pub b : ℕ
  pub R : Point
  pub e : ℕ
  pub second : Option Point

pub record SecNonce : Type 0 where
  pub k_1 : ℕ
  pub k_2 : ℕ
  pub pub_key : Point

pub record PreSignature : Type 0 where
  pub r : ℕ
  pub s : ℕ

unfoldable pub other_than : Point → List Point → Option Point
other_than first [] = none
other_than first (pk ∷ pks) = if not (same_point pk first) then some pk else other_than first pks

unfoldable pub second_pub_key : List Point → Option Point
unfolding other_than
second_pub_key [] = none
second_pub_key (first ∷ pks) = other_than first pks

unfoldable pub is_member : Point → List Point → Bool
is_member pk [] = false
is_member pk (P ∷ pks) = same_point pk P || is_member pk pks

abbrev pub is_second : Option Point → Point → Bool
is_second none pk = false
is_second (some second) pk = same_point pk second

module _ {Msg : Type 0} (mu : MusigOps Msg) where
  open mu use {points, ops}

  unfoldable pub key_agg_coeff : List Point → Option Point → Point → ℕ
  key_agg_coeff L second pk = if is_second second pk then 1 else mu.key_agg_hash L pk % ops.ec.n

  abbrev pub coefficients : List Point → List ℕ
  coefficients pks = map (key_agg_coeff pks (second_pub_key pks)) pks

  abbrev pub weighted_sum : List ℕ → List Point → Result Point
  weighted_sum (a ∷ []) (P ∷ []) = ok (points.mult a P)
  weighted_sum as_ Ps = points.multi_mult as_ Ps

  unfoldable pub key_agg : List Point → Result KeyAggContext
  unfolding key_agg_coeff second_pub_key
  key_agg pks = do
    Q ← weighted_sum (coefficients pks) pks
    refuse (Q.y == 0) infinite_aggregate
    ok (record { Q = Q; gacc = 1; tacc = 0 })

  unfoldable pub apply_tweak : KeyAggContext → ℕ → Bool → Result KeyAggContext
  unfolding tweak_add_var
  apply_tweak ctx t is_xonly = do
    let g = if is_xonly && ctx.Q.y % 2 == 1 then ops.ec.n - 1 else 1
    refuse (not (ltb t ops.ec.n)) tweak_range
    let Q = tweak_add_var points (if g == 1 then ctx.Q else points.negate ctx.Q) t
    refuse (Q.y == 0) infinite_tweak
    ok (record { Q = Q; gacc = g * ctx.gacc % ops.ec.n; tacc = (t + g * ctx.tacc) % ops.ec.n })

  unfoldable pub apply_tweaks : KeyAggContext → List (ℕ × Bool) → Result KeyAggContext
  unfolding apply_tweak
  apply_tweaks ctx [] = ok ctx
  apply_tweaks ctx ((t, is_xonly) ∷ tweaks) =
      apply_tweak ctx t is_xonly >>= λ tweaked. apply_tweaks tweaked tweaks

  unfoldable pub key_agg_and_tweak : List Point → List (ℕ × Bool) → Result KeyAggContext
  unfolding key_agg apply_tweaks
  key_agg_and_tweak pks tweaks = key_agg pks >>= λ ctx. apply_tweaks ctx tweaks

  -- The nonces that a signer publishes.
  abbrev pub public_nonce : SecNonce → Nonces
  public_nonce nonce = record {
    R_1 = points.mult nonce.k_1 points.gen;
    R_2 = points.mult nonce.k_2 points.gen;
  }

  unfoldable pub nonce_agg : List Nonces → Nonces
  unfolding sum_var
  nonce_agg pub_nonces = record {
    R_1 = sum_var points (map (λ (nonce : Nonces). nonce.R_1) pub_nonces);
    R_2 = sum_var points (map (λ (nonce : Nonces). nonce.R_2) pub_nonces);
  }

  abbrev pub with_adaptor : Option Point → Point → Point
  with_adaptor none R_1 = R_1
  with_adaptor (some T) R_1 = points.add R_1 T

  unfoldable pub session_values : Session Msg → Result SessionValues
  unfolding key_agg_and_tweak second_pub_key
  session_values session = do
    ctx ← key_agg_and_tweak session.pub_keys session.tweaks
    let R_1 = with_adaptor session.adaptor session.agg_nonce.R_1
    let b = mu.nonce_coeff_hash R_1 session.agg_nonce.R_2 ctx.Q.x session.msg % ops.ec.n
    let sum = points.add R_1 (points.mult b session.agg_nonce.R_2)
    let R = if sum.y == 0 then points.gen else sum
    e ← mu.challenge session.msg ctx.Q.x R.x
    ok (record {
      Q = ctx.Q;
      gacc = ctx.gacc;
      tacc = ctx.tacc;
      b = b;
      R = R;
      e = e;
      second = second_pub_key session.pub_keys;
    })

  unfoldable pub session_key_agg_coeff : SessionValues → Session Msg → Point → Result ℕ
  unfolding key_agg_coeff is_member
  session_key_agg_coeff values session pk = do
    refuse (not (is_member pk session.pub_keys)) foreign_key
    ok (key_agg_coeff session.pub_keys values.second pk)

  -- `(x, n - x)[odd]`
  abbrev pub turn_scalar : Bool → ℕ → ℕ
  turn_scalar odd k = if odd then ops.ec.n - k else k

  abbrev pub is_odd : Point → Bool
  is_odd P = P.y % 2 == 1

  -- `g`
  abbrev pub sign_of : Point → ℕ
  sign_of Q = if Q.y % 2 == 0 then 1 else ops.ec.n - 1

  -- What `sign` does once the session is assembled.
  unfoldable pub sign_values : SessionValues → SecNonce → ℕ → Session Msg → Result ℕ
  unfolding session_key_agg_coeff
  sign_values values nonce d session = do
    refuse (not (ltb 0 nonce.k_1 && ltb nonce.k_1 ops.ec.n)) first_nonce_range
    refuse (not (ltb 0 nonce.k_2 && ltb nonce.k_2 ops.ec.n)) second_nonce_range
    let k_1 = turn_scalar (is_odd values.R) nonce.k_1
    let k_2 = turn_scalar (is_odd values.R) nonce.k_2
    refuse (not (ltb 0 d && ltb d ops.ec.n)) prv_key_range
    let pk = points.mult d points.gen
    refuse (not (same_point pk nonce.pub_key)) other_pub_key
    a ← session_key_agg_coeff values session pk
    let d_ = sign_of values.Q * values.gacc * d % ops.ec.n
    ok ((k_1 + values.b * k_2 + values.e * a * d_) % ops.ec.n)

  -- The partial signature, and what is left of the nonce.
  unfoldable pub sign : SecNonce → ℕ → Session Msg → Result ℕ × SecNonce
  unfolding session_values sign_values
  sign nonce d session = elim (session_values session) [
    | err raised ↦ (err raised, nonce)
    | ok values ↦ (sign_values values nonce d session, record nonce { k_1 = 0; k_2 = 0 })
  ]

  -- The equation of one signer.
  unfoldable pub holds_for : SessionValues → ℕ → Nonces → Point → Session Msg → Result Bool
  unfolding session_key_agg_coeff
  holds_for values s pub_nonce P session = do
    let sum = points.add pub_nonce.R_1 (points.mult values.b pub_nonce.R_2)
    let R_s = if is_odd values.R then points.negate sum else sum
    a ← session_key_agg_coeff values session P
    let g = sign_of values.Q * values.gacc % ops.ec.n
    let rhs = points.add R_s (points.mult (values.e * a * g % ops.ec.n) P)
    ok (same_point (points.mult s points.gen) rhs)

  -- The arm in Python.
  unfoldable pub partial_sig_verify : ℕ → Nonces → Point → Session Msg → Result Bool
  unfolding session_values holds_for
  partial_sig_verify s pub_nonce P session = do
    values ← session_values session
    (if ltb s ops.ec.n then holds_for values s pub_nonce P session else ok false)

  -- The loop over the partial signatures.
  unfoldable pub add_psigs : ℕ → List ℕ → Result ℕ
  add_psigs s [] = ok s
  add_psigs s (s_i ∷ psigs) =
      refuse (not (ltb s_i ops.ec.n)) psig_range >> add_psigs ((s + s_i) % ops.ec.n) psigs

  unfoldable pub agg_s : List ℕ → Session Msg → Result PreSignature
  unfolding session_values add_psigs
  agg_s psigs session = do
    values ← session_values session
    s ← add_psigs 0 psigs
    ok (record { r = values.R.x; s = (s + values.e * sign_of values.Q * values.tacc) % ops.ec.n })

  abbrev pub checked_sig : Sig → Result Sig
  checked_sig sig = assert_valid ops sig >> ok sig

  unfoldable pub partial_sig_agg : List ℕ → Session Msg → Result Sig
  unfolding agg_s assert_valid
  partial_sig_agg psigs session = elim session.adaptor [
    | some T ↦ err has_adaptor
    | none ↦ agg_s psigs session >>= λ pre. checked_sig (record { r = pre.r; s = pre.s })
  ]

  unfoldable pub partial_sig_agg_adaptor : List ℕ → Session Msg → Result PreSignature
  unfolding agg_s
  partial_sig_agg_adaptor psigs session = elim session.adaptor [
    | none ↦ err no_adaptor
    | some T ↦ agg_s psigs session
  ]

  unfoldable pub adapt : PreSignature → ℕ → Session Msg → Result Sig
  unfolding session_values assert_valid
  adapt pre t session = do
    values ← session_values session
    refuse (not (ltb 0 t && ltb t ops.ec.n)) prv_key_range
    checked_sig (record { r = pre.r; s = (pre.s + turn_scalar (is_odd values.R) t) % ops.ec.n })

  unfoldable pub extract_adaptor : Sig → PreSignature → Session Msg → Result ℕ
  unfolding session_values
  extract_adaptor sig pre session = do
    values ← session_values session
    let t = mod_ℤ (pos sig.s -ℤ pos pre.s) ops.ec.n
    ok (if is_odd values.R then mod_ℤ (neg_ℤ (pos t)) ops.ec.n else t)
