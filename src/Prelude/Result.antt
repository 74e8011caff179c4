-- ===== src/Prelude/Result.antt =====
-- src/btclib_ecc/exceptions.py: a function that may raise returns a `Result`. The constructors of
-- `Error` name the messages of the `BTClibEccValueError`s that the modelled code raises.
use ellipticcurves.Prelude.{Bool, true, false, ◌≡◌, refl, ap, ◌⊎◌, inl, inr}

pub data Error : Type 0 where
  non_positive_modulus no_inverse no_root not_prime : Error
  negative_m negative_first negative_second non_positive_w even_m size_too_low does_not_fit : Error
  index_error : Error
  mismatch not_a_multi_mult negative_coefficient : Error
  no_coordinate not_on_curve x_not_in_range y_not_in_range : Error
  not_enough_data long_form non_canonical_length length_too_big zero_size : Error
  bad_header bad_padding negative_scalar sequence_too_long sequence_length trailing_bytes : Error
  value_too_short r_not_in_range no_such_x s_not_in_range : Error
  zero_r zero_s high_s infinite_key failed_verification not_a_field_element not_in_subgroup : Error
  not_the_same_curve not_the_same_r identical_signatures : Error
  not_an_x_coordinate zero_challenge odd_y decoded_length no_signatures : Error
  invalid_x not_three_mod_four : Error
  infinite_aggregate tweak_range infinite_tweak foreign_key first_nonce_range : Error
  second_nonce_range prv_key_range other_pub_key psig_range has_adaptor no_adaptor : Error
  no_octets no_public_key zero_nonce implausible infinite_r1 infinite_r2 invalid_challenge : Error
  compressed_size uncompressed_size hybrid_parity not_a_point octets_size two_torsion : Error
  empty_e0 no_rings no_keys ring_shape sign_key_range : Error

pub data Result {ℓ} (A : Type ℓ) : Type ℓ where
  err : Error → Result A
  ok : A → Result A

infixl 5 ◌>>=◌ ◌>>◌
abbrev pub ◌>>=◌ {ℓ κ} : {A : Type ℓ} {B : Type κ} → Result A → (A → Result B) → Result B
◌>>=◌ (err raised) go = err raised
◌>>=◌ (ok value) go = go value

abbrev pub ◌>>◌ {ℓ} : {B : Type ℓ} → Result (Unit {0}) → Result B → Result B
◌>>◌ checked next = checked >>= λ _. next

-- `if test: raise e`
abbrev pub refuse : Bool → Error → Result (Unit {0})
refuse false e = ok tt
refuse true e = err e

-- What a chain that succeeded has passed.
pub >>=-ok {κ ℓ} :
    {B : Type κ} {A : Type ℓ} {last : B} (step : Result A) (next : A → Result B)
    → step >>= next ≡ ok last
    → (value : A) × (step ≡ ok value) × (next value ≡ ok last)
>>=-ok (ok value) next passed = (value, refl, passed)
>>=-ok (err raised) next passed = cc

pub refuse-ok {ℓ} :
    {B : Type ℓ} (t : Bool) (e : Error) (next : Result B) {b : B}
    → (refuse t e >> next) ≡ ok b
    → (t ≡ false) × (next ≡ ok b)
refuse-ok true e next h = cc
refuse-ok false e next h = (refl, h)

pub ok_inj {ℓ} : {A : Type ℓ} {a b : A} → ok a ≡ ok b → a ≡ b
ok_inj e = cc

pub Result-cases {ℓ} :
    {A : Type ℓ} (r : Result A) → ((a : A) × (r ≡ ok a)) ⊎ ((e : Error) × (r ≡ err e))
Result-cases (ok a) = inl (a, refl)
Result-cases (err e) = inr (e, refl)

-- A step that succeeds is passed.
pub pass {κ ℓ} :
    {A : Type κ} {B : Type ℓ} (step : Result A) (next : A → Result B) {a : A}
    → step ≡ ok a
    → (step >>= next) ≡ next a
pass step next e = ap (λ r. r >>= next) e

-- A check that stands last.
pub refuse_last : (t : Bool) (e : Error) → refuse t e ≡ ok tt → t ≡ false
refuse_last false e h = refl
refuse_last true e h = cc
