-- ===== src/Lib.antt =====
-- A verification library for btclib-ecc, the elliptic curve arithmetic of src/btclib_ecc.
--
-- Parts, from the bottom up. number_theory.py has the extended Euclidean algorithm and the modular
-- inverses, one at a time and in a batch, and the square roots. curves/curve_group.py has the group
-- of the points of a curve: its formulas in Jacobian coordinates, and the scalar multiplications
-- that call them. curves/sec_point.py writes and reads the octets of a point.
-- The schemes of ecc/ multiply points through these. ecc/dsa.py has the ECDSA signatures,
-- ecc/ssa.py those of BIP340, and ecc/musig2.py the BIP340 signatures of several signers, which
-- ecc/ssa.py verifies; ecc/dleq.py proves that two points are the same multiple of two bases, and
-- ecc/borromean.py signs for one key of each ring.
--
-- Files:
-- - Prelude and below: shared names, Python's integers (Int), remainders (Modular), list indexing
--   (Table), bytes (Bytes), errors as values (Result), well-founded recursion (Order).
-- - NumberTheory: `xgcd_var`, `pow(a, -1, m)`, `mod_inv_var`, `mod_inv`, `mod_inv_batch_var` of
--   number_theory.py; proofs in Euclid, Inverse and Batch; Blinded has `mod_inv_batch`. Roots has
--   `legendre_symbol_var`, `mod_sqrt_var` and `tonelli_var`, its loops and what they return.
-- - Group: the interface of the multiplications. `PointOps` has the methods of a `CurveGroup` that
--   they call; `Represents` says that those methods implement an abelian group, on the tuples of
--   the curve. Group/Multiple and Group/Shows have the laws of multiples.
-- - Curve: `CurveGroup` with its Jacobian formulas (`add_jac`, `add_jac_aff`, `double_jac`,
--   `negate_jac`, `is_jac_equal`, `_blinded_jac`); Curve/SmallCurve fills the interface `Represents`
--   with them for a curve of three points, by a check of every tuple. Curve/Affine has the affine
--   formulas and `aff_from_jac_var`, `aff_from_jac_batch_var`, `is_on_curve`, `add_var`. Curve/Roots
--   has `y_var`, `y_even_var`, `y_low_var` and `y_quadratic_residue_var`.
-- - Recode: the signed recodings `_mods`, `_wNAF_of_m_var` and `signed_odd_digits`.
-- - Mult: the scalar multiplications. Digits has the digits of a number in a base, DoubleAndAdd the
--   binary methods, Window the methods that look digits up in a table, Regular and FixedBase the
--   methods of `_mult_regular_window` and `_mult_fixed_base`, whose tables are affine and whose
--   interface is Group/Affine, Naf the method of `_mult_w_NAF_var`, Sliding that
--   of `_mult_sliding_window_var`, and Multi the interleaved one of
--   `_multi_mult_w_NAF_var`.
-- - Ecdsa: ecc/dsa.py. The signature `Sig` with `assert_valid`, `_compact` and `_sig_from_compact`;
--   Ecdsa/Der the DER encoding, `Sig.serialize` and `Sig.parse` with their helpers; Ecdsa/Signing
--   the functions on scalars, `_sign_recoverable_`, `_assert_as_valid_`, `_recover_pub_key_`, `_grind_low_r` and
--   `crack_prv_key_var_`. Ecdsa/Signing/Interface says what they rely on in the operations of the
--   curve, the record `EcOps`.
-- - Ssa: ecc/ssa.py on scalars, `Sig` with `serialize` and `parse`, `_sign_`, `_assert_as_valid_` and
--   `_recover_pub_key_`; Ssa/Interface extends the interface of Ecdsa/Signing. Ssa/Batch has
--   `assert_batch_as_valid_` and the Python arm of `assert_as_valid_`, with the challenge and
--   `multi_mult_var` as the parameters of `BatchOps` and the Python arm of `_multi_mult_x_only_var`
--   over it; all signatures are of one curve.
-- - Points: the operations on affine points that the schemes call (curves/curve.py), the record
--   `PointArith`, with `_sum_var` and `_tweak_add_var`; Points/Interface says what is relied on,
--   Points/Bip340 that an equation between points is what ecc/ssa.py accepts.
-- - Musig2: ecc/musig2.py on points and scalars: `key_agg`, `apply_tweak`, `key_agg_and_tweak`,
--   `nonce_agg`, `session_values`, `sign`, `partial_sig_verify_`, `partial_sig_agg`,
--   `partial_sig_agg_adaptor`, `adapt`, `extract_adaptor`. The octets of a key or of a nonce are
--   read as points, and `sign` returns what is left of the nonce beside its result. Musig2/KeyAgg has
--   the aggregate key, Partial one signer, Shares and Signers all of them, Correct and Adaptor the
--   aggregated signature.
-- - Sec: curves/sec_point.py, `bytes_from_point`, `point_from_octets` and `point_from_pub_key`, with
--   `is_on_curve` of curves/curve.py and the check of the subgroup. Sec/Read has what the branches
--   let through, Sec/Written, Sec/RoundTrip and Sec/Valid what is written and read.
-- - Dleq: ecc/dleq.py on points and scalars, `generate_proof` and `assert_proof_as_valid`.
-- - Borromean: ecc/borromean.py, `sign` with its two steps, `assert_as_valid`, and in Borromean/Wire
--   `BorromeanSig.serialize` and `parse`. A `RingInput` has what the arguments say of one ring, so
--   that there are equally many of each. Borromean/Ring has the walk of one ring.
-- - Tests: concrete runs, and the theorems at concrete inputs.
--
-- Correspondence. A Python integer is a natural number where the code keeps it non-negative and an
-- element of ℤ where it does not. An exception is the error of a `Result`. A method of a curve is a
-- function of the record `CurveGroup`, or a field of `PointOps` where a multiplication calls it. A
-- `while` loop on a number that shrinks is a recursion on its accessibility, so it has no fuel;
-- `_convert_number_to_base_var` runs on the fuel i + 1, which is enough for a base of at least 2,
-- and `_wNAF_of_m_var` on the fuel m, which is enough for a width of at least 1.
-- The loop of `tonelli_var` runs on the fuel s, which is enough as s becomes smaller in every round.
-- The search of `assert_valid` for an x-coordinate runs on the fuel p, which is enough as n is
-- positive. A stream is the list of the bytes that are not yet read.
-- The octets of a key, a nonce or a proof are the points and numbers that they spell, where a scheme
-- does not say otherwise.
-- `_grind_low_r` has no cap in the code: it runs on fuel, and `none` is a loop that has not ended.
-- A random draw is an argument. A memo (`functools.lru_cache`) holds what the call builds.
--
-- Assumed: the laws of an abelian group for the points of a curve, as the fields of `Represents`.
-- They are proved here for one small curve only, and not in general. The signatures rely on the
-- fields of `Implements`: a generator of prime order, multiplications that return the multiples,
-- affine coordinates that belong to the point, the even root; Tests/SmallOps and Tests/SevenOps have
-- instances. The schemes on points rely on `ImplementsPoints`, whose group has no element
-- that n does not annihilate, and a challenge is from 1 to n - 1; `multi_mult_var` is relied on only
-- for as many scalars as points and two at least, where it does not refuse. Tests/SevenPoints has an
-- instance made of the affine formulas and `_mult_aff_var`, on a curve over the field of seven
-- elements, with sums of multiples that are added up one by one; Tests/SmallPoints has its table.
-- That the interleaved method of `_multi_mult_var` returns the sum is not proved.
--
-- Not modelled: range proofs and Pedersen commitments (ecc/rangeproof.py, ecc/pedersen.py) and the
-- other schemes of ecc/ besides those named above; the primality test of number_theory.py, and with
-- it the checks of `CurveGroup.__init__`; the bindings to libsecp256k1, a package of its own; the
-- catalogue of curves (curves/curve.py) and the spellings of a private key (curves/sec_point.py); and
-- in the schemes the hash of the message and of a list of keys, which are parameters, the derivation
-- of the nonces, the wiping `Signer` and the anti-exfil protocol, which rest on hash functions of
-- other packages.
pub mod Prelude
pub mod Recode
pub mod NumberTheory
pub mod Group
pub mod Points
pub mod Musig2
pub mod Dleq
pub mod Sec
pub mod Borromean
pub mod Ecdsa
pub mod Ssa
pub mod Mult
pub mod Curve
pub mod Tests
