-- ===== src/Ecdsa/Validity.antt =====
-- ecc/dsa.py: what `Sig.assert_valid` accepts, and the fixed-size form of a signature.
use native.Mathlib.Nat
use ellipticcurves.Prelude.{
  ℕ, zero, suc, ◌+◌, ◌*◌, ◌/◌, ◌^◌, ◌<◌, ◌≤◌, ◌≡◌, ◌↔◌, sym, ap, ap₂, ◌∙◌, arith, tests, ltb→lt,
  true, take-append, drop-append, take, drop, ◌++◌, ltb, not, ◌&&◌, Bool-cases, inl, inr,
}
use ellipticcurves.Prelude.Bytes.{
  bit_length, bit_length_bounds, to_bytes, from_bytes, length-to_bytes, from_bytes-to_bytes,
}
use ellipticcurves.Ecdsa.Der.Scalar.{pow_256}
use ellipticcurves.Prelude.Result.{ok, refuse-ok, r_not_in_range, no_such_x}
use ellipticcurves.Ecdsa.{
  SigCurve, Sig, congruence_loop, congruence_found, assert_valid, n_size, compact, sig_from_compact,
}

-- A candidate x = r + j * n below p that is the x-coordinate of a point.
pub record IsCandidate (ec : SigCurve) (r j : ℕ) : Type 0 where
  pub below : r + j * ec.n < ec.p
  pub on_curve : ec.is_x_coordinate (r + j * ec.n) ≡ true

IsCandidate-next :
    (ec : SigCurve) (r j : ℕ) → IsCandidate ec (r + ec.n) j → IsCandidate ec r (suc j)
IsCandidate-next ec r j c =
    let e : r + ec.n + j * ec.n ≡ r + suc j * ec.n = omega arith in
    record { below = omega (arith, c.below); on_curve = ap ec.is_x_coordinate (sym e) ∙ c.on_curve }

IsCandidate-now :
    (ec : SigCurve) (r : ℕ) → ltb r ec.p ≡ true → ec.is_x_coordinate r ≡ true → IsCandidate ec r 0
IsCandidate-now ec r l x =
    let e : r + 0 * ec.n ≡ r = omega arith in
    record { below = omega (tests, ltb→lt r ec.p l); on_curve = ap ec.is_x_coordinate e ∙ x }

congruence_loop-Candidate :
    (fuel : ℕ) (ec : SigCurve) (r : ℕ)
    → congruence_loop fuel ec r ≡ true
    → (j : ℕ) × IsCandidate ec r j
unfolding congruence_loop
congruence_loop-Candidate zero ec r e = absurd cc
congruence_loop-Candidate (suc fuel) ec r e = elim (Bool-cases (ltb r ec.p)) [
  | inr l ↦ absurd (ground arith)
  | inl l ↦ elim (Bool-cases (ec.is_x_coordinate r)) [
    | inl x ↦ (0, IsCandidate-now ec r l x)
    | inr x ↦
        let (j, c) = congruence_loop-Candidate fuel ec (r + ec.n) (ground arith) in
        (suc j, IsCandidate-next ec r j c)
  ]
]

-- Enough fuel finds a candidate.
Candidate-congruence_loop :
    (fuel : ℕ) (ec : SigCurve) (r j : ℕ)
    → 0 < ec.n
    → ec.p ≤ r + fuel
    → IsCandidate ec r j
    → congruence_loop fuel ec r ≡ true
unfolding congruence_loop
Candidate-congruence_loop zero ec r j h f c = absurd (omega (arith, c.below))
Candidate-congruence_loop (suc fuel) ec r zero h f c =
    let e : r + 0 * ec.n ≡ r = omega arith in
    let x : ec.is_x_coordinate r ≡ true = ap ec.is_x_coordinate (sym e) ∙ c.on_curve in
    let l : r < ec.p = omega (arith, c.below) in ground arith
Candidate-congruence_loop (suc fuel) ec r (suc j) h f c =
    let e : r + suc j * ec.n ≡ r + ec.n + j * ec.n = omega arith in
    let later : IsCandidate ec (r + ec.n) j = record {
      below = omega (arith, c.below);
      on_curve = ap ec.is_x_coordinate (sym e) ∙ c.on_curve;
    } in
    let rest = Candidate-congruence_loop fuel ec (r + ec.n) j h (omega arith) later in
    let l : r < ec.p = omega (arith, c.below) in ground arith

pub congruence_found_iff :
    (ec : SigCurve) (r : ℕ)
    → 0 < ec.n
    → (congruence_found ec r ≡ true) ↔ ((j : ℕ) × IsCandidate ec r j)
unfolding congruence_found
congruence_found_iff ec r h = (
  congruence_loop-Candidate ec.p ec r,
  λ c. Candidate-congruence_loop ec.p ec r c.0 h (omega arith) c.1,
)

pub record IsValid (ec : SigCurve) (sig : Sig) : Type 0 where
  pub r_positive : 0 < sig.r
  pub r_reduced : sig.r < ec.n
  pub j : ℕ
  pub candidate : IsCandidate ec sig.r j
  pub s_positive : 0 < sig.s
  pub s_reduced : sig.s < ec.n

assert_valid-IsValid :
    (ec : SigCurve) (sig : Sig) → assert_valid ec sig ≡ ok tt → 0 < ec.n → IsValid ec sig
unfolding assert_valid
assert_valid-IsValid ec sig e h =
    let (a, e1) = refuse-ok (not (ltb 0 sig.r && ltb sig.r ec.n)) r_not_in_range _ e in
    let (b, e2) = refuse-ok (not (congruence_found ec sig.r)) no_such_x _ e1 in
    let (j, c) = (congruence_found_iff ec sig.r h).0 (ground arith) in
    record {
      r_positive = ground arith;
      r_reduced = ground arith;
      j = j;
      candidate = c;
      s_positive = ground arith;
      s_reduced = ground arith;
    }

IsValid-assert_valid : (ec : SigCurve) (sig : Sig) → IsValid ec sig → assert_valid ec sig ≡ ok tt
unfolding assert_valid
IsValid-assert_valid ec sig v =
    let found = (congruence_found_iff ec sig.r (omega (arith, v.r_reduced))).1 (v.j, v.candidate) in
    ground arith

-- On a curve with a positive order, assert_valid accepts a signature exactly when r and s are
-- from 1 to n - 1 and some r + j * n below p is the x-coordinate of a point.
pub assert_valid_iff :
    (ec : SigCurve) (sig : Sig) → 0 < ec.n → (assert_valid ec sig ≡ ok tt) ↔ IsValid ec sig
assert_valid_iff ec sig h = (λ e. assert_valid-IsValid ec sig e h, IsValid-assert_valid ec sig)

n_size-fits : (ec : SigCurve) → ec.n ≤ 256 ^ n_size ec
unfolding n_size
n_size-fits ec =
    let top = (bit_length_bounds ec.n).0 in
    let wide : 2 ^ bit_length ec.n ≤ 2 ^ (8 * ((bit_length ec.n + 7) / 8)) =
      Nat.pow-le-pow_right (omega arith) (omega arith) in
    omega (arith, pow_256 ((bit_length ec.n + 7) / 8))

-- For r and s below n, _sig_from_compact reads back the signature that _compact wrote.
pub sig_from_compact-compact :
    (ec : SigCurve) (sig : Sig)
    → sig.r < ec.n
    → sig.s < ec.n
    → sig_from_compact (compact ec sig) ec ≡ sig
unfolding sig_from_compact compact
sig_from_compact-compact ec sig hr hs =
    let fits = n_size-fits ec in
    let size = length-to_bytes (n_size ec) sig.r in
    let a = to_bytes (n_size ec) sig.r in
    let b = to_bytes (n_size ec) sig.s in
    let first : take (n_size ec) (a ++ b) ≡ a =
      ap (λ k. take k (a ++ b)) (sym size) ∙ take-append a b in
    let second : drop (n_size ec) (a ++ b) ≡ b =
      ap (λ k. drop k (a ++ b)) (sym size) ∙ drop-append a b in
    ap₂ (λ r s. record { r = r; s = s })
      (ap from_bytes first ∙ from_bytes-to_bytes (n_size ec) sig.r (omega arith))
      (ap from_bytes second ∙ from_bytes-to_bytes (n_size ec) sig.s (omega arith))
