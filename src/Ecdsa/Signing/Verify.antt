-- ===== src/Ecdsa/Signing/Verify.antt =====
-- ecc/dsa.py: the point that a verification computes, and when it accepts.
use native.Mathlib.Nat
use ellipticcurves.Prelude.{
  ℕ, ◌+◌, ◌*◌, ◌/◌, ◌%◌, ◌<◌, ◌≡◌, ◌≢◌, sym, ap, ◌∙◌, arith, Bool, true, false, ltb, ◌==◌, ==_iff,
  not, ◌&&◌,
}
use ellipticcurves.Prelude.Int.{pos}
use ellipticcurves.Prelude.Modular.{mod_ℤ-pos, mod-mul_left, mod_cong_add, mod_cong_mul}
use ellipticcurves.Prelude.Result.{ok, refuse, failed_verification}
use ellipticcurves.NumberTheory.{mod_inv_var}
use ellipticcurves.NumberTheory.Inverse.{IsInverse-of}
use ellipticcurves.Curve.{JacPoint}
use ellipticcurves.Group.{AbelianGroup, nmul}
use ellipticcurves.Group.Multiple.{nmul-mod, nmul-add, nmul-mul}
use ellipticcurves.Ecdsa.{Sig}
use ellipticcurves.Ecdsa.Signing.{EcOps, assert_as_valid}
use ellipticcurves.Ecdsa.Signing.Interface.{Implements}

pub inverse_found : (a n i : ℕ) → 0 < n → mod_inv_var (pos a) (pos n) ≡ ok i → a * i % n ≡ 1 % n
inverse_found a n i h e =
    sym (mod-mul_left a i n)
    ∙ ap (λ k. k * i % n) (sym (mod_ℤ-pos a n))
    ∙ (IsInverse-of (pos a) n i h e).inverse

module _ {G : Type 0} {ec : EcOps} {grp : AbelianGroup G} (impl : Implements ec grp) where
  open grp use {zero_point, plus, minus, plus_comm}
  open impl use {Shows, g, x_of, y_of}

  pub nmul-cong : (a b : ℕ) → a % ec.n ≡ b % ec.n → nmul grp a g ≡ nmul grp b g
  nmul-cong a b e =
      nmul-mod grp ec.n a g impl.order
      ∙ ap (λ k. nmul grp k g) e
      ∙ sym (nmul-mod grp ec.n b g impl.order)

  -- The point that a verification computes for the key q * g.
  pub combination :
      (q u v w c r : ℕ)
      → u % ec.n ≡ c * w % ec.n
      → v % ec.n ≡ r * w % ec.n
      → plus (nmul grp v (nmul grp q g)) (nmul grp u g) ≡ nmul grp (w * (c + r * q)) g
  combination q u v w c r hu hv =
      ap (λ a. plus a (nmul grp u g)) (sym (nmul-mul grp v q g))
      ∙ sym (nmul-add grp (v * q) u g)
      ∙ nmul-cong (v * q + u) (w * (c + r * q)) (
          mod_cong_add ec.n (v * q) (r * w * q) u (mod_cong_mul ec.n v (r * w) q hv)
          ∙ ap (λ k. k % ec.n) (Nat.add_comm (r * w * q) u)
          ∙ mod_cong_add ec.n u (c * w) (r * w * q) hu
          ∙ ap (λ k. k % ec.n) {x = c * w + r * w * q} {y = w * (c + r * q)} (omega arith))

  -- What is accepted when the point of the verification is not infinity.
  pub accepted :
      (c w : ℕ) (QJ : JacPoint) (sig : Sig) (lower_s : Bool) {a : G}
      → (lower_s && ltb (ec.n / 2) sig.s) ≡ false
      → mod_inv_var (pos sig.s) (pos ec.n) ≡ ok w
      → Shows (ec.double_mult (sig.r * w % ec.n) QJ (c * w % ec.n) ec.gen) a
      → a ≢ zero_point
      → sig.r ≡ x_of a % ec.n
      → assert_as_valid c QJ sig ec lower_s ≡ ok tt
  unfolding assert_as_valid
  accepted c w QJ sig lower_s l e s n x =
      let KJ = ec.double_mult (sig.r * w % ec.n) QJ (c * w % ec.n) ec.gen in
      let (z, (i, f, xe)) = impl.affine KJ s n in
      let same : (sig.r == KJ.x * i % ec.p % ec.n) ≡ true =
        (==_iff sig.r (KJ.x * i % ec.p % ec.n)).1 (x ∙ ap (λ k. k % ec.n) (sym xe)) in
      rw (l, e, z, f) (ap (λ t. refuse (not t) failed_verification) same)
