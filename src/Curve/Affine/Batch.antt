-- ===== src/Curve/Affine/Batch.antt =====
-- The batch conversion is the conversion of each point.
use ellipticcurves.Prelude.{
  ℕ, ◌<◌, ◌≡◌, refl, sym, ap, List, [], ◌∷◌, true, false, ◌==◌, Bool-cases, inl, inr,
}
use ellipticcurves.Prelude.Int.{pos}
use ellipticcurves.Prelude.Result.{Result, ok, err, ◌>>=◌}
use ellipticcurves.NumberTheory.{mod_inv_var, map_result}
use ellipticcurves.NumberTheory.Batch.{mod_inv_batch_var-eq-map_result}
use ellipticcurves.Curve.{CurveGroup, JacPoint, Point, inf}
use ellipticcurves.Curve.Affine.{
  aff_from_z_inv, aff_from_jac_var, finite_zs, hand_out, aff_from_jac_batch_var,
}

-- `[aff_from_jac_var(Q) for Q in Qs]`
unfoldable pub each_aff : CurveGroup → List JacPoint → Result (List Point)
each_aff ec [] = ok []
each_aff ec (Q ∷ Qs) = do P ← aff_from_jac_var ec Q; Ps ← each_aff ec Qs; ok (P ∷ Ps)

hand_out_infinite :
    (ec : CurveGroup) (Q : JacPoint) (Qs : List JacPoint) (inverses : List ℕ)
    → Q.z == 0 ≡ true
    → hand_out ec (Q ∷ Qs) inverses ≡ inf ∷ hand_out ec Qs inverses
unfolding hand_out
hand_out_infinite ec Q Qs [] z = rw z
hand_out_infinite ec Q Qs (i ∷ is) z = rw z

hand_out_finite :
    (ec : CurveGroup) (Q : JacPoint) (Qs : List JacPoint) (i : ℕ) (inverses : List ℕ)
    → Q.z == 0 ≡ false
    → hand_out ec (Q ∷ Qs) (i ∷ inverses) ≡ aff_from_z_inv ec Q i ∷ hand_out ec Qs inverses
unfolding hand_out
hand_out_finite ec Q Qs i inverses z = rw z

-- A step of the two conversions, for the inverses and the points that the rest gives.
infinite_step :
    (ec : CurveGroup) (Q : JacPoint) (Qs : List JacPoint) (inverses : Result (List ℕ))
    → Q.z == 0 ≡ true
    → (inverses >>= λ is. ok (hand_out ec (Q ∷ Qs) is))
      ≡ ((inverses >>= (λ is. ok (hand_out ec Qs is))) >>= λ Ps. ok (inf ∷ Ps))
infinite_step ec Q Qs (err e) z = refl
infinite_step ec Q Qs (ok is) z = ap ok (hand_out_infinite ec Q Qs is z)

finite_step :
    (ec : CurveGroup) (Q : JacPoint) (Qs : List JacPoint) (inverse : Result ℕ)
    (inverses : Result (List ℕ))
    → Q.z == 0 ≡ false
    → ((inverse >>= (λ i. inverses >>= λ is. ok (i ∷ is))) >>= λ is. ok (hand_out ec (Q ∷ Qs) is))
      ≡ ((inverse >>= (λ i. ok (aff_from_z_inv ec Q i))) >>= λ P.
          ((inverses >>= (λ is. ok (hand_out ec Qs is))) >>= λ Ps. ok (P ∷ Ps)))
finite_step ec Q Qs (err e) inverses z = refl
finite_step ec Q Qs (ok i) (err e) z = refl
finite_step ec Q Qs (ok i) (ok is) z = ap ok (hand_out_finite ec Q Qs i is z)

hand_out_each :
    (ec : CurveGroup) (Qs : List JacPoint)
    → (map_result (λ y. mod_inv_var y (pos ec.p)) (finite_zs Qs) >>= λ inverses.
        ok (hand_out ec Qs inverses))
      ≡ each_aff ec Qs
unfolding map_result finite_zs hand_out each_aff aff_from_jac_var
hand_out_each ec [] = refl
hand_out_each ec (Q ∷ Qs) = elim (Bool-cases (Q.z == 0)) [
  | inl e ↦
      rw (e, sym (hand_out_each ec Qs))
        (infinite_step ec Q Qs (map_result (λ y. mod_inv_var y (pos ec.p)) (finite_zs Qs)) e)
  | inr e ↦
      rw (e, sym (hand_out_each ec Qs))
        (finite_step ec Q Qs (mod_inv_var (pos Q.z) (pos ec.p))
          (map_result (λ y. mod_inv_var y (pos ec.p)) (finite_zs Qs)) e)
]

-- On a positive modulus, the batch answers what converting each point answers, an error included,
-- points at infinity being skipped by the batch inversion.
pub aff_from_jac_batch_var-eq-each_aff :
    (ec : CurveGroup) (Qs : List JacPoint)
    → 0 < ec.p
    → aff_from_jac_batch_var ec Qs ≡ each_aff ec Qs
unfolding aff_from_jac_batch_var
aff_from_jac_batch_var-eq-each_aff ec Qs h =
    rw (mod_inv_batch_var-eq-map_result (finite_zs Qs) ec.p h) (hand_out_each ec Qs)
