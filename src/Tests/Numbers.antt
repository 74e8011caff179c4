-- ===== src/Tests/Numbers.antt =====
-- The number theory at small numbers.
use ellipticcurves.Prelude.{◌≡◌, refl, [], ◌∷◌, arith}
use ellipticcurves.Prelude.Int.{pos, negsuc, mod_ℤ, ◌-ℤ◌, ◌*ℤ◌}
use ellipticcurves.Prelude.Result.{ok, err, no_inverse}
use ellipticcurves.NumberTheory.{
  xgcd_var, mod_inv_var, mod_inv_batch_var, map_result, pow_inverse, final_product, peel_all,
}
use ellipticcurves.NumberTheory.Blinded.{mod_inv_batch, mod_inv_batch-eq-map_result}

inverse_of_minus_three : mod_inv_var (negsuc 2) (pos 7) ≡ ok 2
unfolding mod_inv_var pow_inverse xgcd_var mod_ℤ ◌-ℤ◌ ◌*ℤ◌
inverse_of_minus_three = refl

no_inverse_of_six : mod_inv_var (pos 6) (pos 9) ≡ err no_inverse
unfolding mod_inv_var pow_inverse xgcd_var mod_ℤ ◌-ℤ◌ ◌*ℤ◌
no_inverse_of_six = refl

batch_of_three : mod_inv_batch_var (pos 2 ∷ pos 3 ∷ negsuc 0 ∷ []) (pos 7) ≡ ok (4 ∷ 5 ∷ 6 ∷ [])
unfolding mod_inv_batch_var pow_inverse xgcd_var mod_ℤ ◌-ℤ◌ ◌*ℤ◌ final_product peel_all
batch_of_three = refl

mod_inv_batch-eq-map_result_example :
    mod_inv_batch (3 ∷ 4 ∷ []) (1 ∷ 2 ∷ []) (pos 2 ∷ pos 3 ∷ []) (pos 7)
    ≡ map_result (λ y. mod_inv_var y (pos 7)) (pos 2 ∷ pos 3 ∷ [])
mod_inv_batch-eq-map_result_example =
    mod_inv_batch-eq-map_result (3 ∷ 4 ∷ []) (1 ∷ 2 ∷ []) (pos 2 ∷ pos 3 ∷ []) 7 (omega arith) refl
      refl
