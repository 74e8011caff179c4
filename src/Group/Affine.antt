-- ===== src/Group/Affine.antt =====
-- The interface for the multiplications whose tables are affine: the methods of a `CurveGroup` that
-- mix the two coordinate systems, and what the multiplications rely on.
use ellipticcurves.Prelude.{ℕ, ◌≡◌, List, length}
use ellipticcurves.Prelude.Result.{Result, ok}
use ellipticcurves.Prelude.Table.{Entries}
use ellipticcurves.Group.{PointOps, AbelianGroup, Represents}
use ellipticcurves.Group.Shows.{Shows}

-- `blind` is `_blinded_jac` with the random number that it draws.
pub record AffineOps (J A : Type 0) : Type 0 where
  pub jac : PointOps J
  pub from_aff : A → J
  pub to_aff_batch : List J → Result (List A)
  pub add_aff : J → A → J
  pub negate_aff : A → A
  pub blind : J → J
  pub scalar_len : ℕ

-- An affine point `Stands` for an element of the group, and each method keeps what is shown.
pub record RepresentsAffine {J A G : Type 0} (ec : AffineOps J A) (grp : AbelianGroup G)
    : Type 1 where
  pub rep : Represents ec.jac grp
  pub Stands : A → G → Type 0
  pub from_aff-Shows : (a : A) {g : G} → Stands a g → Shows rep (ec.from_aff a) g
  pub add_aff-Shows :
      (X : J) (a : A) {g h : G}
      → Shows rep X g
      → Stands a h
      → Shows rep (ec.add_aff X a) (grp.plus g h)
  pub negate_aff-Stands : (a : A) {g : G} → Stands a g → Stands (ec.negate_aff a) (grp.minus g)
  pub blind-Shows : (X : J) {g : G} → Shows rep X g → Shows rep (ec.blind X) g
  pub to_aff_batch-Stands :
      (p : ℕ → G) (Qs : List J)
      → Entries (λ i X. Shows rep X (p i)) 0 Qs
      → (As : List A) × (ec.to_aff_batch Qs ≡ ok As)
        × Entries (λ i a. Stands a (p i)) 0 As
        × (length As ≡ length Qs)
