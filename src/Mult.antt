-- ===== src/Mult.antt =====
-- The scalar multiplications of curves/curve_group.py and curves/curve_group_2.py.
pub mod Digits
pub mod DoubleAndAdd
pub mod Window
pub mod Regular
pub mod FixedBase
pub mod Sliding
pub mod Multi
pub mod Naf
