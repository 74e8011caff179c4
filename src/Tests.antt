-- ===== src/Tests.antt =====
-- Concrete runs, and the theorems at concrete inputs.
pub mod Multiplications
pub mod Numbers
pub mod Roots
pub mod Regular
pub mod SmallOps
pub mod SevenOps
pub mod Signing
pub mod Ssa
pub mod Batch
pub mod SmallPoints
pub mod SevenPoints
pub mod Musig2
pub mod Der
pub mod Dleq
pub mod Borromean
pub mod Sec
