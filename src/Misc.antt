-- ===== src/Misc.antt =====
-- internal/misc: the slice helpers, the claim sets and their merge, and the expansion of variables.
pub mod Paths
pub mod Slices
pub mod Claims
pub mod ExpandEnv
mod Tests
