-- ===== src/Hdc.antt =====
-- The hypervector algebra of core_engine/brain.
pub mod Vectors
pub mod Bind
pub mod Permute
pub mod Bundle
pub mod Closest
mod Tests
