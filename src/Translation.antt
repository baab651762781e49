-- ===== src/Translation.antt =====
-- The language matrix of core_engine/translation.
pub mod Matrix
