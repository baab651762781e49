-- ===== src/Connections.antt =====
-- The connections of core_engine/connections.
pub mod Batcher
pub mod Pool
