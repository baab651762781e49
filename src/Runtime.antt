-- ===== src/Runtime.antt =====
-- The H1V3 runtime of h1v3_runtime.
pub mod HyperVector
pub mod Packet
