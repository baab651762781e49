-- ===== src/Pipeline.antt =====
-- The data flow of core_engine/pipeline and core_engine/swarm.
pub mod Swarm
pub mod Node
pub mod Flow
pub mod Binding
pub mod Safety
pub mod Built
mod Tests
