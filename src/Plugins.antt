-- ===== src/Plugins.antt =====
-- The plugin system, core_engine/plugins: base.py, registry.py and manager.py.
pub mod Base
pub mod Registry
pub mod Order
pub mod Manager
pub mod Laws
pub mod Loading
pub mod Shutdown
mod Tests
