-- ===== src/Cache.antt =====
-- core_engine/cache/manager.py: the cache tiers, their composition and the manager.
pub mod Lru
pub mod Backend
pub mod Composite
pub mod Manager
mod Tests
