-- ===== src/Resilience.antt =====
-- core_engine/resilience/__init__.py: the patterns that keep one failing service from another.
pub mod Breaker
pub mod Bulkhead
pub mod Calls
pub mod Middleware
pub mod Fallback
pub mod Timeout
pub mod Guarded
mod Tests
