-- ===== src/Security.antt =====
-- The protection of requests, core_engine/security: validator.py and advanced.py.
pub mod Words
pub mod Signer
pub mod Csrf
pub mod Bots
pub mod Redact
mod Tests
