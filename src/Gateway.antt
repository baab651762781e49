-- ===== src/Gateway.antt =====
-- The gateway: its middleware and its webhooks.
pub mod RateLimiter
pub mod Keys
pub mod Webhooks
