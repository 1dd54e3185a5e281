-- ===== src/Api.antt =====
-- The collections of the HTTP API and the requests that are made at most once.
pub mod RateLimit
pub mod Pages
pub mod Idempotency
