-- ===== src/Identity.antt =====
-- app/core/identity.py and app/core/middleware.py: who calls. `Keys` is the cache of the realm's
-- public keys, `Tokens` verifies a token, and `Requests` is the middleware.
pub mod Keys
pub mod Tokens
pub mod Requests
pub mod Freshness
pub mod Found
pub mod Trusted
pub mod Examples
