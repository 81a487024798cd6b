-- ===== src/Identity.antt =====
-- identity/rate_limit.py: the fixed-window rate limiter of one server process.
pub mod RateLimit
