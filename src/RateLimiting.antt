-- ===== src/RateLimiting.antt =====
-- apps/app/core/rate_limiting: the sliding window of limiter.py, and the middlewares that use it.
pub mod Window
pub mod Middleware
mod Tests
