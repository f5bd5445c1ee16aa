-- ===== src/Api.antt =====
-- internal/api: the limit on login attempts.
pub mod RateLimit
mod Tests
