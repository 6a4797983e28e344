-- ===== src/Web.antt =====
-- The parts of app/web that decide something by themselves.
pub mod RateLimit
pub mod Filters
