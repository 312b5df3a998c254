-- ===== src/Api.antt =====
-- internal/api: the limiter of requests.
pub mod Limiter
pub mod Auth
pub mod Apply
