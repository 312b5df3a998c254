-- ===== src/Upstream.antt =====
-- internal/upstream: the pool of DNS-over-HTTPS resolvers.
pub mod Pool
