-- ===== src/Log.antt =====
-- internal/log: the query log.
pub mod Entry
pub mod Fanout
pub mod Query
