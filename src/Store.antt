-- ===== src/Store.antt =====
-- internal/store: the file-backed store and its collections.
pub mod Models
pub mod File
pub mod Collections
