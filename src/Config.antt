-- ===== src/Config.antt =====
-- internal/config: the configuration and its validation.
pub mod Types
pub mod Domain
pub mod Issues
pub mod Checks
pub mod Sections
pub mod Validate
pub mod Load
pub mod Compiles
pub mod Accepted
