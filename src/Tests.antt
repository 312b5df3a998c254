-- ===== src/Tests.antt =====
-- The theorems at concrete inputs.
mod Names
mod Lists
mod Engines
mod Caches
mod Pipelines
mod Upstreams
mod Statistics
mod Admins
mod Configs
mod Limits
mod Logs
mod Stores
mod Data
