-- ===== src/Policy.antt =====
-- internal/policy: domain names, the suffix trie, blocklists, schedules, groups and the engine.
pub mod Names
pub mod Trie
pub mod Domains
pub mod Config
pub mod Errors
pub mod Schedule
pub mod Parser
pub mod Group
pub mod Engine
