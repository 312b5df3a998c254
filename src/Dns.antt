-- ===== src/Dns.antt =====
-- internal/dns: messages, the response cache, synthetic answers, special names and the pipeline.
pub mod Message
pub mod Cache
pub mod Synthetic
pub mod Limiter
pub mod Special
pub mod Pipeline
