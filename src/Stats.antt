-- ===== src/Stats.antt =====
-- internal/stats: the live counters and the latency histogram.
pub mod Histogram
pub mod Counters
