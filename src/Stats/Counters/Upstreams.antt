-- ===== src/Stats/Counters/Upstreams.antt =====
-- internal/stats/counters.go: the live counters of one upstream.
use sis.Base.{ℕ, ◌+◌, ◌%◌, Bool, true, false}
use sis.Stats.Histogram.{
  u64, Histogram, HistogramSnapshot, Scaling, new_histogram, observe, snapshot,
}

pub record UpstreamCounters : Type 0 where
  pub requests : ℕ
  pub errors : ℕ
  pub consecutive_errors : ℕ
  pub healthy : Bool
  pub latency : Histogram

-- `newUpstreamCounters`.
abbrev pub new_upstream_counters : UpstreamCounters
new_upstream_counters = record {
  requests = 0;
  errors = 0;
  consecutive_errors = 0;
  healthy = true;
  latency = new_histogram;
}

abbrev pub inc_request : UpstreamCounters → UpstreamCounters
inc_request u = record u { requests = (u.requests + 1) % u64 }

abbrev pub inc_error : UpstreamCounters → UpstreamCounters
inc_error u = record u {
  errors = (u.errors + 1) % u64;
  consecutive_errors = (u.consecutive_errors + 1) % u64;
}

-- `MarkSuccess` and `MarkUnhealthy` of the counters.
abbrev pub clear_errors : UpstreamCounters → UpstreamCounters
clear_errors u = record u { consecutive_errors = 0; healthy = true }

abbrev pub mark_unhealthy : UpstreamCounters → UpstreamCounters
mark_unhealthy u = record u { healthy = false }

-- `ObserveLatency` of the counters.
abbrev pub observe_upstream : ℕ → UpstreamCounters → UpstreamCounters
observe_upstream d u = record u { latency = observe u.latency d }

pub record UpstreamSnapshot : Type 0 where
  pub requests : ℕ
  pub errors : ℕ
  pub consecutive_errors : ℕ
  pub healthy : Bool
  pub latency : HistogramSnapshot

unfoldable pub upstream_snapshot : Scaling → UpstreamCounters → UpstreamSnapshot
upstream_snapshot sc u = record {
  requests = u.requests;
  errors = u.errors;
  consecutive_errors = u.consecutive_errors;
  healthy = u.healthy;
  latency = snapshot sc u.latency;
}
