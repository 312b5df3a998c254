-- ===== src/Stats/Counters.antt =====
-- internal/stats/counters.go: the totals, the counters of each upstream, and the bounded tables of
-- domains and clients. A nil receiver, which every method ignores, is not modelled; the mutex and the
-- atomics make each call one step, and a Snapshot is read at one point between steps.
pub mod Tables
pub mod Upstreams
use sis.Base.{
  ℕ, ◌+◌, ◌%◌, ◌^◌, Bool, true, false, not, ◌&&◌, Option, none, some, List, [], ◌∷◌, Str, eqs,
  str_eq, if◌then◌else◌,
}
use sis.Base.Map.{lookup, insert}
use sis.Stats.Histogram.{
  u64, Histogram, HistogramSnapshot, Scaling, new_histogram, observe, snapshot,
}
use sis.Stats.Counters.Tables.{increment_top_counter, top_n, TopItem}
use sis.Stats.Counters.Upstreams.{
  UpstreamCounters, UpstreamSnapshot, new_upstream_counters, upstream_snapshot,
}

pub record Counters : Type 0 where
  pub query_total : ℕ
  pub cache_hit : ℕ
  pub cache_miss : ℕ
  pub blocked_total : ℕ
  pub rate_limited_total : ℕ
  pub malformed_total : ℕ
  pub upstreams : List (Str × UpstreamCounters)
  pub latency : Histogram
  pub domains : List (Str × ℕ)
  pub blocked_domains : List (Str × ℕ)
  pub clients : List (Str × ℕ)

-- `New`.
abbrev pub new_counters : Counters
new_counters = record {
  query_total = 0;
  cache_hit = 0;
  cache_miss = 0;
  blocked_total = 0;
  rate_limited_total = 0;
  malformed_total = 0;
  upstreams = [];
  latency = new_histogram;
  domains = [];
  blocked_domains = [];
  clients = [];
}

-- `Add(1)` on a uint64.
abbrev pub add_one : ℕ → ℕ
add_one n = (n + 1) % u64

abbrev pub inc_query : Counters → Counters
inc_query c = record c { query_total = add_one c.query_total }

abbrev pub inc_cache_hit : Counters → Counters
inc_cache_hit c = record c { cache_hit = add_one c.cache_hit }

abbrev pub inc_cache_miss : Counters → Counters
inc_cache_miss c = record c { cache_miss = add_one c.cache_miss }

abbrev pub inc_blocked : Counters → Counters
inc_blocked c = record c { blocked_total = add_one c.blocked_total }

abbrev pub inc_rate_limited : Counters → Counters
inc_rate_limited c = record c { rate_limited_total = add_one c.rate_limited_total }

abbrev pub inc_malformed : Counters → Counters
inc_malformed c = record c { malformed_total = add_one c.malformed_total }

-- `ObserveLatency`.
abbrev pub observe_latency : ℕ → Counters → Counters
observe_latency d c = record c { latency = observe c.latency d }

unfoldable pub add_domain : Str → Bool → Counters → Counters
add_domain domain blocked c = if eqs domain [] then c else record c {
  domains = increment_top_counter c.domains domain;
  blocked_domains =
      if blocked then increment_top_counter c.blocked_domains domain else c.blocked_domains;
}

unfoldable pub add_client : Str → Counters → Counters
add_client client c =
    if eqs client [] then c else record c { clients = increment_top_counter c.clients client }

unfoldable pub top_domains : ℕ → Bool → Counters → List TopItem
top_domains n blocked c = if blocked then top_n c.blocked_domains n else top_n c.domains n

unfoldable pub top_clients : ℕ → Counters → List TopItem
top_clients n c = top_n c.clients n

-- What `LoadOrStore` finds: the counters under the key, or the fresh ones.
abbrev pub loaded : Option UpstreamCounters → UpstreamCounters
loaded none = new_upstream_counters
loaded (some u) = u

-- `Upstream(id)` with the call that the caller makes on the counters it gets: those of an empty id
-- are stored nowhere, and any others are shared with the map.
unfoldable pub with_upstream : Str → (UpstreamCounters → UpstreamCounters) → Counters → Counters
with_upstream id f c =
    if eqs id []
    then c
    else record c { upstreams = insert id (f (loaded (lookup id c.upstreams))) c.upstreams }

pub record Snapshot : Type 0 where
  pub query_total : ℕ
  pub cache_hit : ℕ
  pub cache_miss : ℕ
  pub blocked_total : ℕ
  pub rate_limited_total : ℕ
  pub malformed_total : ℕ
  pub latency : HistogramSnapshot
  pub upstreams : List (Str × UpstreamSnapshot)

abbrev pub upstream_snapshots :
    Scaling → List (Str × UpstreamCounters) → List (Str × UpstreamSnapshot)
upstream_snapshots sc [] = []
upstream_snapshots sc ((id, u) ∷ m) = (id, upstream_snapshot sc u) ∷ upstream_snapshots sc m

unfoldable pub counters_snapshot : Scaling → Counters → Snapshot
counters_snapshot sc c = record {
  query_total = c.query_total;
  cache_hit = c.cache_hit;
  cache_miss = c.cache_miss;
  blocked_total = c.blocked_total;
  rate_limited_total = c.rate_limited_total;
  malformed_total = c.malformed_total;
  latency = snapshot sc c.latency;
  upstreams = upstream_snapshots sc c.upstreams;
}
