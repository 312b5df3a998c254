-- ===== src/Stats/Histogram.antt =====
-- internal/stats/histogram.go: latency samples in fixed buckets. A nil histogram, which every method
-- ignores, is not modelled.
pub mod Laws
use sis.Base.{
  ℕ, zero, suc, ◌+◌, ◌*◌, ◌%◌, ◌^◌, Bool, true, false, List, [], ◌∷◌, leb, ◌==◌, if◌then◌else◌,
  length,
}

-- Durations are in nanoseconds; a negative one falls into the first bucket, as 0 does.
abbrev pub microsecond : ℕ
microsecond = 1000

abbrev pub millisecond : ℕ
millisecond = 1_000_000

abbrev pub second : ℕ
second = 1_000_000_000

-- `histogramBounds`.
unfoldable pub histogram_bounds : List ℕ
histogram_bounds =
    1 * microsecond
    ∷ 2 * microsecond
    ∷ 4 * microsecond
    ∷ 8 * microsecond
    ∷ 16 * microsecond
    ∷ 32 * microsecond
    ∷ 64 * microsecond
    ∷ 128 * microsecond
    ∷ 256 * microsecond
    ∷ 512 * microsecond
    ∷ 1 * millisecond
    ∷ 2 * millisecond
    ∷ 4 * millisecond
    ∷ 8 * millisecond
    ∷ 16 * millisecond
    ∷ 32 * millisecond
    ∷ 64 * millisecond
    ∷ 128 * millisecond
    ∷ 256 * millisecond
    ∷ 512 * millisecond
    ∷ 1 * second
    ∷ 2 * second
    ∷ 4 * second
    ∷ 8 * second
    ∷ 10 * second
    ∷ []

abbrev pub u64 : ℕ
u64 = 2 ^ 64

pub record Histogram : Type 0 where
  pub buckets : List ℕ
  pub total : ℕ

abbrev pub zeros : List ℕ → List ℕ
zeros [] = 0 ∷ []
zeros (b ∷ bs) = 0 ∷ zeros bs

-- `NewHistogram`: one bucket for each bound, and one more.
unfoldable pub new_histogram : Histogram
unfolding histogram_bounds
new_histogram = record { buckets = zeros histogram_bounds; total = 0 }

-- The loop of Observe: the first bound that is not below the sample, or the number of bounds.
unfoldable pub bucket_index : ℕ → List ℕ → ℕ
bucket_index d [] = 0
bucket_index d (bound ∷ rest) =
    let later = suc (bucket_index d rest) in if leb d bound then 0 else later

-- `buckets[i].Add(1)` on a 64-bit counter.
unfoldable pub increment_at : ℕ → List ℕ → List ℕ
increment_at i [] = []
increment_at zero (n ∷ ns) = ((n + 1) % u64) ∷ ns
increment_at (suc i) (n ∷ ns) = n ∷ increment_at i ns

unfoldable pub observe : Histogram → ℕ → Histogram
unfolding bucket_index increment_at
observe h d = record {
  buckets = increment_at (bucket_index d histogram_bounds) h.buckets;
  total = (h.total + 1) % u64;
}

-- The loop of quantile over the buckets; `last` is the last bound.
unfoldable pub scan : ℕ → ℕ → ℕ → List ℕ → List ℕ → ℕ
scan target last seen bounds [] = last
scan target last seen [] (n ∷ ns) =
    let later = scan target last ((seen + n) % u64) [] ns in
    if leb target ((seen + n) % u64) then last else later
scan target last seen (bound ∷ bounds) (n ∷ ns) =
    let later = scan target last ((seen + n) % u64) bounds ns in
    if leb target ((seen + n) % u64) then bound else later

-- `quantile`; `scaled` is uint64(float64(count) * q), whose rounding is left open.
unfoldable pub quantile : Histogram → ℕ → ℕ → ℕ
unfolding scan histogram_bounds
quantile h count scaled =
    if count == 0
    then 0
    else scan (if scaled == 0 then 1 else scaled) (10 * second) 0 histogram_bounds h.buckets

pub record HistogramSnapshot : Type 0 where
  pub count : ℕ
  pub p50 : ℕ
  pub p95 : ℕ
  pub p99 : ℕ

-- The three products of the count with 0.50, 0.95 and 0.99, in float64.
pub record Scaling : Type 0 where
  pub half : ℕ → ℕ
  pub most : ℕ → ℕ
  pub nearly_all : ℕ → ℕ

unfoldable pub snapshot : Scaling → Histogram → HistogramSnapshot
unfolding quantile
snapshot sc h = record {
  count = h.total;
  p50 = quantile h h.total (sc.half h.total);
  p95 = quantile h h.total (sc.most h.total);
  p99 = quantile h h.total (sc.nearly_all h.total);
}
