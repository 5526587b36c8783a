-- ===== src/Orchestrator/Metrics.antt =====
-- orchestrator/metrics.py. Durations are whole milliseconds, and a rate is a pair of counts, so the tests on
-- rates are tests on products: one division of small whole numbers, rounded once, compares with 0.10 and 0.05
-- as the fraction does. The target of a percentile is rounded twice, so the test against it is a parameter.
pub mod Histogram
pub mod Percentile
pub mod Window
pub mod Exposition
use dds.Base.{
  ℕ, suc, zero, ◌+◌, ◌*◌, ◌-◌, String, ◌==◌, Bool, true, false, List, [], ◌∷◌, ◌++◌, ◌&&◌, length,
  leb, ltb, if◌then◌else◌,
}

-- BUCKETS_MS
abbrev pub buckets_ms : List ℕ
buckets_ms = 5 ∷ 10 ∷ 25 ∷ 50 ∷ 100 ∷ 250 ∷ 500 ∷ 1000 ∷ 2500 ∷ 5000 ∷ 10000 ∷ []

-- `counts` is the dict from a bucket to its count, in the order of the buckets.
pub record LatencyHistogram : Type 0 where
  pub counts : List (ℕ × ℕ)
  pub overflow : ℕ
  pub sum_ms : ℕ
  pub total : ℕ

unfoldable pub zero_counts : List ℕ → List (ℕ × ℕ)
zero_counts [] = []
zero_counts (b ∷ bs) = (b, 0) ∷ zero_counts bs

abbrev pub no_latencies : LatencyHistogram
no_latencies = record { counts = zero_counts buckets_ms; overflow = 0; sum_ms = 0; total = 0 }

-- whether some bucket takes the latency
unfoldable pub fits : ℕ → List (ℕ × ℕ) → Bool
fits ms [] = false
fits ms ((bucket, count) ∷ rest) = let later = fits ms rest in if leb ms bucket then true else later

-- the first bucket that takes the latency counts it
unfoldable pub bump : ℕ → List (ℕ × ℕ) → List (ℕ × ℕ)
bump ms [] = []
bump ms ((bucket, count) ∷ rest) =
    let later = bump ms rest in
    if leb ms bucket then (bucket, count + 1) ∷ rest else (bucket, count) ∷ later

-- LatencyHistogram.observe
unfoldable pub observe : ℕ → LatencyHistogram → LatencyHistogram
observe ms h = record {
  counts = bump ms h.counts;
  overflow = if fits ms h.counts then h.overflow else h.overflow + 1;
  sum_ms = h.sum_ms + ms;
  total = h.total + 1;
}

-- the loop of `get_percentile`, where `reached` is its test on floats, cumulative >= total * (p / 100.0)
unfoldable pub percentile_from : (ℕ → Bool) → ℕ → List (ℕ × ℕ) → ℕ
percentile_from reached cumulative [] = 10000
percentile_from reached cumulative ((bucket, count) ∷ rest) =
    let later = percentile_from reached (cumulative + count) rest in
    if reached (cumulative + count) then bucket else later

-- LatencyHistogram.get_percentile, where `reached` has the total and what is counted so far
unfoldable pub histogram_percentile : (ℕ → ℕ → Bool) → LatencyHistogram → ℕ
histogram_percentile reached h = elim h.total [
  | zero ↦ 5000
  | suc n ↦ percentile_from (reached (suc n)) 0 h.counts
]

-- An entry of the sliding window.
pub record Sample : Type 0 where
  pub success : Bool
  pub protocol : String
  pub timestamp : ℕ

pub record MetricsCollector : Type 0 where
  pub window_size : ℕ
  pub results : List Sample
  pub current_protocol : String
  pub total_success : ℕ
  pub total_failure : ℕ
  pub latency_2pc : LatencyHistogram
  pub latency_saga : LatencyHistogram

abbrev pub new_metrics : ℕ → MetricsCollector
new_metrics size = record {
  window_size = size;
  results = [];
  current_protocol = "2pc";
  total_success = 0;
  total_failure = 0;
  latency_2pc = no_latencies;
  latency_saga = no_latencies;
}

-- a deque with `maxlen` drops its oldest entries
unfoldable pub trim : ℕ → List Sample → List Sample
trim size [] = []
trim size (x ∷ xs) = if ltb size (length (x ∷ xs)) then trim size xs else x ∷ xs

-- MetricsCollector.record
unfoldable pub record_result : Bool → String → ℕ → ℕ → MetricsCollector → MetricsCollector
record_result success protocol duration now m = record m {
  results =
      trim m.window_size
        (m.results ++ record { success = success; protocol = protocol; timestamp = now } ∷ []);
  total_success = if success then m.total_success + 1 else m.total_success;
  total_failure = if success then m.total_failure else m.total_failure + 1;
  latency_2pc =
      if ltb 0 duration
      then (if protocol == "2pc" then observe duration m.latency_2pc else m.latency_2pc)
      else m.latency_2pc;
  latency_saga =
      if ltb 0 duration
      then (if protocol == "2pc" then m.latency_saga else observe duration m.latency_saga)
      else m.latency_saga;
}

-- MetricsCollector.get_percentile
unfoldable pub get_percentile : (ℕ → ℕ → Bool) → MetricsCollector → ℕ
get_percentile reached m =
    histogram_percentile reached
      (if m.current_protocol == "saga" then m.latency_saga else m.latency_2pc)

unfoldable pub failures : List Sample → ℕ
failures [] = 0
failures (x ∷ xs) = if x.success then failures xs else failures xs + 1

-- sliding_abort_rate() >= 0.10, where an empty window has the rate 0
unfoldable pub rate_at_least_10 : MetricsCollector → Bool
rate_at_least_10 m = ltb 0 (length m.results) && leb (length m.results) (10 * failures m.results)

-- sliding_abort_rate() <= 0.05
unfoldable pub rate_at_most_5 : MetricsCollector → Bool
rate_at_most_5 m = leb (20 * failures m.results) (length m.results)
