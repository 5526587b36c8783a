-- ===== src/Orchestrator/Metrics/Exposition.antt =====
-- orchestrator/metrics.py, `prometheus_lines`, and the `metrics` endpoints of the three services. A line is
-- a value that stands for its text: the number of a bucket stands for its text in seconds.
pub mod Counts
use dds.Base.{
  ℕ, ◌+◌, ◌≤◌, ◌≡◌, refl, ap, ◌∙◌, String, ◌==◌, Bool, true, false, Option, none, some, List, [],
  ◌∷◌, ◌++◌, length, arith, leb, Bool-cases, inl, inr, if◌then◌else◌,
}
use dds.Base.Dict.{Dict}
use dds.Orchestrator.Metrics.{
  LatencyHistogram, MetricsCollector, failures, no_latencies, observe, bump, fits,
}
use dds.Orchestrator.Metrics.Histogram.{
  observe_all, at_most, cumulative, cumulative-above, cumulative-eq-at_most, has_bucket,
  has_bucket-above, Rising, is_bucket, total-observe_all, observe_all-HasBucket,
  no_latencies-Rising,
}

-- The two comments on a metric, HELP and TYPE, an empty line, a bucket of a histogram (the last one has no
-- bound), its sum in milliseconds and its count, or another sample: its name, its labels and its values, a rate
-- as two counts.
pub data Line : Type 0 where
  help empty : Line
  bucket : String → String → Option ℕ → ℕ → Line
  sum count : String → String → ℕ → Line
  sample : String → String → ℕ → Line
  rate : String → ℕ → ℕ → Line

-- what the loop has counted in the end
unfoldable pub total_count : List (ℕ × ℕ) → ℕ
total_count [] = 0
total_count ((ms, n) ∷ rest) = n + total_count rest

module _ (metric_name labels : String) where
  -- the loop over the buckets, with what was counted so far
  unfoldable pub bucket_lines : ℕ → List (ℕ × ℕ) → List Line
  bucket_lines counted [] = []
  bucket_lines counted ((ms, n) ∷ rest) =
      Line.bucket metric_name labels (some ms) (counted + n) ∷ bucket_lines (counted + n) rest

  -- prometheus_lines
  unfoldable pub prometheus_lines : LatencyHistogram → List Line
  prometheus_lines h =
      let total = total_count h.counts + h.overflow in
      bucket_lines 0 h.counts
      ++ Line.bucket metric_name labels none total
        ∷ Line.sum metric_name labels h.sum_ms
        ∷ Line.count metric_name labels total
        ∷ []

-- order/app.py, metrics
unfoldable pub order_metrics : Bool → MetricsCollector → List Line
order_metrics is_leader m =
    Line.help
    ∷ Line.sample "saga_total" "result=\"success\"" m.total_success
    ∷ Line.sample "saga_total" "result=\"failure\"" m.total_failure
    ∷ Line.empty
    ∷ Line.help
    ∷ Line.rate "saga_abort_rate" (failures m.results) (length m.results)
    ∷ Line.empty
    ∷ Line.help
    ∷ Line.sample "saga_current_protocol" m.current_protocol 1
    ∷ Line.empty
    ∷ Line.help
    ∷ Line.sample "leader_status" "" (if is_leader then 1 else 0)
    ∷ Line.empty
    ∷ Line.help
    ∷ (prometheus_lines "checkout_duration_seconds" "protocol=\"2pc\"" m.latency_2pc
        ++ prometheus_lines "checkout_duration_seconds" "protocol=\"saga\"" m.latency_saga)

-- the counters of a service: the action, and its successes and failures
unfoldable pub counter_lines : String → Dict (ℕ × ℕ) → List Line
counter_lines metric_name [] = []
counter_lines metric_name ((action, (successes, failed)) ∷ rest) =
    Line.sample metric_name action successes
    ∷ Line.sample metric_name action failed
    ∷ counter_lines metric_name rest

unfoldable pub latency_lines : String → Dict LatencyHistogram → List Line
latency_lines metric_name [] = []
latency_lines metric_name ((action, h) ∷ rest) =
    prometheus_lines metric_name action h ++ latency_lines metric_name rest

-- stock/app.py and payment/app.py, metrics
unfoldable pub service_metrics : String → String → Dict (ℕ × ℕ) → Dict LatencyHistogram → List Line
service_metrics requests durations counts latencies =
    Line.help
    ∷ (counter_lines requests counts ++ Line.empty ∷ Line.help ∷ latency_lines durations latencies)
