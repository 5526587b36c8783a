-- ===== src/Tests/Statistics.antt =====
-- The metrics at concrete inputs.
use dds.Base.{Bool, leb, ℕ, ◌*◌, ◌≡◌, refl, true, false, List, [], ◌∷◌}
use dds.Orchestrator.Metrics.{
  no_latencies, zero_counts, observe, bump, fits, percentile_from, histogram_percentile,
}
use dds.Orchestrator.Metrics.Histogram.{observe_all}
use dds.Orchestrator.Metrics.Window.{Outcome}

abbrev latencies : List ℕ
latencies = 7 ∷ 80 ∷ 81 ∷ 30000 ∷ []

-- the target as an exact fraction
abbrev reached : ℕ → ℕ → ℕ → Bool
reached p total cumulative = leb (total * p) (100 * cumulative)

median : histogram_percentile (reached 50) (observe_all latencies no_latencies) ≡ 100
unfolding histogram_percentile observe_all observe bump fits zero_counts percentile_from
median = refl

abbrev outcomes : List Outcome
outcomes =
    record { success = true; protocol = "2pc"; duration = 12; now = 100 }
    ∷ record { success = false; protocol = "2pc"; duration = 7000; now = 200 }
    ∷ record { success = true; protocol = "saga"; duration = 40; now = 300 }
    ∷ []
