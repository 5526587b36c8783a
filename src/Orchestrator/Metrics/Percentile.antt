-- ===== src/Orchestrator/Metrics/Percentile.antt =====
-- `get_percentile` against the list of the latencies that were observed.
use dds.Base.{Bool, ℕ, ◌≤◌, ◌≡◌, true}

-- What has reached the target stays there when more is counted.
abbrev pub StaysReached : (ℕ → Bool) → Type 0
StaysReached reached = (m n : ℕ) → m ≤ n → reached m ≡ true → reached n ≡ true
