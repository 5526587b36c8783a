-- ===== src/Orchestrator/Metrics/Window.antt =====
-- The sliding window holds the latest results, and the totals count every result.
use dds.Base.{
  ℕ, ◌+◌, ◌≤◌, ◌<◌, ◌≡◌, refl, sym, ◌∙◌, ap, String, Bool, List, [], ◌∷◌, ◌++◌, arith, Bool-cases,
  inl, inr, length, length-append, ltb, if◌then◌else◌,
}
use mathlib.Core.List.{append_assoc, append-nil}
use dds.Orchestrator.Metrics.{Sample, MetricsCollector, new_metrics, trim, record_result, failures}

-- One call of `record`: success, protocol, duration and time.
pub record Outcome : Type 0 where
  pub success : Bool
  pub protocol : String
  pub duration : ℕ
  pub now : ℕ

abbrev pub sample_of : Outcome → Sample
sample_of o = record { success = o.success; protocol = o.protocol; timestamp = o.now }

unfoldable pub record_all : List Outcome → MetricsCollector → MetricsCollector
record_all [] m = m
record_all (o ∷ os) m = record_all os (record_result o.success o.protocol o.duration o.now m)

abbrev pub samples : List Outcome → List Sample
samples [] = []
samples (o ∷ os) = sample_of o ∷ samples os

trim_fits : (size : ℕ) (xs : List Sample) → length xs ≤ size → trim size xs ≡ xs
unfolding trim
trim_fits size [] h = refl
trim_fits size (x ∷ xs) h = ground arith

trim_over :
    (size : ℕ) (x : Sample) (xs : List Sample)
    → size < length (x ∷ xs)
    → trim size (x ∷ xs) ≡ trim size xs
unfolding trim
trim_over size x xs h = ground arith

length-trim : (size : ℕ) (xs : List Sample) → length (trim size xs) ≤ size
unfolding trim
length-trim size [] = omega arith
length-trim size (x ∷ xs) = ground (arith, length-trim size xs)

over_append :
    (size : ℕ) (x : Sample) (xs ys : List Sample)
    → size < length (x ∷ xs)
    → size < length (x ∷ (xs ++ ys))
over_append size x xs ys h = omega (arith, length-append xs ys)

-- Trimming what was trimmed before is trimming once.
trim-trim : (size : ℕ) (xs ys : List Sample) → trim size (trim size xs ++ ys) ≡ trim size (xs ++ ys)
trim-trim size [] ys = unfold trim in refl
trim-trim size (x ∷ xs) ys = elim (Bool-cases (ltb size (length (x ∷ xs)))) [
  | inl over ↦ rw (trim_over size x xs (ground arith)) (
      trim-trim size xs ys
      ∙ sym (trim_over size x (xs ++ ys) (over_append size x xs ys (ground arith))))
  | inr fits ↦ rw (trim_fits size (x ∷ xs) (ground arith)) refl
]

results-record_all :
    (os : List Outcome) (m : MetricsCollector)
    → m.results ≡ trim m.window_size m.results
    → (record_all os m).results ≡ trim m.window_size (m.results ++ samples os)
unfolding record_all
results-record_all [] m h = rw append-nil h
results-record_all (o ∷ os) m h =
    let m' = record_result o.success o.protocol o.duration o.now m in
    let step : m'.results ≡ trim m.window_size (m.results ++ sample_of o ∷ []) =
      unfold record_result in refl in
    let size : m'.window_size ≡ m.window_size = unfold record_result in refl in
    let kept : m'.results ≡ trim m'.window_size m'.results =
      rw (step, size) (sym (trim_fits _ _ (length-trim m.window_size _))) in
    results-record_all os m' kept
    ∙ rw (step, size)
        (trim-trim m.window_size (m.results ++ sample_of o ∷ []) (samples os)
          ∙ ap (trim m.window_size) (append_assoc m.results (sample_of o ∷ []) (samples os)))

totals-record_result :
    (o : Outcome) (m : MetricsCollector)
    → let m' = record_result o.success o.protocol o.duration o.now m in
      (m'.total_success + m'.total_failure ≡ m.total_success + m.total_failure + 1)
      × (m'.total_failure ≡ m.total_failure + (if o.success then 0 else 1))
unfolding record_result
totals-record_result o m = ground arith

totals-record_all :
    (os : List Outcome) (m : MetricsCollector)
    → let m' = record_all os m in
      (m'.total_success + m'.total_failure ≡ m.total_success + m.total_failure + length os)
      × (m'.total_failure ≡ m.total_failure + failures (samples os))
unfolding record_all failures
totals-record_all [] m = omega arith
totals-record_all (o ∷ os) m =
    let m' = record_result o.success o.protocol o.duration o.now m in
    let (sum, failed) = totals-record_all os m' in
    let (sum', failed') = totals-record_result o m in (omega arith, ground arith)

-- After any results, the window holds the latest of them, as many as fit, and the totals count them
-- all and the failures among them.
pub window_holds_latest :
    (size : ℕ) (os : List Outcome)
    → let m = record_all os (new_metrics size) in
      (m.results ≡ trim size (samples os))
      × (length m.results ≤ size)
      × (m.total_success + m.total_failure ≡ length os)
      × (m.total_failure ≡ failures (samples os))
window_holds_latest size os =
    let m = new_metrics size in
    let held = results-record_all os m (unfold trim in refl) in
    let (sum, failed) = totals-record_all os m in
    (held, rw held (length-trim size (samples os)), omega arith, omega arith)
