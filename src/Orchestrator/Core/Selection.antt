-- ===== src/Orchestrator/Core/Selection.antt =====
-- The choice between the protocols by the abort rate.
use dds.Base.{
  ◌*◌, ◌≤◌, ◌<◌, String, eq_iff, ◌≡◌, ◌↔◌, refl, ap, sym, ◌∙◌, Bool, true, false, arith, length,
}
use dds.Orchestrator.Metrics.{MetricsCollector, rate_at_least_10, rate_at_most_5, failures}
use dds.Orchestrator.Core.{adapt, switch}

-- The two thresholds never both ask for a switch.
rates_apart : (m : MetricsCollector) → rate_at_least_10 m ≡ true → rate_at_most_5 m ≡ false
unfolding rate_at_least_10 rate_at_most_5
rates_apart m h = ground arith

switch-switch :
    (current : String) (high low : Bool)
    → (high ≡ true → low ≡ false)
    → switch (switch current high low) high low ≡ switch current high low
unfolding switch
switch-switch current true true h = cc (h refl)
switch-switch current true false h = ground arith
switch-switch current false true h = ground arith
switch-switch current false false h = ground arith

-- Choosing again over the same window chooses the same protocol: the choice does not flap.
pub adapt-adapt : (m : MetricsCollector) → adapt (adapt m) ≡ adapt m
adapt-adapt m =
    let same =
      switch-switch m.current_protocol (rate_at_least_10 m) (rate_at_most_5 m) (rates_apart m) in
    unfold adapt rate_at_least_10 rate_at_most_5 in ap (λ c. record m { current_protocol = c }) same

switch_2pc : (high low : Bool) → (switch "2pc" high low ≡ "saga") ↔ (high ≡ true)
unfolding switch
switch_2pc true low = (λ e. refl, λ e. refl)
switch_2pc false low = (λ e. cc ((eq_iff "2pc" "saga").1 e), λ e. cc)

switch_saga : (high low : Bool) → (switch "saga" high low ≡ "2pc") ↔ (low ≡ true)
unfolding switch
switch_saga high true = (λ e. refl, λ e. refl)
switch_saga high false = (λ e. cc ((eq_iff "saga" "2pc").1 e), λ e. cc)

high_iff :
    (m : MetricsCollector)
    → (rate_at_least_10 m ≡ true)
      ↔ ((0 < length m.results) × (length m.results ≤ 10 * failures m.results))
unfolding rate_at_least_10
high_iff m = (λ h. ground arith, λ h. ground arith)

low_iff :
    (m : MetricsCollector)
    → (rate_at_most_5 m ≡ true) ↔ (20 * failures m.results ≤ length m.results)
unfolding rate_at_most_5
low_iff m = (λ h. ground arith, λ h. ground arith)

-- Running 2PC, the choice is the saga exactly if the window is not empty and a tenth of it or more
-- failed.
pub adapt_to_saga :
    (m : MetricsCollector)
    → m.current_protocol ≡ "2pc"
    → ((adapt m).current_protocol ≡ "saga")
      ↔ ((0 < length m.results) × (length m.results ≤ 10 * failures m.results))
unfolding adapt
adapt_to_saga m e =
    let high = rate_at_least_10 m in
    let low = rate_at_most_5 m in
    let at_2pc = ap (λ c. switch c high low) e in
    (
      λ q. (high_iff m).0 ((switch_2pc high low).0 (sym at_2pc ∙ q)),
      λ q. at_2pc ∙ (switch_2pc high low).1 ((high_iff m).1 q),
    )

-- Running the saga, the choice is 2PC exactly if a twentieth of the window or less failed.
pub adapt_to_2pc :
    (m : MetricsCollector)
    → m.current_protocol ≡ "saga"
    → ((adapt m).current_protocol ≡ "2pc") ↔ (20 * failures m.results ≤ length m.results)
unfolding adapt
adapt_to_2pc m e =
    let high = rate_at_least_10 m in
    let low = rate_at_most_5 m in
    let at_saga = ap (λ c. switch c high low) e in
    (
      λ q. (low_iff m).0 ((switch_saga high low).0 (sym at_saga ∙ q)),
      λ q. at_saga ∙ (switch_saga high low).1 ((low_iff m).1 q),
    )
