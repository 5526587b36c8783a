-- ===== src/Orchestrator/Saga/Reasons.antt =====
-- Which failure reason a saga reports.
use dds.Base.{
  ◌≤◌, String, eq_iff, ◌≡◌, refl, Bool, true, false, not, ◌&&◌, ◌||◌, List, [], ◌∷◌, arith, ◌⊎◌,
  inl, inr, some, none,
}
use dds.Base.Dict.{lookup}
use dds.Orchestrator.Definition.{Step}
use dds.Orchestrator.Transport.{Reply, fields, other, Env, is_event, has_reason}
use dds.Orchestrator.System.{Sys}
use dds.Orchestrator.Executor.{priority, choose_failure_reason}
use dds.Orchestrator.Saga.{Tally, count_result, collect, start_tally, reason_of}

-- No reason has a higher priority than a timeout.
priority-le : (r : String) → priority r ≤ 3
unfolding priority
priority-le r = ground arith

priority-timeout : priority "timeout" ≡ 3
unfolding priority lookup
priority-timeout = refl

-- Only a timeout has that priority.
priority-eq-timeout : (r : String) → 3 ≤ priority r → r ≡ "timeout"
unfolding priority
priority-eq-timeout r h = ground (arith, eq_iff "timeout" r)

-- A timeout that has been met is kept, and a timeout replaces everything else.
choose_timeout :
    (current candidate : String)
    → (current ≡ "timeout") ⊎ (candidate ≡ "timeout")
    → choose_failure_reason current candidate ≡ "timeout"
unfolding choose_failure_reason
choose_timeout current candidate (inl e) =
    rw e (ground (arith, priority-timeout, priority-le candidate))
choose_timeout current candidate (inr e) =
    rw e (ground (arith, priority-timeout, priority-eq-timeout current))

-- Some step timed out.
abbrev timed_out_in : List (Step × Reply) → Bool
timed_out_in [] = false
timed_out_in ((step, result) ∷ results) =
    (not (is_event "executed" result) && has_reason "timeout" result) || timed_out_in results

reason_of_timeout : (r : Reply) → has_reason "timeout" r ≡ true → reason_of r ≡ "timeout"
unfolding has_reason reason_of
reason_of_timeout (fields event (some r)) h = (eq_iff r "timeout").0 h
reason_of_timeout (fields event none) h = cc
reason_of_timeout (other s) h = cc

module _ {W : Type 0} (env : Env W) where
  collect_timeout :
      (results : List (Step × Reply)) (t : Tally) (s : Sys W)
      → (t.failure_reason ≡ "timeout") ⊎ (timed_out_in results ≡ true)
      → (collect env results t s).0.failure_reason ≡ "timeout"
  unfolding collect
  collect_timeout [] t s (inl h) = h
  collect_timeout [] t s (inr h) = cc
  collect_timeout ((step, result) ∷ results) t s h =
      collect_timeout results (count_result step result t) _ (
        ground
          (arith, h, choose_timeout t.failure_reason (reason_of result), reason_of_timeout result))

  -- If any step of a saga timed out, the loop over the results ends with the failure reason "timeout",
  -- wherever that step stands and whatever reasons the others gave.
  pub timeout_is_reported :
      (results : List (Step × Reply)) (s : Sys W)
      → timed_out_in results ≡ true
      → (collect env results start_tally s).0.failure_reason ≡ "timeout"
  timeout_is_reported results s h = collect_timeout results start_tally s (inr h)
