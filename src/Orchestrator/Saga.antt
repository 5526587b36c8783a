-- ===== src/Orchestrator/Saga.antt =====
-- orchestrator/executor.py, class SagaExecutor.
pub mod Automaton
pub mod Compensation
pub mod Protocol
pub mod Reasons
pub mod Answered
use dds.Base.{
  String, ◌==◌, Bool, true, false, Option, none, some, List, [], ◌∷◌, ◌++◌, reverse, map,
  if◌then◌else◌,
}
use dds.Base.Dict.{insert}
use dds.Orchestrator.Value.{Context, Value}
use dds.Orchestrator.Definition.{Step, TransactionDefinition}
use dds.Orchestrator.Transport.{Reply, fields, other, Env, is_event, has_reason}
use dds.Orchestrator.System.{Sys, log, log_terminal, succeeded, failed}
use dds.Orchestrator.Executor.{
  Outcome, success, failure, choose_failure_reason, check_circuit_breakers, broadcast,
  verified_action,
}
use dds.Orchestrator.TwoPhase.{tagged, unavailable, reason_or}

-- result.get("reason", "insufficient_resources") if isinstance(result, dict) else str(result)
unfoldable pub reason_of : Reply → String
reason_of (fields event reason) = reason_or "insufficient_resources" reason
reason_of (other s) = s

-- The variables of the loop over the results.
pub record Tally : Type 0 where
  pub completed_steps : List Step
  pub failure_reason : String
  pub all_succeeded : Bool

-- One result. A step that timed out counts as completed, since it may have been carried out.
abbrev pub count_result : Step → Reply → Tally → Tally
count_result step result t =
    if is_event "executed" result
    then record t { completed_steps = t.completed_steps ++ step ∷ [] }
    else record t {
      completed_steps =
          if has_reason "timeout" result then t.completed_steps ++ step ∷ [] else t.completed_steps;
      failure_reason = choose_failure_reason t.failure_reason (reason_of result);
      all_succeeded = false;
    }

abbrev pub step_names : List Step → List String
step_names = map (λ step. step.name)

abbrev pub start_tally : Tally
start_tally = record { completed_steps = []; failure_reason = ""; all_succeeded = true }

module _ {W : Type 0} (env : Env W) where
  abbrev learn : Step → Reply → Sys W → Sys W
  learn step result s =
      if is_event "executed" result
      then succeeded env step.service s
      else if has_reason "timeout" result
      then failed env step.service s
      else s

  -- the loop over the results
  unfoldable pub collect : List (Step × Reply) → Tally → Sys W → Tally × Sys W
  collect [] t s = (t, s)
  collect ((step, result) ∷ results) t s =
      collect results (count_result step result t) (learn step result s)

  -- `_verified_action` on each step by itself
  unfoldable pub compensate_each : String → Context → List Step → Sys W → Sys W
  compensate_each id context [] s = s
  compensate_each id context (step ∷ steps) s =
      compensate_each id context steps
        (verified_action env "compensate" "compensated" id (step ∷ []) context s)

  -- the end of a run: done, or compensation of the completed steps in reverse order
  unfoldable pub settle : String → Context → Tally → Sys W → Outcome × Sys W
  settle id context t s =
      if t.all_succeeded then (success, log_terminal env id "COMPLETED" s) else (
        failure t.failure_reason,
        log_terminal env id "FAILED" (
            compensate_each id context (reverse t.completed_steps) (
              log env id "COMPENSATING"
                (insert "completed_steps" (Value.names (step_names t.completed_steps)) context) s)),
      )

  unfoldable pub run : TransactionDefinition → String → Context → String → Sys W → Outcome × Sys W
  run tx id context tx_name s =
      let (results, s') =
        broadcast env "execute" id tx.steps context
          (log env id "EXECUTING" (tagged "saga" tx_name context) s) in
      let (t, s'') = collect results start_tally s' in settle id context t s''

  abbrev pub unless_unavailable :
      Option String → TransactionDefinition → String → Context → String → Sys W → Outcome × Sys W
  unless_unavailable (some service) tx id context tx_name s =
      (failure (unavailable service), log_terminal env id "FAILED" s)
  unless_unavailable none tx id context tx_name s = run tx id context tx_name s

  -- SagaExecutor.execute
  unfoldable pub execute :
      TransactionDefinition → String → Context → String → Sys W → Outcome × Sys W
  execute tx id context tx_name s =
      let (refused, s') = check_circuit_breakers env tx.steps s in
      unless_unavailable refused tx id context tx_name s'
