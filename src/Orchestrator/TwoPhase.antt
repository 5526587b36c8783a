-- ===== src/Orchestrator/TwoPhase.antt =====
-- orchestrator/executor.py, class TwoPCExecutor.
pub mod Protocol
pub mod Answered
use Prim.Native.String.{◌++◌ as concat}
use dds.Base.{
  ℕ, String, ◌==◌, Bool, true, false, Option, none, some, List, [], ◌∷◌, ◌++◌, ◌&&◌, if◌then◌else◌,
}
use dds.Base.Dict.{insert}
use dds.Orchestrator.Value.{Context, Value}
use dds.Orchestrator.Definition.{Step, TransactionDefinition}
use dds.Orchestrator.Transport.{Reply, fields, other, Env, is_event, has_reason}
use dds.Orchestrator.System.{Sys, log, log_terminal, succeeded, failed}
use dds.Orchestrator.Executor.{
  Outcome, success, failure, check_circuit_breakers, broadcast, verified_action,
}

-- {**context, "protocol": protocol, "tx_name": tx_name}
abbrev pub tagged : String → String → Context → Context
tagged protocol tx_name context =
    insert "tx_name" (Value.text tx_name) (insert "protocol" (Value.text protocol) context)

-- f"service_{step.service}_unavailable"
unfoldable pub unavailable : String → String
unavailable service = concat (concat "service_" service) "_unavailable"

-- all(… == "prepared" for v in votes)
unfoldable pub all_prepared : List (Step × Reply) → Bool
all_prepared [] = true
all_prepared ((step, vote) ∷ votes) = is_event "prepared" vote && all_prepared votes

abbrev pub reason_or : String → Option String → String
reason_or d none = d
reason_or d (some reason) = reason

-- the reason of the first vote that is a dict with the event "failed"
unfoldable pub failure_reason : List (Step × Reply) → String
failure_reason [] = "insufficient_resources"
failure_reason ((step, other s) ∷ votes) = failure_reason votes
failure_reason ((step, fields event reason) ∷ votes) =
    let rest = failure_reason votes in
    if is_event "failed" (fields event reason)
    then reason_or "insufficient_resources" reason
    else rest

module _ {W : Type 0} (env : Env W) where
  -- the circuit breakers learn from the votes
  unfoldable pub record_votes : List (Step × Reply) → Sys W → Sys W
  record_votes [] s = s
  record_votes ((step, vote) ∷ votes) s = record_votes votes (
      if is_event "prepared" vote
      then succeeded env step.service s
      else if has_reason "timeout" vote
      then failed env step.service s
      else s)

  -- Phase 2: the decision is logged, carried out on every step, and logged as done
  unfoldable pub decide :
      String → Context → Context → List Step → List (Step × Reply) → Sys W → Outcome × Sys W
  decide id data_dict context steps votes s =
      if all_prepared votes
      then (
        success,
        log_terminal env id "COMPLETED" (
            verified_action env "commit" "committed" id steps context
              (log env id "COMMITTING" data_dict s)),
      )
      else (
        failure (failure_reason votes),
        log_terminal env id "FAILED" (
            verified_action env "abort" "aborted" id steps context
              (log env id "ABORTING" data_dict s)),
      )

  -- Phase 1, and the decision
  unfoldable pub vote : TransactionDefinition → String → Context → String → Sys W → Outcome × Sys W
  vote tx id context tx_name s =
      let data_dict = tagged "2pc" tx_name context in
      let (votes, s') =
        broadcast env "prepare" id tx.steps context (log env id "PREPARING" data_dict s) in
      decide id data_dict context tx.steps votes (record_votes votes s')

  abbrev pub unless_unavailable :
      Option String → TransactionDefinition → String → Context → String → Sys W → Outcome × Sys W
  unless_unavailable (some service) tx id context tx_name s =
      (failure (unavailable service), log_terminal env id "FAILED" s)
  unless_unavailable none tx id context tx_name s = vote tx id context tx_name s

  -- TwoPCExecutor.execute
  unfoldable pub execute :
      TransactionDefinition → String → Context → String → Sys W → Outcome × Sys W
  execute tx id context tx_name s =
      let (refused, s') = check_circuit_breakers env tx.steps s in
      unless_unavailable refused tx id context tx_name s'
