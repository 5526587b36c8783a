-- ===== src/Orchestrator/Recovery.antt =====
-- orchestrator/recovery.py, class RecoveryWorker: the recovery of sagas.
pub mod Traces
pub mod Decisions
pub mod Resolution
pub mod Lost
pub mod Worker
use dds.Base.{
  ℕ, zero, suc, ◌+◌, ◌-◌, ◌*◌, String, ◌==◌, Bool, true, false, Option, none, some, List, [], ◌∷◌,
  leb, ltb, contains, reverse, if◌then◌else◌,
}
use dds.Base.Dict.{Dict, lookup, insert}
use dds.Orchestrator.Value.{Context, Value, get_text}
use dds.Orchestrator.Definition.{Step, TransactionDefinition}
use dds.Orchestrator.Transport.{Response, returned, timed_out, raised, Env, is_event, update, build}
use dds.Orchestrator.Wal.{Incomplete, get_incomplete_sagas}
use dds.Orchestrator.Wal
use dds.Orchestrator.System.{Attempt, answer, error, Effect, Sys, write_to_dlq}

-- MAX_RECOVERY_RETRIES
abbrev pub max_recovery_retries : ℕ
max_recovery_retries = 30

-- ORPHAN_SAGA_TIMEOUT, in milliseconds
abbrev pub orphan_saga_timeout : ℕ
orphan_saga_timeout = 120000

-- every exception is caught, a timeout too
abbrev pub attempt_of : Response → Attempt
attempt_of (returned reply) = answer reply
attempt_of timed_out = error ""
attempt_of (raised e) = error e

abbrev pub acked : String → Attempt → Bool
acked expected (answer reply) = is_event expected reply
acked expected (error e) = false

-- the steps whose answer is not the expected event
unfoldable pub unacked : String → List (Step × Attempt) → List Step
unacked expected [] = []
unacked expected ((step, attempt) ∷ rest) =
    if acked expected attempt then unacked expected rest else step ∷ unacked expected rest

-- min(backoff, 60.0) seconds
abbrev pub capped : ℕ → ℕ
capped backoff = if leb backoff 60000 then backoff else 60000

-- data.get("completed_steps"), where an empty list counts as none
unfoldable pub completed_names : Context → List String
completed_names d = elim (lookup "completed_steps" d) [
  | none ↦ []
  | some v ↦ elim v [ Value.names names ↦ names | _ ↦ [] ]
]

unfoldable pub named_in : List String → List Step → List Step
named_in names [] = []
named_in names (step ∷ steps) =
    if contains step.name names then step ∷ named_in names steps else named_in names steps

-- the steps to compensate: those that are named, or all if none is
abbrev pub steps_to_compensate : List String → List Step → List Step
steps_to_compensate [] steps = steps
steps_to_compensate (n ∷ names) steps = named_in (n ∷ names) steps

-- what `_recover_saga` does for a last state
pub data Action : Type 0 where
  abort commit compensate unknown : Action

unfoldable pub action_for : String → Action
action_for step =
    if step == "PREPARING"
    then abort
    else if step == "COMMITTING"
    then commit
    else if step == "ABORTING"
    then abort
    else if step == "EXECUTING"
    then compensate
    else if step == "COMPENSATING"
    then compensate
    else unknown

-- data = state.get("data", {}) or {}
abbrev pub or_empty : Option Context → Context
or_empty none = []
or_empty (some d) = d

-- `age > ORPHAN_SAGA_TIMEOUT`, where a missing creation time counts as no age
abbrev pub is_orphan : ℕ → ℕ → Bool
is_orphan now created_at =
    if ltb 0 created_at then ltb orphan_saga_timeout (now - created_at) else false

module _ {W : Type 0} (env : Env W) (definitions : Dict TransactionDefinition) where
  -- self.wal.log(saga_id, step), with no data
  unfoldable pub log_end : String → String → Sys W → Sys W
  log_end id step s = record s {
    wal = Wal.log id step none (env.wall s.world) s.wal;
    trace = Effect.logged step ∷ s.trace;
  }

  -- one send, as `_try_abort`, `_try_commit` and the loop of `_compensate_all` make it
  unfoldable pub try_action : String → String → Context → Step → Sys W → Attempt × Sys W
  try_action action id d step s =
      let payload =
        update (("saga_id", Value.text id) ∷ ("action", Value.text action) ∷ [])
          (build step.payload_builder id action d) in
      let (response, w') =
        env.send (record { service = step.service; action = action; payload = payload }) s.world in
      let attempt = attempt_of response in
      (attempt, record s { trace = Effect.sent step.name action attempt ∷ s.trace; world = w' })

  unfoldable pub try_all :
      String → String → Context → List Step → Sys W → List (Step × Attempt) × Sys W
  try_all action id d [] s = ([], s)
  try_all action id d (step ∷ steps) s =
      let (attempt, s') = try_action action id d step s in
      let (rest, s'') = try_all action id d steps s' in ((step, attempt) ∷ rest, s'')

  abbrev pub pause : ℕ → List Step → Sys W → Sys W
  pause backoff [] s = s
  pause backoff (p ∷ ps) s = record s { world = env.sleep (capped backoff) s.world }

  -- the `while` of `_abort_all` and `_commit_all`, with the attempts left, the backoff and the
  -- attempts made
  unfoldable pub retry :
      String → String → String → Context → ℕ → ℕ → ℕ → List Step → Sys W → (List Step × ℕ) × Sys W
  retry action expected id d left backoff made [] s = (([], made), s)
  retry action expected id d zero backoff made (p ∷ ps) s = ((p ∷ ps, made), s)
  retry action expected id d (suc left) backoff made (p ∷ ps) s =
      let (results, s') = try_all action id d (p ∷ ps) s in
      let pending = unacked expected results in
      retry action expected id d left (2 * backoff) (made + 1) pending (pause backoff pending s')

  unfoldable pub give_up : String → String → Context → ℕ → List Step → Sys W → Sys W
  give_up action id d made [] s = s
  give_up action id d made (step ∷ steps) s =
      give_up action id d made steps
        (write_to_dlq env id action step.name "recovery_retries_exhausted" made d s)

  -- the loop and the dead letters, whose context is `dead`
  unfoldable pub finish : String → String → String → Context → Context → List Step → Sys W → Sys W
  finish action expected id d dead steps s =
      let ((pending, made), s') = retry action expected id d max_recovery_retries 500 0 steps s in
      give_up action id dead made pending s'

  -- definitions.get(data.get("tx_name", ""))
  abbrev pub definition_of : Context → Option TransactionDefinition
  definition_of d = lookup (get_text "tx_name" "" d) definitions

  abbrev send_each : String → String → Context → List Step → Sys W → Sys W
  send_each action id d steps s = (try_all action id d steps s).1

  -- `_send_action_to_all`
  unfoldable pub send_action_to_all : String → String → Context → Sys W → Sys W
  send_action_to_all action id d s = elim (definition_of d) [
    | none ↦ s
    | some tx ↦ send_each action id d tx.steps s
  ]

  unfoldable pub abort_all : String → Context → Sys W → Sys W
  abort_all id d s = elim (definition_of d) [
    | none ↦ log_end id "FAILED" (send_action_to_all "abort" id d s)
    | some tx ↦ log_end id "FAILED" (finish "abort" "aborted" id d d tx.steps s)
  ]

  unfoldable pub commit_all : String → Context → Sys W → Sys W
  commit_all id d s = elim (definition_of d) [
    | none ↦ log_end id "COMPLETED" (send_action_to_all "commit" id d s)
    | some tx ↦ log_end id "COMPLETED" (
        finish "commit" "committed" id d (insert "requires_manual_resolution" Value.flag d) tx.steps
          s)
  ]

  -- the loop of `_compensate_all` over the steps, each with its own attempts
  unfoldable pub compensate_each : String → Context → List Step → Sys W → Sys W
  compensate_each id d [] s = s
  compensate_each id d (step ∷ steps) s =
      compensate_each id d steps (finish "compensate" "compensated" id d d (step ∷ []) s)

  unfoldable pub compensate_all : String → Context → Sys W → Sys W
  compensate_all id d s = elim (definition_of d) [
    | none ↦ log_end id "FAILED" (send_action_to_all "compensate" id d s)
    | some tx ↦
        log_end id "FAILED"
          (compensate_each id d (reverse (steps_to_compensate (completed_names d) tx.steps)) s)
  ]

  -- `none` is the exception of `data.get` on None, which is raised before anything is done
  abbrev pub perform : Action → String → Option Context → Sys W → Option (Sys W)
  perform unknown id d s = some (log_end id "FAILED" s)
  perform _ id none s = none
  perform abort id (some d) s = some (abort_all id d s)
  perform commit id (some d) s = some (commit_all id d s)
  perform compensate id (some d) s = some (compensate_all id d s)

  -- `_recover_saga`
  unfoldable pub recover_saga : String → String → Option Context → Sys W → Option (Sys W)
  recover_saga id step d s = perform (action_for step) id d s

  -- the `except` of `recover_incomplete_sagas`
  abbrev pub or_failed : String → Sys W → Option (Sys W) → Sys W
  or_failed id s none = log_end id "FAILED" s
  or_failed id s (some s') = s'

  unfoldable pub recover_each : Dict Incomplete → Sys W → Sys W
  recover_each [] s = s
  recover_each ((id, state) ∷ rest) s =
      recover_each rest (or_failed id s (recover_saga id state.last_step state.data_field s))

  -- `recover_incomplete_sagas`, over the members that SSCAN returns
  unfoldable pub recover_incomplete_sagas : List String → Sys W → Sys W
  recover_incomplete_sagas ids s =
      let (incomplete, wal) = get_incomplete_sagas ids s.wal in
      recover_each incomplete (record s { wal = wal })

  unfoldable pub abort_each : ℕ → Dict Incomplete → Sys W → Sys W
  abort_each now [] s = s
  abort_each now ((id, state) ∷ rest) s = abort_each now rest (
      if is_orphan now state.created_at
      then (if state.last_step == "COMMITTING"
          then commit_all id (or_empty state.data_field) s
          else abort_all id (or_empty state.data_field) s)
      else s)

  -- `_abort_orphaned_sagas`
  unfoldable pub abort_orphaned_sagas : List String → Sys W → Sys W
  abort_orphaned_sagas ids s =
      let (incomplete, wal) = get_incomplete_sagas ids s.wal in
      abort_each (env.wall s.world) incomplete (record s { wal = wal })
