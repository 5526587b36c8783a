-- ===== src/Orchestrator/Executor.antt =====
-- orchestrator/executor.py, class _BaseExecutor: what the two protocols share.
-- `asyncio.gather` runs its sends at once; here they run in the order of the list, and every answer
-- is collected before any is looked at, as in the code.
pub mod Checks
pub mod Traces
pub mod Settled
pub mod Delivery
pub mod Bounds
pub mod Answered
use dds.Base.{
  ℕ, zero, suc, ◌+◌, ◌*◌, String, ◌==◌, Bool, true, false, Option, none, some, List, [], ◌∷◌, leb,
  ltb, if◌then◌else◌,
}
use dds.Base.Dict.{Dict, lookup, insert}
use dds.Orchestrator.Value.{Context}
use dds.Orchestrator.Definition.{Step}
use dds.Orchestrator.Transport.{
  Reply, fields, Response, returned, timed_out, raised, Env, is_event, payload_of,
}
use dds.Orchestrator.Breaker.{is_open}
use dds.Orchestrator.System.{Attempt, answer, error, Effect, Sys, write_to_dlq, succeeded, failed}

-- MAX_VERIFIED_RETRIES
abbrev pub max_verified_retries : ℕ
max_verified_retries = 15

-- What `execute` returns: {"status": "success"}, or {"status": "failed", "error": …}.
pub data Outcome : Type 0 where
  success : Outcome
  failure : String → Outcome

-- _FAILURE_REASON_PRIORITY
abbrev priorities : Dict ℕ
priorities =
    ("", 0)
    ∷ ("failed", 0)
    ∷ ("unknown", 0)
    ∷ ("insufficient_resources", 0)
    ∷ ("timeout", 3)
    ∷ ("insufficient_stock", 2)
    ∷ ("insufficient_credit", 2)
    ∷ []

abbrev priority_or : ℕ → Option ℕ → ℕ
priority_or d none = d
priority_or d (some n) = n

-- _FAILURE_REASON_PRIORITY.get(reason, 1 if reason else 0)
unfoldable pub priority : String → ℕ
unfolding lookup
priority reason = priority_or (if reason == "" then 0 else 1) (lookup reason priorities)

unfoldable pub choose_failure_reason : String → String → String
choose_failure_reason current candidate =
    if ltb (priority current) (priority candidate) then candidate else current

-- a timeout becomes a failed reply, and any other exception goes on
abbrev pub attempt_of : Response → Attempt
attempt_of (returned reply) = answer reply
attempt_of timed_out = answer (fields (some "failed") (some "timeout"))
attempt_of (raised e) = error e

abbrev pub reply_of : Attempt → Reply
reply_of (answer reply) = reply
reply_of (error e) = fields (some "failed") (some e)

abbrev pub replies : List (Step × Attempt) → List (Step × Reply)
replies [] = []
replies ((step, attempt) ∷ rest) = (step, reply_of attempt) ∷ replies rest

-- min(backoff, 5.0) seconds
abbrev pub capped : ℕ → ℕ
capped backoff = if leb backoff 5000 then backoff else 5000

module _ {W : Type 0} (env : Env W) where
  -- `_check_circuit_breakers`: the first step whose breaker is open, if any. A breaker that is asked
  -- may change, and later ones are not asked.
  unfoldable pub check_circuit_breakers : List Step → Sys W → Option String × Sys W
  check_circuit_breakers [] s = (none, s)
  check_circuit_breakers (step ∷ steps) s = elim (lookup step.service s.breakers) [
    | none ↦ check_circuit_breakers steps s
    | some b ↦
        let (refused, b') = is_open (env.monotonic s.world) b in
        let s' : Sys W = record s { breakers = insert step.service b' s.breakers } in
        elim refused [ true ↦ (some step.service, s') | false ↦ check_circuit_breakers steps s' ]
  ]

  -- `_try_step`
  unfoldable pub try_step : Step → String → String → Context → Sys W → Attempt × Sys W
  try_step step id action context s =
      let (response, w') =
        env.send
          (record {
            service = step.service;
            action = action;
            payload = payload_of step id action context;
          })
          s.world in
      let attempt = attempt_of response in
      (attempt, record s { trace = Effect.sent step.name action attempt ∷ s.trace; world = w' })

  -- asyncio.gather over the steps, with return_exceptions, zipped with the steps
  unfoldable pub gather :
      String → String → Context → List Step → Sys W → List (Step × Attempt) × Sys W
  gather id action context [] s = ([], s)
  gather id action context (step ∷ steps) s =
      let (attempt, s') = try_step step id action context s in
      let (rest, s'') = gather id action context steps s' in ((step, attempt) ∷ rest, s'')

  -- `_broadcast`
  unfoldable pub broadcast :
      String → String → List Step → Context → Sys W → List (Step × Reply) × Sys W
  broadcast action id steps context s =
      let (results, s') = gather id action context steps s in (replies results, s')

  -- One look at the results of a round: the steps that must be tried again.
  unfoldable pub still_pending : String → List (Step × Attempt) → Sys W → List Step × Sys W
  still_pending expected [] s = ([], s)
  still_pending expected ((step, error e) ∷ rest) s =
      let (pending, s') = still_pending expected rest (failed env step.service s) in
      (step ∷ pending, s')
  still_pending expected ((step, answer reply) ∷ rest) s = elim (is_event expected reply) [
    | true ↦ still_pending expected rest (succeeded env step.service s)
    | false ↦ let (pending, s') = still_pending expected rest s in (step ∷ pending, s')
  ]

  -- one round: every pending step is sent the action, and the results are looked at
  unfoldable pub round : String → String → String → Context → List Step → Sys W → List Step × Sys W
  round action expected id context pending s =
      let (results, s') = gather id action context pending s in still_pending expected results s'

  -- if pending: await asyncio.sleep(min(backoff, max_backoff))
  abbrev pub pause : ℕ → List Step → Sys W → Sys W
  pause backoff [] s = s
  pause backoff (p ∷ ps) s = record s { world = env.sleep (capped backoff) s.world }

  -- the `while` of `_verified_action`, with the number of attempts that are left, the backoff and
  -- the number of attempts made; it ends with the steps that are pending and that number
  unfoldable pub rounds :
      String → String → String → Context → ℕ → ℕ → ℕ → List Step → Sys W → (List Step × ℕ) × Sys W
  rounds action expected id context left backoff made [] s = (([], made), s)
  rounds action expected id context zero backoff made (p ∷ ps) s = ((p ∷ ps, made), s)
  rounds action expected id context (suc left) backoff made (p ∷ ps) s =
      let (pending, s') = round action expected id context (p ∷ ps) s in
      rounds action expected id context left (2 * backoff) (made + 1) pending
        (pause backoff pending s')

  -- the steps that are still pending go to the dead letter queue
  unfoldable pub give_up : String → String → Context → ℕ → List Step → Sys W → Sys W
  give_up action id context made [] s = s
  give_up action id context made (step ∷ steps) s =
      give_up action id context made steps
        (write_to_dlq env id action step.name "max_retries_exhausted" made context s)

  -- `_verified_action`
  unfoldable pub verified_action : String → String → String → List Step → Context → Sys W → Sys W
  verified_action action expected id steps context s =
      let ((pending, made), s') =
        rounds action expected id context max_verified_retries 200 0 steps s in
      give_up action id context made pending s'
