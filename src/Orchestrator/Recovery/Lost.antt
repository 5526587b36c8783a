-- ===== src/Orchestrator/Recovery/Lost.antt =====
-- Sagas that the recovery worker ends without undoing them.
use dds.Base.{
  ℕ, ◌+◌, String, ◌==◌, ◌≡◌, refl, ap, Bool, true, false, none, some, List, [], ◌∷◌, Option-cases,
  inl, inr, if◌then◌else◌,
}
use dds.Base.Dict.{Dict, lookup, insert, lookup-insert}
use dds.Orchestrator.Value.{Context, Value, get_text}
use dds.Orchestrator.Definition.{Step, TransactionDefinition}
use dds.Orchestrator.Transport.{Env}
use dds.Orchestrator.Wal.{Incomplete}
use dds.Orchestrator.System.{Effect, Sys}
use dds.Orchestrator.Saga.{step_names}
use dds.Orchestrator.Recovery.{
  log_end, finish, definition_of, abort_all, commit_all, compensate_all, action_for, recover_saga,
  abort_each, abort_orphaned_sagas, is_orphan, or_empty,
}
use dds.Orchestrator.Recovery.Traces.{finish-Keeps}
use dds.Orchestrator.Recovery.Decisions.{send_none}

-- The data that `SagaExecutor.execute` logs with COMPENSATING.
abbrev pub compensating_data : Context → List Step → Context
compensating_data context completed =
    insert "completed_steps" (Value.names (step_names completed)) context

-- The number of compensate commands that were sent.
unfoldable pub compensations : List Effect → ℕ
compensations [] = 0
compensations (Effect.sent name action a ∷ t) =
    if action == "compensate" then compensations t + 1 else compensations t
compensations (e ∷ t) = compensations t

module _ {W : Type 0} (env : Env W) (definitions : Dict TransactionDefinition) where
  abort_keeps :
      (n : ℕ) (id : String) (d dead : Context) (steps : List Step) (s : Sys W)
      → compensations s.trace ≡ n
      → compensations (finish env definitions "abort" "aborted" id d dead steps s).trace ≡ n
  unfolding compensations
  abort_keeps n id d dead steps s =
      (finish-Keeps env definitions "abort" (λ t. compensations t ≡ n) (λ t name a p. p)
        (λ t name written p. p) id "aborted" d dead steps s).trace

  commit_keeps :
      (n : ℕ) (id : String) (d dead : Context) (steps : List Step) (s : Sys W)
      → compensations s.trace ≡ n
      → compensations (finish env definitions "commit" "committed" id d dead steps s).trace ≡ n
  unfolding compensations
  commit_keeps n id d dead steps s =
      (finish-Keeps env definitions "commit" (λ t. compensations t ≡ n) (λ t name a p. p)
        (λ t name written p. p) id "committed" d dead steps s).trace

  log_end_keeps :
      (n : ℕ) (id step : String) (s : Sys W)
      → compensations s.trace ≡ n
      → compensations (log_end env definitions id step s).trace ≡ n
  unfolding log_end compensations
  log_end_keeps n id step s h = h

  abort_all_keeps :
      (n : ℕ) (id : String) (d : Context) (s : Sys W)
      → compensations s.trace ≡ n
      → compensations (abort_all env definitions id d s).trace ≡ n
  unfolding abort_all
  abort_all_keeps n id d s h = elim (Option-cases (definition_of env definitions d)) [
    | inl gone ↦
        rw (gone, abort_all)
          (rw (send_none env definitions id "abort" d s gone) (log_end_keeps n id "FAILED" s h))
    | inr (tx, e) ↦
        rw (e, abort_all) (log_end_keeps n id "FAILED" _ (abort_keeps n id d d tx.steps s h))
  ]

  commit_all_keeps :
      (n : ℕ) (id : String) (d : Context) (s : Sys W)
      → compensations s.trace ≡ n
      → compensations (commit_all env definitions id d s).trace ≡ n
  unfolding commit_all
  commit_all_keeps n id d s h = elim (Option-cases (definition_of env definitions d)) [
    | inl gone ↦
        rw (gone, commit_all)
          (rw (send_none env definitions id "commit" d s gone) (log_end_keeps n id "COMPLETED" s h))
    | inr (tx, e) ↦
        rw (e, commit_all) (log_end_keeps n id "COMPLETED" _ (commit_keeps n id d _ tx.steps s h))
  ]

  orphan_keeps :
      (n : ℕ) (old committing : Bool) (id : String) (d : Context) (s : Sys W)
      → compensations s.trace ≡ n
      → compensations
          (if old
            then (if committing
                then commit_all env definitions id d s
                else abort_all env definitions id d s)
            else s).trace
        ≡ n
  orphan_keeps n false committing id d s h = h
  orphan_keeps n true true id d s h = commit_all_keeps n id d s h
  orphan_keeps n true false id d s h = abort_all_keeps n id d s h

  abort_each_keeps :
      (n now : ℕ) (found : Dict Incomplete) (s : Sys W)
      → compensations s.trace ≡ n
      → compensations (abort_each env definitions now found s).trace ≡ n
  unfolding abort_each
  abort_each_keeps n now [] s h = h
  abort_each_keeps n now ((id, state) ∷ rest) s h = abort_each_keeps n now rest _ (
      orphan_keeps n (is_orphan now state.created_at) (state.last_step == "COMMITTING") id
        (or_empty state.data_field) s h)

  undefined_here :
      (context : Context) (completed : List Step)
      → lookup "tx_name" context ≡ none
      → lookup "" definitions ≡ none
      → definition_of env definitions (compensating_data context completed) ≡ none
  unfolding get_text
  undefined_here context completed unnamed undefined =
      rw (lookup-insert "completed_steps" "tx_name", unnamed) undefined

  compensate_none :
      (id : String) (d : Context) (s : Sys W)
      → definition_of env definitions d ≡ none
      → compensate_all env definitions id d s ≡ log_end env definitions id "FAILED" s
  unfolding compensate_all
  compensate_none id d s gone =
      rw (gone, compensate_all) (rw (send_none env definitions id "compensate" d s gone) refl)

  -- A saga that was interrupted while compensating is recovered without a command to any service, and only
  -- FAILED is logged: with the data that was logged with COMPENSATING, from a context that does not name the
  -- transaction itself, and with no transaction of the empty name.
  pub compensation_is_lost :
      (id : String) (context : Context) (completed : List Step) (s : Sys W)
      → lookup "tx_name" context ≡ none
      → lookup "" definitions ≡ none
      → recover_saga env definitions id "COMPENSATING"
          (some (compensating_data context completed))
          s
        ≡ some (log_end env definitions id "FAILED" s)
  unfolding recover_saga action_for
  compensation_is_lost id context completed s unnamed undefined = ap some (
      compensate_none id (compensating_data context completed) s
        (undefined_here context completed unnamed undefined))

  -- Ending the orphaned sagas sends no compensation, whatever states they were left in.
  pub orphans_are_not_compensated :
      (ids : List String) (s : Sys W)
      → compensations (abort_orphaned_sagas env definitions ids s).trace ≡ compensations s.trace
  unfolding abort_orphaned_sagas
  orphans_are_not_compensated ids s = abort_each_keeps _ _ _ _ refl
