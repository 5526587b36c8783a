-- ===== src/Orchestrator/Recovery/Decisions.antt =====
-- A two-phase commit that is recovered ends as its log decided.
use dds.Base.{String, ◌≡◌, refl, Bool, true, false, none, some, List, Option-cases, inl, inr}
use dds.Base.Dict.{Dict}
use dds.Orchestrator.Value.{Context}
use dds.Orchestrator.Definition.{Step, TransactionDefinition}
use dds.Orchestrator.Transport.{Env}
use dds.Orchestrator.System.{Sys}
use dds.Orchestrator.TwoPhase.Protocol.{Phase, phase, advance}
use dds.Orchestrator.Recovery.{
  log_end, finish, definition_of, send_action_to_all, abort_all, commit_all, action_for,
  recover_saga,
}
use dds.Orchestrator.Recovery.Traces.{finish-Keeps}

-- the phase after the decision, and the state that it logs
abbrev pub decided : Bool → Phase
decided true = Phase.committing
decided false = Phase.aborting

abbrev pub decision : Bool → String
decision true = "COMMITTING"
decision false = "ABORTING"

module _ {W : Type 0} (env : Env W) (definitions : Dict TransactionDefinition) (id : String) where
  commit_phase :
      (d dead : Context) (steps : List Step) (s : Sys W)
      → phase s.trace ≡ Phase.committing
      → phase (finish env definitions "commit" "committed" id d dead steps s).trace
        ≡ Phase.committing
  unfolding phase advance
  commit_phase d dead steps s =
      (finish-Keeps env definitions "commit" (λ t. phase t ≡ Phase.committing) (λ t name a p. rw p)
        (λ t name written p. rw p) id "committed" d dead steps s).trace

  abort_phase :
      (d dead : Context) (steps : List Step) (s : Sys W)
      → phase s.trace ≡ Phase.aborting
      → phase (finish env definitions "abort" "aborted" id d dead steps s).trace ≡ Phase.aborting
  unfolding phase advance
  abort_phase d dead steps s =
      (finish-Keeps env definitions "abort" (λ t. phase t ≡ Phase.aborting) (λ t name a p. rw p)
        (λ t name written p. rw p) id "aborted" d dead steps s).trace

  completed_phase :
      (s : Sys W)
      → phase s.trace ≡ Phase.committing
      → phase (log_end env definitions id "COMPLETED" s).trace ≡ Phase.finished true
  unfolding log_end phase advance
  completed_phase s h = rw h

  failed_phase :
      (s : Sys W)
      → phase s.trace ≡ Phase.aborting
      → phase (log_end env definitions id "FAILED" s).trace ≡ Phase.finished false
  unfolding log_end phase advance
  failed_phase s h = rw h

  pub send_none :
      (action : String) (d : Context) (s : Sys W)
      → definition_of env definitions d ≡ none
      → send_action_to_all env definitions action id d s ≡ s
  unfolding send_action_to_all
  send_none action d s e = rw (e, send_action_to_all)

  commit_all-phase :
      (d : Context) (s : Sys W)
      → phase s.trace ≡ Phase.committing
      → phase (commit_all env definitions id d s).trace ≡ Phase.finished true
  unfolding commit_all
  commit_all-phase d s h = elim (Option-cases (definition_of env definitions d)) [
    | inl gone ↦ rw (gone, commit_all) (rw (send_none "commit" d s gone) (completed_phase s h))
    | inr (tx, e) ↦ rw (e, commit_all) (completed_phase _ (commit_phase d _ tx.steps s h))
  ]

  abort_all-phase :
      (d : Context) (s : Sys W)
      → phase s.trace ≡ Phase.aborting
      → phase (abort_all env definitions id d s).trace ≡ Phase.finished false
  unfolding abort_all
  abort_all-phase d s h = elim (Option-cases (definition_of env definitions d)) [
    | inl gone ↦ rw (gone, abort_all) (rw (send_none "abort" d s gone) (failed_phase s h))
    | inr (tx, e) ↦ rw (e, abort_all) (failed_phase _ (abort_phase d d tx.steps s h))
  ]

  -- A two-phase commit that was interrupted after its decision was logged, `agreed` or not, is recovered
  -- as decided: from COMMITTING only commits are sent and COMPLETED is logged, from ABORTING only aborts
  -- and FAILED, with or without a definition of the transaction.
  pub recovery_keeps_decision :
      (agreed : Bool) (d : Context) (s : Sys W)
      → phase s.trace ≡ decided agreed
      → (s' : Sys W) × (recover_saga env definitions id (decision agreed) (some d) s ≡ some s')
        × (phase s'.trace ≡ Phase.finished agreed)
  unfolding recover_saga action_for
  recovery_keeps_decision true d s h =
      (commit_all env definitions id d s, refl, commit_all-phase d s h)
  recovery_keeps_decision false d s h =
      (abort_all env definitions id d s, refl, abort_all-phase d s h)
