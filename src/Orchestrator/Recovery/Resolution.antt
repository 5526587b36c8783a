-- ===== src/Orchestrator/Recovery/Resolution.antt =====
-- After the recovery of a new leader no saga is incomplete.
use dds.Base.{
  String, ◌==◌, ◌≡◌, refl, sym, ap, ◌∙◌, Bool, true, false, ◌||◌, Option, none, some, List, [], ◌∷◌,
  arith, Bool-cases, Option-cases, inl, inr, contains, if◌then◌else◌,
}
use dds.Base.Dict.{Dict, lookup, lookup-erase}
use dds.Orchestrator.Value.{Context}
use dds.Orchestrator.Definition.{Step, TransactionDefinition}
use dds.Orchestrator.Transport.{Env}
use dds.Orchestrator.Wal
use dds.Orchestrator.Wal.{Wal, Entry, Incomplete, is_terminal, get_incomplete_sagas}
use dds.Orchestrator.Wal.Index.{IsIndexed, replay}
use dds.Orchestrator.Wal.Recoverable.{get_incomplete_sagas-eq-replay, report}
use dds.Orchestrator.System.{Sys}
use dds.Orchestrator.Recovery.{
  Action, abort, commit, compensate, unknown, log_end, finish, definition_of, send_action_to_all,
  abort_all, commit_all, compensate_all, compensate_each, perform, action_for, recover_saga,
  recover_each, or_failed, recover_incomplete_sagas,
}
use dds.Orchestrator.Recovery.Traces.{finish-Keeps}
use dds.Orchestrator.Recovery.Decisions.{send_none}

abbrev pub has : String → Dict Incomplete → Bool
has j [] = false
has j ((id, state) ∷ rest) = id == j || has j rest

pub has-lookup : (j : String) (d : Dict Incomplete) → has j d ≡ false → lookup j d ≡ none
unfolding lookup
has-lookup j [] h = refl
has-lookup j ((id, state) ∷ rest) h = ground (arith, has-lookup j rest)

pub report-none : (j : String) (o : Option Entry) → report j o ≡ none → o ≡ none
report-none j none e = refl
report-none j (some x) e = cc

module _ {W : Type 0} (env : Env W) (definitions : Dict TransactionDefinition) where
  -- The saga has left the index, and every other saga is as it was.
  abbrev pub Resolves : String → Sys W → Sys W → Type 0
  Resolves id s s' =
      (j : String) → lookup j s'.wal.states ≡ (if id == j then none else lookup j s.wal.states)

  end-Resolves :
      (id step : String) (s : Sys W)
      → is_terminal step ≡ true
      → Resolves id s (log_end env definitions id step s)
  unfolding log_end Wal.log
  end-Resolves id step s t j = rw t (lookup-erase id j s.wal.states)

  after-Resolves :
      (id : String) (s s' t : Sys W) → s'.wal ≡ s.wal → Resolves id s' t → Resolves id s t
  after-Resolves id s s' t e r j =
      r j ∙ ap (λ (w : Wal). if id == j then none else lookup j w.states) e

  failed-Resolves :
      (id : String) (s s' : Sys W)
      → s'.wal ≡ s.wal
      → Resolves id s (log_end env definitions id "FAILED" s')
  unfolding is_terminal
  failed-Resolves id s s' e =
      after-Resolves id s s' (log_end env definitions id "FAILED" s') e
        (end-Resolves id "FAILED" s' refl)

  completed-Resolves :
      (id : String) (s s' : Sys W)
      → s'.wal ≡ s.wal
      → Resolves id s (log_end env definitions id "COMPLETED" s')
  unfolding is_terminal
  completed-Resolves id s s' e =
      after-Resolves id s s' (log_end env definitions id "COMPLETED" s') e
        (end-Resolves id "COMPLETED" s' refl)

  wal-finish :
      (action expected id : String) (d dead : Context) (steps : List Step) (s : Sys W)
      → (finish env definitions action expected id d dead steps s).wal ≡ s.wal
  wal-finish action expected id d dead steps s =
      (finish-Keeps env definitions action (λ t. Unit) (λ t name a p. tt) (λ t name written p. tt)
        id expected d dead steps s).wal

  wal-compensate_each :
      (id : String) (d : Context) (steps : List Step) (s : Sys W)
      → (compensate_each env definitions id d steps s).wal ≡ s.wal
  unfolding compensate_each
  wal-compensate_each id d [] s = refl
  wal-compensate_each id d (step ∷ steps) s =
      wal-compensate_each id d steps _ ∙ wal-finish "compensate" "compensated" id d d (step ∷ []) s

  wal-send_action_to_all :
      (action id : String) (d : Context) (s : Sys W)
      → definition_of env definitions d ≡ none
      → (send_action_to_all env definitions action id d s).wal ≡ s.wal
  wal-send_action_to_all action id d s e =
      ap (λ (u : Sys W). u.wal) (send_none env definitions id action d s e)

  pub abort_all-Resolves :
      (id : String) (d : Context) (s : Sys W) → Resolves id s (abort_all env definitions id d s)
  unfolding abort_all
  abort_all-Resolves id d s = elim (Option-cases (definition_of env definitions d)) [
    | inl gone ↦
        rw (gone, abort_all) (failed-Resolves id s _ (wal-send_action_to_all "abort" id d s gone))
    | inr (tx, e) ↦
        rw (e, abort_all) (failed-Resolves id s _ (wal-finish "abort" "aborted" id d d tx.steps s))
  ]

  pub commit_all-Resolves :
      (id : String) (d : Context) (s : Sys W) → Resolves id s (commit_all env definitions id d s)
  unfolding commit_all
  commit_all-Resolves id d s = elim (Option-cases (definition_of env definitions d)) [
    | inl gone ↦
        rw (gone, commit_all)
          (completed-Resolves id s _ (wal-send_action_to_all "commit" id d s gone))
    | inr (tx, e) ↦
        rw (e, commit_all)
          (completed-Resolves id s _ (wal-finish "commit" "committed" id d _ tx.steps s))
  ]

  compensate_all-Resolves :
      (id : String) (d : Context) (s : Sys W)
      → Resolves id s (compensate_all env definitions id d s)
  unfolding compensate_all
  compensate_all-Resolves id d s = elim (Option-cases (definition_of env definitions d)) [
    | inl gone ↦
        rw (gone, compensate_all)
          (failed-Resolves id s _ (wal-send_action_to_all "compensate" id d s gone))
    | inr (tx, e) ↦ rw (e, compensate_all) (failed-Resolves id s _ (wal-compensate_each id d _ s))
  ]

  perform-Resolves :
      (a : Action) (id : String) (d : Option Context) (s : Sys W)
      → Resolves id s (or_failed env definitions id s (perform env definitions a id d s))
  perform-Resolves unknown id d s = failed-Resolves id s s refl
  perform-Resolves abort id none s = failed-Resolves id s s refl
  perform-Resolves commit id none s = failed-Resolves id s s refl
  perform-Resolves compensate id none s = failed-Resolves id s s refl
  perform-Resolves abort id (some d) s = abort_all-Resolves id d s
  perform-Resolves commit id (some d) s = commit_all-Resolves id d s
  perform-Resolves compensate id (some d) s = compensate_all-Resolves id d s

  recover_each-resolves :
      (d : Dict Incomplete) (s : Sys W) (j : String)
      → lookup j (recover_each env definitions d s).wal.states
        ≡ (if has j d then none else lookup j s.wal.states)
  unfolding recover_each recover_saga
  recover_each-resolves [] s j = refl
  recover_each-resolves ((id, state) ∷ rest) s j =
      let s' =
        or_failed env definitions id s
          (perform env definitions (action_for state.last_step) id state.data_field s) in
      recover_each-resolves rest s' j
      ∙ ground (arith, perform-Resolves (action_for state.last_step) id state.data_field s j)

  -- Once a new leader has recovered from a log whose index agrees with its stream, with SSCAN returning the
  -- members of `active_sagas`, no saga has a state left in the index: each one that the log holds as
  -- unfinished has been ended, even where its recovery raised.
  pub recovery_leaves_none :
      (ids : List String) (s : Sys W)
      → IsIndexed s.wal
      → ((j : String) → contains j ids ≡ contains j s.wal.active)
      → (j : String) → lookup j (recover_incomplete_sagas env definitions ids s).wal.states ≡ none
  unfolding recover_incomplete_sagas
  recovery_leaves_none ids s h members j =
      let found = get_incomplete_sagas-eq-replay s.wal h ids members j in
      let (incomplete, w) = get_incomplete_sagas ids s.wal in
      recover_each-resolves incomplete _ j ∙ elim (Bool-cases (has j incomplete)) [
        | inl listed ↦ rw listed
        | inr unlisted ↦
            let gone =
              report-none j (replay j none s.wal.stream)
                (sym found.1 ∙ has-lookup j incomplete unlisted) in
            rw unlisted (ap (λ (v : Wal). lookup j v.states) found.0 ∙ h.replayed j ∙ gone)
      ]
