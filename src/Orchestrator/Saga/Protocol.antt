-- ===== src/Orchestrator/Saga/Protocol.antt =====
-- `execute` of a saga follows the protocol.
use dds.Base.{
  String, ◌≡◌, refl, ap, ◌∙◌, sym, Bool, true, false, ◌&&◌, Option, none, some, List, [], ◌∷◌, ◌++◌,
  Bool-cases, inl, inr, if◌then◌else◌, reverse,
}
use mathlib.Core.List.{reverse-append}
use dds.Base.Dict.{insert}
use dds.Orchestrator.Value.{Context, Value}
use dds.Orchestrator.Definition.{Step, TransactionDefinition}
use dds.Orchestrator.Transport.{Reply, Env, is_event, has_reason}
use dds.Orchestrator.System.{Sys, log, log_terminal}
use dds.Orchestrator.Executor.{
  check_circuit_breakers, try_step, gather, reply_of, replies, broadcast,
}
use dds.Orchestrator.Executor.Traces.{
  SameRecords, SameRecords-refl, SameRecords-trans, either-SameRecords, succeeded-SameRecords,
  failed-SameRecords, check-SameRecords,
}
use dds.Orchestrator.TwoPhase.{tagged}
use dds.Orchestrator.TwoPhase.Protocol.{is_success}
use dds.Orchestrator.Saga.{
  Tally, count_result, collect, step_names, settle, start_tally, run, unless_unavailable, execute,
}
use dds.Orchestrator.Saga.Automaton.{Phase, may_have_run, advance, phase}
use dds.Orchestrator.Saga.Compensation.{compensate_each-phase}

and_true : (a : Bool) → (a && true) ≡ a
and_true true = refl
and_true false = refl

and_false : (a : Bool) → (a && false) ≡ false
and_false true = refl
and_false false = refl

names_of_append :
    (steps : List Step) (step : Step)
    → step_names (reverse (steps ++ step ∷ [])) ≡ step.name ∷ step_names (reverse steps)
names_of_append steps step = ap step_names (reverse-append steps (step ∷ []))

module _ {W : Type 0} (env : Env W) where
  -- The tally does not depend on the system.
  tally_all : List (Step × Reply) → Tally → Tally
  tally_all [] t = t
  tally_all ((step, result) ∷ results) t = tally_all results (count_result step result t)

  collect-SameRecords :
      (results : List (Step × Reply)) (t : Tally) (s : Sys W)
      → SameRecords s (collect env results t s).1
  unfolding collect
  collect-SameRecords [] t s = SameRecords-refl s
  collect-SameRecords ((step, result) ∷ results) t s =
      SameRecords-trans
        (either-SameRecords (is_event "executed" result) (has_reason "timeout" result)
          (succeeded-SameRecords env step.service s) (failed-SameRecords env step.service s))
        (collect-SameRecords results (count_result step result t) _)

  collect-eq-tally_all :
      (results : List (Step × Reply)) (t : Tally) (s : Sys W)
      → (collect env results t s).0 ≡ tally_all results t
  unfolding collect tally_all
  collect-eq-tally_all [] t s = refl
  collect-eq-tally_all ((step, result) ∷ results) t s =
      collect-eq-tally_all results (count_result step result t) _

  -- the phase that a tally describes
  abbrev tallied : Tally → Phase
  tallied t = Phase.executing (step_names (reverse t.completed_steps)) t.all_succeeded

  count_phase :
      (step : Step) (reply : Reply) (t : Tally)
      → Phase.executing
          (if may_have_run reply
            then step.name ∷ step_names (reverse t.completed_steps)
            else step_names (reverse t.completed_steps))
          (t.all_succeeded && is_event "executed" reply)
        ≡ tallied (count_result step reply t)
  count_phase step reply t =
      let pushed = names_of_append t.completed_steps step in
      elim (Bool-cases (is_event "executed" reply)) [
        | inl ran ↦ rw ran (rw (pushed, and_true t.all_succeeded))
        | inr refused ↦ elim (Bool-cases (has_reason "timeout" reply)) [
          | inl late ↦ rw (refused, late) (rw (pushed, and_false t.all_succeeded))
          | inr told ↦ rw (refused, told) (rw (and_false t.all_succeeded))
        ]
      ]

  gather-phase :
      (id : String) (context : Context) (steps : List Step) (t : Tally) (s : Sys W)
      → phase s.trace ≡ tallied t
      → let (results, s') = gather env id "execute" context steps s in
        phase s'.trace ≡ tallied (tally_all (replies results) t)
  unfolding gather tally_all
  gather-phase id context [] t s h = h
  gather-phase id context (step ∷ steps) t s h =
      let (attempt, s') = try_step env step id "execute" context s in
      gather-phase id context steps (count_result step (reply_of attempt) t) s'
        (unfold try_step phase advance in rw h (count_phase step _ t))

  settle-phase :
      (id : String) (context : Context) (t : Tally) (s : Sys W)
      → phase s.trace ≡ tallied t
      → let (outcome, s') = settle env id context t s in
        phase s'.trace ≡ Phase.finished (is_success outcome)
  settle-phase id context t s h = elim (Bool-cases t.all_succeeded) [
    | inl done ↦ unfold settle log_terminal phase advance in rw done (rw (h, done))
    | inr undo ↦
        let d = insert "completed_steps" (Value.names (step_names t.completed_steps)) context in
        let s' = log env id "COMPENSATING" d s in
        let p =
          compensate_each-phase env id context (reverse t.completed_steps) s'
            (unfold log phase advance in rw (h, undo)) in
        unfold settle log_terminal phase advance in rw undo (rw p)
  ]

  run-phase :
      (tx : TransactionDefinition) (id : String) (context : Context) (tx_name : String) (s : Sys W)
      → phase s.trace ≡ Phase.idle
      → let (outcome, s') = run env tx id context tx_name s in
        phase s'.trace ≡ Phase.finished (is_success outcome)
  unfolding run broadcast
  run-phase tx id context tx_name s h =
      let s1 = log env id "EXECUTING" (tagged "saga" tx_name context) s in
      let (results, s2) = gather env id "execute" context tx.steps s1 in
      let p = gather-phase id context tx.steps start_tally s1 (unfold log phase advance in rw h) in
      let (t, s3) = collect env (replies results) start_tally s2 in
      settle-phase id context t s3 (
        ap phase (collect-SameRecords (replies results) start_tally s2).trace
        ∙ p
        ∙ ap tallied (sym (collect-eq-tally_all (replies results) start_tally s2)))

  -- A run of the saga, its trace begun afresh, follows the protocol, whatever the services answer: it
  -- succeeds exactly if every execute that it sent was carried out, and otherwise it undoes the steps
  -- that were carried out or timed out, from the latest to the first and no others, each until it answers
  -- that it is compensated or is given up; every phase is logged before its first command.
  pub saga_follows_protocol :
      (tx : TransactionDefinition) (id : String) (context : Context) (tx_name : String) (s : Sys W)
      → phase s.trace ≡ Phase.idle
      → let (outcome, s') = execute env tx id context tx_name s in
        phase s'.trace ≡ Phase.finished (is_success outcome)
  unfolding execute
  saga_follows_protocol tx id context tx_name s h =
      let (refused, s') = check_circuit_breakers env tx.steps s in
      start refused s' (ap phase (check-SameRecords env tx.steps s).trace ∙ h)
    where
      start :
          (refused : Option String) (s' : Sys W)
          → phase s'.trace ≡ Phase.idle
          → let (outcome, t) = unless_unavailable env refused tx id context tx_name s' in
            phase t.trace ≡ Phase.finished (is_success outcome)
      start none s' k = run-phase tx id context tx_name s' k
      start (some service) s' k = unfold log_terminal phase advance in rw k
