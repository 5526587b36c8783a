-- ===== src/Orchestrator/TwoPhase/Protocol.antt =====
-- The two-phase commit protocol as an automaton over the trace, and that `execute` follows it.
use dds.Base.{
  String, ◌==◌, ◌≡◌, refl, ap, ◌∙◌, Bool, true, false, ◌&&◌, Option, none, some, List, [], ◌∷◌,
  Bool-cases, inl, inr, if◌then◌else◌,
}
use dds.Orchestrator.Value.{Context}
use dds.Orchestrator.Definition.{Step, TransactionDefinition}
use dds.Orchestrator.Transport.{Reply, Env, is_event, has_reason}
use dds.Orchestrator.System.{Effect, Sys, log, log_terminal}
use dds.Orchestrator.Executor.{
  Outcome, success, failure, check_circuit_breakers, try_step, gather, reply_of, replies, broadcast,
  verified_action,
}
use dds.Orchestrator.Executor.Traces.{
  SameRecords, SameRecords-refl, SameRecords-trans, either-SameRecords, succeeded-SameRecords,
  failed-SameRecords, check-SameRecords, verified_action-Keeps,
}
use dds.Orchestrator.TwoPhase.{
  all_prepared, record_votes, decide, vote, unless_unavailable, execute, tagged,
}

-- `preparing agreed`: every vote so far was for the commit, or not. `finished agreed`: committed, or not.
pub data Phase : Type 0 where
  idle committing aborting wrong : Phase
  preparing finished : Bool → Phase

-- A decision to commit needs every vote, a decision to abort needs a vote against; an action is sent
-- only in its phase, which the log has announced; nothing follows the end.
unfoldable pub advance : Phase → Effect → Phase
advance Phase.idle (Effect.logged step) =
    if step == "PREPARING"
    then Phase.preparing true
    else if step == "FAILED"
    then Phase.finished false
    else Phase.wrong
advance (Phase.preparing agreed) (Effect.sent name action a) =
    if action == "prepare"
    then Phase.preparing (agreed && is_event "prepared" (reply_of a))
    else Phase.wrong
advance (Phase.preparing true) (Effect.logged step) =
    if step == "COMMITTING" then Phase.committing else Phase.wrong
advance (Phase.preparing false) (Effect.logged step) =
    if step == "ABORTING" then Phase.aborting else Phase.wrong
advance Phase.committing (Effect.sent name action a) =
    if action == "commit" then Phase.committing else Phase.wrong
advance Phase.committing (Effect.dead name action written) =
    if action == "commit" then Phase.committing else Phase.wrong
advance Phase.committing (Effect.logged step) =
    if step == "COMPLETED" then Phase.finished true else Phase.wrong
advance Phase.aborting (Effect.sent name action a) =
    if action == "abort" then Phase.aborting else Phase.wrong
advance Phase.aborting (Effect.dead name action written) =
    if action == "abort" then Phase.aborting else Phase.wrong
advance Phase.aborting (Effect.logged step) =
    if step == "FAILED" then Phase.finished false else Phase.wrong
advance _ _ = Phase.wrong

-- The phase after a trace, of which the newest effect comes first.
unfoldable pub phase : List Effect → Phase
phase [] = Phase.idle
phase (e ∷ t) = advance (phase t) e

abbrev pub is_success : Outcome → Bool
is_success success = true
is_success (failure e) = false

and_assoc : (a b c : Bool) → ((a && b) && c) ≡ (a && (b && c))
and_assoc true b c = refl
and_assoc false b c = refl

and_true : (a : Bool) → (a && true) ≡ a
and_true true = refl
and_true false = refl

module _ {W : Type 0} (env : Env W) where
  gather-phase :
      (id : String) (context : Context) (steps : List Step) (agreed : Bool) (s : Sys W)
      → phase s.trace ≡ Phase.preparing agreed
      → let (results, s') = gather env id "prepare" context steps s in
        phase s'.trace ≡ Phase.preparing (agreed && all_prepared (replies results))
  unfolding gather all_prepared
  gather-phase id context [] agreed s h = rw (and_true agreed) h
  gather-phase id context (step ∷ steps) agreed s h =
      let (attempt, s') = try_step env step id "prepare" context s in
      gather-phase id context steps (agreed && is_event "prepared" (reply_of attempt)) s'
        (unfold try_step phase advance in rw h)
      ∙ ap Phase.preparing (and_assoc agreed _ _)

  record_votes-SameRecords :
      (votes : List (Step × Reply)) (s : Sys W) → SameRecords s (record_votes env votes s)
  unfolding record_votes
  record_votes-SameRecords [] s = SameRecords-refl s
  record_votes-SameRecords ((step, v) ∷ votes) s =
      SameRecords-trans
        (either-SameRecords (is_event "prepared" v) (has_reason "timeout" v)
          (succeeded-SameRecords env step.service s) (failed-SameRecords env step.service s))
        (record_votes-SameRecords votes _)

  commit_phase :
      (id : String) (context : Context) (steps : List Step) (s : Sys W)
      → phase s.trace ≡ Phase.committing
      → phase (verified_action env "commit" "committed" id steps context s).trace ≡ Phase.committing
  unfolding phase advance
  commit_phase id context steps s =
      (verified_action-Keeps env "commit" (λ t. phase t ≡ Phase.committing) (λ t name a p. rw p)
        (λ t name written p. rw p) id context "committed" steps s).trace

  abort_phase :
      (id : String) (context : Context) (steps : List Step) (s : Sys W)
      → phase s.trace ≡ Phase.aborting
      → phase (verified_action env "abort" "aborted" id steps context s).trace ≡ Phase.aborting
  unfolding phase advance
  abort_phase id context steps s =
      (verified_action-Keeps env "abort" (λ t. phase t ≡ Phase.aborting) (λ t name a p. rw p)
        (λ t name written p. rw p) id context "aborted" steps s).trace

  decide-phase :
      (id : String) (d context : Context) (steps : List Step) (votes : List (Step × Reply))
      (s : Sys W)
      → phase s.trace ≡ Phase.preparing (all_prepared votes)
      → let (outcome, s') = decide env id d context steps votes s in
        phase s'.trace ≡ Phase.finished (is_success outcome)
  decide-phase id d context steps votes s h = elim (Bool-cases (all_prepared votes)) [
    | inl agreed ↦
        let s' = log env id "COMMITTING" d s in
        let p = commit_phase id context steps s' (unfold log phase advance in rw (h, agreed)) in
        unfold decide log_terminal phase advance in rw agreed (rw p)
    | inr refused ↦
        let s' = log env id "ABORTING" d s in
        let p = abort_phase id context steps s' (unfold log phase advance in rw (h, refused)) in
        unfold decide log_terminal phase advance in rw refused (rw p)
  ]

  vote-phase :
      (tx : TransactionDefinition) (id : String) (context : Context) (tx_name : String) (s : Sys W)
      → phase s.trace ≡ Phase.idle
      → let (outcome, s') = vote env tx id context tx_name s in
        phase s'.trace ≡ Phase.finished (is_success outcome)
  unfolding vote broadcast
  vote-phase tx id context tx_name s h =
      let s1 = log env id "PREPARING" (tagged "2pc" tx_name context) s in
      let (results, s2) = gather env id "prepare" context tx.steps s1 in
      let p = gather-phase id context tx.steps true s1 (unfold log phase advance in rw h) in
      let votes = replies results in
      decide-phase id (tagged "2pc" tx_name context) context tx.steps votes
        (record_votes env votes s2) (ap phase (record_votes-SameRecords votes s2).trace ∙ p)

  -- A run of the two-phase commit, its trace begun afresh, follows the protocol, whatever the services
  -- answer: it commits only if every vote that it asked for was for the commit, sends commit or abort
  -- only after that decision is logged, never sends both, logs its end last, and reports success exactly
  -- if it committed.
  pub two_phase_follows_protocol :
      (tx : TransactionDefinition) (id : String) (context : Context) (tx_name : String) (s : Sys W)
      → phase s.trace ≡ Phase.idle
      → let (outcome, s') = execute env tx id context tx_name s in
        phase s'.trace ≡ Phase.finished (is_success outcome)
  unfolding execute
  two_phase_follows_protocol tx id context tx_name s h =
      let (refused, s') = check_circuit_breakers env tx.steps s in
      start refused s' (ap phase (check-SameRecords env tx.steps s).trace ∙ h)
    where
      start :
          (refused : Option String) (s' : Sys W)
          → phase s'.trace ≡ Phase.idle
          → let (outcome, t) = unless_unavailable env refused tx id context tx_name s' in
            phase t.trace ≡ Phase.finished (is_success outcome)
      start none s' k = vote-phase tx id context tx_name s' k
      start (some service) s' k = unfold log_terminal phase advance in rw k
