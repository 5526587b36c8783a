-- ===== src/Orchestrator/TwoPhase/Answered.antt =====
-- A two-phase commit over two steps, where every command is answered: what becomes of the world behind the
-- transport, from one answer to the next.
use mathlib.Core.Path.{subst}
use dds.Base.{
  String, ◌≡◌, refl, sym, ◌∙◌, Bool, true, false, none, List, [], ◌∷◌, Bool-cases, inl, inr,
  if◌then◌else◌,
}
use dds.Orchestrator.Value.{Context}
use dds.Orchestrator.Definition.{Step, TransactionDefinition}
use dds.Orchestrator.Transport.{Reply, Env, is_event, has_reason}
use dds.Orchestrator.System.{Sys, log, log_terminal, succeeded, failed}
use dds.Orchestrator.Executor.{
  Outcome, success, failure, check_circuit_breakers, broadcast, replies,
}
use dds.Orchestrator.Executor.Traces.{check-SameRecords}
use dds.Orchestrator.TwoPhase.{
  unless_unavailable, record_votes, decide, vote, execute, all_prepared, tagged,
}
use dds.Orchestrator.Executor.Answered.{
  world-succeeded, world-failed, Answers, both_sent, gather_two, verified_two,
}

module _ {W : Type 0} (env : Env W) (first second : Step) (id : String) (context : Context) where
  -- what the coordinator does with two votes
  abbrev learn : Step → Reply → Sys W → Sys W
  learn step v s =
      if is_event "prepared" v
      then succeeded env step.service s
      else if has_reason "timeout" v
      then failed env step.service s
      else s

  world-learn : (step : Step) (v : Reply) (s : Sys W) → (learn step v s).world ≡ s.world
  world-learn step v s = elim (Bool-cases (is_event "prepared" v)) [
    | inl prepared ↦ rw prepared (world-succeeded env step.service s)
    | inr unprepared ↦ elim (Bool-cases (has_reason "timeout" v)) [
      | inl late ↦ rw (unprepared, late) (world-failed env step.service s)
      | inr other ↦ rw (unprepared, other) refl
    ]
  ]

  world-record_votes :
      (v₁ v₂ : Reply) (s : Sys W)
      → (record_votes env ((first, v₁) ∷ (second, v₂) ∷ []) s).world ≡ s.world
  unfolding record_votes
  world-record_votes v₁ v₂ s = world-learn second v₂ (learn first v₁ s) ∙ world-learn first v₁ s

  abbrev pub action_after : Bool → String
  action_after true = "commit"
  action_after false = "abort"

  abbrev pub event_after : Bool → String
  event_after true = "committed"
  event_after false = "aborted"

  abbrev pub HasOutcome : Bool → Outcome → Type 0
  HasOutcome true outcome = outcome ≡ success
  HasOutcome false outcome = (reason : String) × (outcome ≡ failure reason)

  module _ (v₁ v₂ : Reply) where
    abbrev pub votes : List (Step × Reply)
    votes = (first, v₁) ∷ (second, v₂) ∷ []

    module _ (r₁ r₂ : Reply) (w₃ w₄ : W) where
      -- Both steps answer the decision as it asks for.
      abbrev pub Settles : Bool → W → Type 0
      Settles d w =
          Answers env first id (action_after d) context w r₁ w₃
          × Answers env second id (action_after d) context w₃ r₂ w₄
          × (is_event (event_after d) r₁ ≡ true)
          × (is_event (event_after d) r₂ ≡ true)

      decided :
          (d : Bool) (data_dict : Context) (t : Sys W)
          → all_prepared votes ≡ d
          → Settles d t.world
          → HasOutcome d (decide env id data_dict context (first ∷ second ∷ []) votes t).0
            × ((decide env id data_dict context (first ∷ second ∷ []) votes t).1.world ≡ w₄)
      unfolding decide log log_terminal
      decided true data_dict t e (a₃, a₄, e₁, e₂) = rw e (
        refl,
        verified_two env first second id context "commit" (log env id "COMMITTING" data_dict t) r₁
            r₂ w₃ w₄ a₃ a₄ "committed" e₁ e₂,
      )
      decided false data_dict t e (a₃, a₄, e₁, e₂) = rw e (
        (_, refl),
        verified_two env first second id context "abort" (log env id "ABORTING" data_dict t) r₁ r₂
            w₃ w₄ a₃ a₄ "aborted" e₁ e₂,
      )

      module _ (d : Bool) (name tx_name : String) (w₁ w₂ : W) (e : all_prepared votes ≡ d)
          (settles : Settles d w₂) where
        abbrev pub tx : TransactionDefinition
        tx = record { name = name; steps = (first ∷ second ∷ []) }

        abbrev data_dict : Context
        data_dict = tagged "2pc" tx_name context

        Settled : Outcome × Sys W → Type 0
        Settled (outcome, s) = HasOutcome d outcome × (s.world ≡ w₄)

        voted :
            (s : Sys W)
            → Answers env first id "prepare" context s.world v₁ w₁
            → Answers env second id "prepare" context w₁ v₂ w₂
            → Settled (vote env tx id context tx_name s)
        unfolding vote broadcast Settled log
        voted s a₁ a₂ =
            let t = log env id "PREPARING" data_dict s in
            let asked = both_sent env first second id context "prepare" t v₁ v₂ w₁ w₂ a₁ a₂ in
            subst
              (λ g. Settled (
                decide env id data_dict context (first ∷ second ∷ []) (replies g.0)
                  (record_votes env (replies g.0) g.1)))
              (sym (gather_two env first second id context "prepare" t v₁ v₂ w₁ w₂ a₁ a₂))
              (decided d data_dict (record_votes env votes asked) e
                (subst (Settles d) (sym (world-record_votes v₁ v₂ asked)) settles))

        -- The whole of a run that no breaker refuses.
        pub two_phase_answered :
            (s : Sys W)
            → (check_circuit_breakers env (first ∷ second ∷ []) s).0 ≡ none
            → Answers env first id "prepare" context s.world v₁ w₁
            → Answers env second id "prepare" context w₁ v₂ w₂
            → HasOutcome d (execute env tx id context tx_name s).0
              × ((execute env tx id context tx_name s).1.world ≡ w₄)
        unfolding execute Settled
        two_phase_answered s free a₁ a₂ =
            let s' = (check_circuit_breakers env (first ∷ second ∷ []) s).1 in
            let same : s.world ≡ s'.world =
              sym (check-SameRecords env (first ∷ second ∷ []) s).world in
            let done : Settled (vote env tx id context tx_name s') =
              voted s' (subst (λ w. Answers env first id "prepare" context w v₁ w₁) same a₁) a₂ in
            rw (free, unless_unavailable) done
