-- ===== src/Orchestrator/Saga/Answered.antt =====
-- A saga over two steps, where every command is answered: what becomes of the world behind the transport.
use mathlib.Core.Path.{subst}
use dds.Base.{
  String, ◌≡◌, refl, sym, ◌∙◌, Bool, true, false, ◌&&◌, none, [], ◌∷◌, Bool-cases, inl, inr,
}
use dds.Orchestrator.Value.{Context}
use dds.Orchestrator.Definition.{Step, TransactionDefinition}
use dds.Orchestrator.Transport.{Reply, Env, is_event, has_reason}
use dds.Orchestrator.System.{Sys, log, log_terminal}
use dds.Orchestrator.Executor.{
  Outcome, success, failure, check_circuit_breakers, broadcast, replies,
}
use dds.Orchestrator.Executor.Traces.{check-SameRecords}
use dds.Orchestrator.Executor.Answered.{
  world-succeeded, world-failed, Answers, both_sent, gather_two, verified_one,
}
use dds.Orchestrator.TwoPhase.{tagged}
use dds.Orchestrator.Saga.{
  Tally, start_tally, count_result, learn, collect, compensate_each, settle, run, execute,
  unless_unavailable,
}

module _ {W : Type 0} (env : Env W) where
  world-learn : (step : Step) (v : Reply) (s : Sys W) → (learn env step v s).world ≡ s.world
  world-learn step v s = elim (Bool-cases (is_event "executed" v)) [
    | inl executed ↦ rw executed (world-succeeded env step.service s)
    | inr refused ↦ elim (Bool-cases (has_reason "timeout" v)) [
      | inl late ↦ rw (refused, late) (world-failed env step.service s)
      | inr other ↦ rw (refused, other) refl
    ]
  ]

  module _ (first second : Step) (id : String) (context : Context) where
    -- whether the run succeeds, and the world after it
    abbrev pub Ends : Bool → W → Outcome × Sys W → Type 0
    Ends true w' (outcome, s) = (outcome ≡ success) × (s.world ≡ w')
    Ends false w' (outcome, s) = ((reason : String) × (outcome ≡ failure reason)) × (s.world ≡ w')

    -- A compensation of the step is answered as it asks for.
    abbrev pub Compensates : Step → W → W → Type 0
    Compensates step w w' =
        (r : Reply) × (is_event "compensated" r ≡ true)
        × Answers env step id "compensate" context w r w'

    -- What makes up for the steps that were executed, if one was and the other was not.
    abbrev pub Undone : Bool → Bool → W → W → Type 0
    Undone true false w w' = Compensates first w w'
    Undone false true w w' = Compensates second w w'
    Undone true true w w' = w ≡ w'
    Undone false false w w' = w ≡ w'

    module _ (v₁ v₂ : Reply) (n₁ : has_reason "timeout" v₁ ≡ false)
        (n₂ : has_reason "timeout" v₂ ≡ false) where
      abbrev tally : Tally
      tally = count_result second v₂ (count_result first v₁ start_tally)

      settled :
          (b₁ b₂ : Bool) (w' : W) (t : Sys W)
          → is_event "executed" v₁ ≡ b₁
          → is_event "executed" v₂ ≡ b₂
          → Undone b₁ b₂ t.world w'
          → Ends (b₁ && b₂) w' (settle env id context tally t)
      unfolding settle log_terminal log compensate_each
      settled true true w' t e₁ e₂ same = rw (e₁, e₂) (refl, same)
      settled false false w' t e₁ e₂ same = rw (e₁, e₂, n₁, n₂) ((_, refl), same)
      settled true false w' t e₁ e₂ (r, e, a) =
          rw (e₁, e₂, n₂)
            ((_, refl), verified_one env first id context "compensate" _ r w' a "compensated" e)
      settled false true w' t e₁ e₂ (r, e, a) =
          rw (e₁, e₂, n₁)
            ((_, refl), verified_one env second id context "compensate" _ r w' a "compensated" e)

      module _ (b₁ b₂ : Bool) (w₁ w₂ w' : W) (e₁ : is_event "executed" v₁ ≡ b₁)
          (e₂ : is_event "executed" v₂ ≡ b₂) (undone : Undone b₁ b₂ w₂ w')
          (name tx_name : String) where
        abbrev tx : TransactionDefinition
        tx = record { name = name; steps = first ∷ second ∷ [] }

        abbrev learnt : Sys W → Sys W
        learnt s = learn env second v₂ (learn env first v₁ s)

        ran :
            (s : Sys W)
            → Answers env first id "execute" context s.world v₁ w₁
            → Answers env second id "execute" context w₁ v₂ w₂
            → Ends (b₁ && b₂) w' (run env tx id context tx_name s)
        unfolding run broadcast collect log
        ran s a₁ a₂ =
            let t = log env id "EXECUTING" (tagged "saga" tx_name context) s in
            let asked = both_sent env first second id context "execute" t v₁ v₂ w₁ w₂ a₁ a₂ in
            let same =
              world-learn second v₂ (learn env first v₁ asked) ∙ world-learn first v₁ asked in
            subst
              (λ g. Ends (b₁ && b₂) w' (
                let (c, u) = collect env (replies g.0) start_tally g.1 in
                settle env id context c u))
              (sym (gather_two env first second id context "execute" t v₁ v₂ w₁ w₂ a₁ a₂))
              (settled b₁ b₂ w' (learnt asked) e₁ e₂
                (subst (λ w. Undone b₁ b₂ w w') (sym same) undone))

        -- The whole of a run that no breaker refuses.
        pub saga_answered :
            (s : Sys W)
            → (check_circuit_breakers env (first ∷ second ∷ []) s).0 ≡ none
            → Answers env first id "execute" context s.world v₁ w₁
            → Answers env second id "execute" context w₁ v₂ w₂
            → Ends (b₁ && b₂) w' (execute env tx id context tx_name s)
        unfolding execute
        saga_answered s free a₁ a₂ =
            let s' = (check_circuit_breakers env (first ∷ second ∷ []) s).1 in
            let same : s.world ≡ s'.world =
              sym (check-SameRecords env (first ∷ second ∷ []) s).world in
            let done =
              ran s' (subst (λ w. Answers env first id "execute" context w v₁ w₁) same a₁) a₂ in
            rw (free, unless_unavailable) done
