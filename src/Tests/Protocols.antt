-- ===== src/Tests/Protocols.antt =====
-- The two protocols at concrete inputs.
use dds.Base.{◌≡◌, refl, true, some, List, [], ◌∷◌}
use dds.Base.Dict.{lookup, insert}
use dds.Orchestrator.Transport.{Reply, fields, timed_out, is_event, has_reason}
use dds.Orchestrator.Definition.{Step}
use dds.Orchestrator.System.{log}
use dds.Orchestrator.Breaker.{is_open}
use dds.Orchestrator.Executor.{
  failure, verified_action, gather, try_step, broadcast, check_circuit_breakers,
}
use dds.Orchestrator.Executor.Settled.{is_settled}
use dds.Orchestrator.Executor.Delivery.{verified_action_settles_all}
use dds.Orchestrator.TwoPhase
use dds.Orchestrator.Saga
use dds.Orchestrator.TwoPhase.Protocol as TwoPhaseProtocol
use dds.Orchestrator.Saga.Protocol as SagaProtocol
use dds.Orchestrator.Saga.Automaton as SagaAutomaton
use dds.Orchestrator.Transport.{Env}
use dds.Tests.World.{World, env, event, refusal, stock, payment, checkout, context, begin}

-- payment refuses, and both are aborted
refused_run :
    (TwoPhase.execute env checkout "saga-1" context "checkout" (
      begin (
        event "prepared"
        ∷ refusal "insufficient_credit"
        ∷ event "aborted"
        ∷ event "aborted"
        ∷ []))).0
    ≡ failure "insufficient_credit"
unfolding TwoPhase.execute check_circuit_breakers TwoPhase.vote broadcast gather try_step
    TwoPhase.record_votes TwoPhase.decide TwoPhase.all_prepared TwoPhase.failure_reason is_event
    has_reason lookup insert is_open log
refused_run = refl

two_phase_follows_protocol_example :
    let (outcome, s) =
      TwoPhase.execute env checkout "saga-1" context "checkout" (
        begin (event "prepared" ∷ event "prepared" ∷ event "committed" ∷ event "committed" ∷ [])) in
    TwoPhaseProtocol.phase s.trace
    ≡ TwoPhaseProtocol.Phase.finished (TwoPhaseProtocol.is_success outcome)
unfolding TwoPhaseProtocol.phase
two_phase_follows_protocol_example =
    TwoPhaseProtocol.two_phase_follows_protocol env checkout "saga-1" context "checkout"
      (begin (event "prepared" ∷ event "prepared" ∷ event "committed" ∷ event "committed" ∷ []))
      refl

saga_follows_protocol_example :
    let (outcome, s) = Saga.execute env checkout "saga-1" context "checkout" (
      begin (
        event "executed"
        ∷ timed_out
        ∷ event "compensated"
        ∷ refusal "busy"
        ∷ event "compensated"
        ∷ [])) in
    SagaAutomaton.phase s.trace ≡ SagaAutomaton.Phase.finished (TwoPhaseProtocol.is_success outcome)
unfolding SagaAutomaton.phase
saga_follows_protocol_example =
    SagaProtocol.saga_follows_protocol env checkout "saga-1" context "checkout"
      (begin (
        event "executed"
        ∷ timed_out
        ∷ event "compensated"
        ∷ refusal "busy"
        ∷ event "compensated"
        ∷ []))
      refl

-- where the dead letter queue is up
abbrev kept_env : Env World
kept_env = record env { dlq_up = λ w. true }

verified_action_settles_all_example :
    is_settled "commit" "committed" "reserve_stock"
      (verified_action kept_env "commit" "committed" "saga-1"
        (stock ∷ payment ∷ [])
        context
        (begin (timed_out ∷ event "committed" ∷ event "committed" ∷ []))).trace
    ≡ true
verified_action_settles_all_example =
    verified_action_settles_all kept_env "commit" "committed" "saga-1" (stock ∷ payment ∷ [])
      context (begin (timed_out ∷ event "committed" ∷ event "committed" ∷ [])) "reserve_stock"
      (λ w. refl) refl

abbrev results : List (Step × Reply)
results =
    (stock, fields (some "failed") (some "timeout"))
    ∷ (payment, fields (some "failed") (some "insufficient_credit"))
    ∷ []
