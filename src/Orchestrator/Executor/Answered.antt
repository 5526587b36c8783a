-- ===== src/Orchestrator/Executor/Answered.antt =====
-- Commands to two steps, or to one, that are answered: what becomes of the world behind the transport, from
-- one answer to the next.
use dds.Base.{ℕ, ◌+◌, ◌*◌, String, ◌≡◌, refl, ap, ◌∙◌, true, List, [], ◌∷◌, Option-cases, inl, inr}
use dds.Base.Dict.{lookup}
use dds.Orchestrator.Value.{Context}
use dds.Orchestrator.Definition.{Step}
use dds.Orchestrator.Transport.{Reply, returned, Command, Env, is_event, payload_of}
use dds.Orchestrator.System.{answer, Effect, Sys, succeeded, failed, on_breaker}
use dds.Orchestrator.Executor.{
  gather, try_step, still_pending, round, rounds, give_up, verified_action, pause,
}

module _ {W : Type 0} (env : Env W) where
  pub world-succeeded : (service : String) (s : Sys W) → (succeeded env service s).world ≡ s.world
  unfolding succeeded
  world-succeeded service s = elim (Option-cases (lookup service s.breakers)) [
    | inl e ↦ rw (e, on_breaker) refl
    | inr (b, e) ↦ rw (e, on_breaker) refl
  ]

  pub world-failed : (service : String) (s : Sys W) → (failed env service s).world ≡ s.world
  unfolding failed
  world-failed service s = elim (Option-cases (lookup service s.breakers)) [
    | inl e ↦ rw (e, on_breaker) refl
    | inr (b, e) ↦ rw (e, on_breaker) refl
  ]

  -- the command that a step is sent
  abbrev pub command : Step → String → String → Context → Command
  command step id action context = record {
    service = step.service;
    action = action;
    payload = payload_of step id action context;
  }

  -- The command is answered, and the world moves on.
  abbrev pub Answers : Step → String → String → Context → W → Reply → W → Type 0
  Answers step id action context w reply w' =
      env.send (command step id action context) w ≡ (returned reply, w')

  -- A round that leaves nothing pending is the last one.
  verified_at_once :
      (step : Step) (steps : List Step) (id : String) (context : Context) (action expected : String)
      (s s' : Sys W)
      → round env action expected id context (step ∷ steps) s ≡ ([], s')
      → (verified_action env action expected id (step ∷ steps) context s).world ≡ s'.world
  unfolding verified_action rounds give_up
  verified_at_once step steps id context action expected s s' e =
      ap
        (λ r.
          ended (
            rounds env action expected id context 14 (2 * 200) (0 + 1) r.0 (pause env 200 r.0 r.1)))
        e
    where
      ended : (List Step × ℕ) × Sys W → W
      ended ((pending, made), t) = (give_up env action id context made pending t).world

  module _ (step : Step) (id : String) (context : Context) (action : String) (s : Sys W) (r : Reply)
      (w' : W) (a : Answers step id action context s.world r w') where
    abbrev one_sent : Sys W
    one_sent = record s { trace = Effect.sent step.name action (answer r) ∷ s.trace; world = w' }

    gather_one : gather env id action context (step ∷ []) s ≡ ((step, answer r) ∷ [], one_sent)
    unfolding gather try_step
    gather_one = rw a refl

    pub verified_one :
        (expected : String)
        → is_event expected r ≡ true
        → (verified_action env action expected id (step ∷ []) context s).world ≡ w'
    unfolding round still_pending
    verified_one expected e =
        verified_at_once step [] id context action expected s (succeeded env step.service one_sent)
          (ap (λ g. still_pending env expected g.0 g.1) gather_one ∙ rw (still_pending, e) refl)
        ∙ world-succeeded step.service one_sent

  module _ (first second : Step) (id : String) (context : Context) where
    abbrev pub steps : List Step
    steps = first ∷ second ∷ []

    module _ (action : String) (s : Sys W) (r₁ r₂ : Reply) (w₁ w₂ : W)
        (a₁ : Answers first id action context s.world r₁ w₁)
        (a₂ : Answers second id action context w₁ r₂ w₂) where
      abbrev pub both_sent : Sys W
      both_sent = record s {
        trace =
            Effect.sent second.name action (answer r₂)
            ∷ Effect.sent first.name action (answer r₁)
            ∷ s.trace;
        world = w₂;
      }

      pub gather_two :
          gather env id action context steps s
          ≡ ((first, answer r₁) ∷ (second, answer r₂) ∷ [], both_sent)
      unfolding gather try_step
      gather_two = rw (a₁, a₂) refl

      abbrev both_succeeded : Sys W
      both_succeeded = succeeded env second.service (succeeded env first.service both_sent)

      round_two :
          (expected : String)
          → is_event expected r₁ ≡ true
          → is_event expected r₂ ≡ true
          → round env action expected id context steps s ≡ ([], both_succeeded)
      unfolding round still_pending
      round_two expected e₁ e₂ =
          ap (λ r. still_pending env expected r.0 r.1) gather_two ∙ rw (still_pending, e₁, e₂) refl

      pub verified_two :
          (expected : String)
          → is_event expected r₁ ≡ true
          → is_event expected r₂ ≡ true
          → (verified_action env action expected id steps context s).world ≡ w₂
      verified_two expected e₁ e₂ =
          verified_at_once first (second ∷ []) id context action expected s both_succeeded
            (round_two expected e₁ e₂)
          ∙ world-succeeded second.service (succeeded env first.service both_sent)
          ∙ world-succeeded first.service both_sent
