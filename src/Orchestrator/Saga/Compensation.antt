-- ===== src/Orchestrator/Saga/Compensation.antt =====
-- Compensating the steps of a saga takes them off the stack of its automaton.
use dds.Base.{
  ℕ, zero, suc, ◌+◌, ◌*◌, String, ◌≡◌, refl, ap, ◌∙◌, Bool, true, false, List, [], ◌∷◌, arith,
  Bool-cases, ◌⊎◌, inl, inr, if◌then◌else◌, eq_refl,
}
use dds.Orchestrator.Value.{Context}
use dds.Orchestrator.Definition.{Step}
use dds.Orchestrator.Transport.{Env, is_event}
use dds.Orchestrator.System.{Attempt, answer, error, Sys, write_to_dlq}
use dds.Orchestrator.Executor.{
  try_step, gather, reply_of, pause, still_pending, round, rounds, give_up, verified_action,
  max_verified_retries,
}
use dds.Orchestrator.Executor.Traces.{still_pending-SameRecords}
use dds.Orchestrator.Saga.{compensate_each, step_names}
use dds.Orchestrator.Saga.Automaton.{Phase, advance, phase}

-- What a round over one step leaves to do, and the phase that it ends in.
abbrev left_over : Attempt → Step → List Step
left_over a step = if is_event "compensated" (reply_of a) then [] else step ∷ []

abbrev after : List Step → List String → Phase
after [] stack = Phase.compensating stack
after (step ∷ steps) stack = Phase.compensating (step.name ∷ stack)

after-left_over :
    (b : Bool) (step : Step) (stack : List String)
    → (if b then Phase.compensating stack else Phase.compensating (step.name ∷ stack))
      ≡ after (if b then [] else step ∷ []) stack
after-left_over true step stack = refl
after-left_over false step stack = refl

-- One step at most is pending.
abbrev OneOf : Step → List Step → Type 0
OneOf step pending = (pending ≡ []) ⊎ (pending ≡ step ∷ [])

left_over-OneOf : (b : Bool) (step : Step) → OneOf step (if b then [] else step ∷ [])
left_over-OneOf true step = inl refl
left_over-OneOf false step = inr refl

module _ {W : Type 0} (env : Env W) (id : String) (context : Context) (step : Step) where
  -- `pending` is what is left of the step, and the phase says so.
  record Stands (stack : List String) (pending : List Step) (s : Sys W) : Type 0 where
    one : OneOf step pending
    at : phase s.trace ≡ after pending stack

  pending_one :
      (a : Attempt) (s : Sys W)
      → (still_pending env "compensated" ((step, a) ∷ []) s).0 ≡ left_over a step
  unfolding still_pending is_event
  pending_one (error e) s = refl
  pending_one (answer r) s = ground arith

  try_phase :
      (stack : List String) (s : Sys W)
      → phase s.trace ≡ Phase.compensating (step.name ∷ stack)
      → let (a, s') = try_step env step id "compensate" context s in
        phase s'.trace ≡ after (left_over a step) stack
  unfolding try_step phase advance
  try_phase stack s h = rw (h, eq_refl) (after-left_over _ step stack)

  round-phase :
      (stack : List String) (s : Sys W)
      → phase s.trace ≡ Phase.compensating (step.name ∷ stack)
      → let (pending, s') = round env "compensate" "compensated" id context (step ∷ []) s in
        Stands stack pending s'
  unfolding round gather
  round-phase stack s h =
      let (a, s') = try_step env step id "compensate" context s in
      let same = still_pending-SameRecords env "compensated" ((step, a) ∷ []) s' in
      rw (pending_one a s')
        (record { one = left_over-OneOf _ step; at = ap phase same.trace ∙ try_phase stack s h })

  pause_phase :
      (stack : List String) (backoff : ℕ) (pending : List Step) (s : Sys W)
      → Stands stack pending s
      → Stands stack pending (pause env backoff pending s)
  pause_phase stack backoff [] s h = h
  pause_phase stack backoff (p ∷ ps) s h = record { one = h.one; at = h.at }

  rounds_phase :
      (stack : List String) (left backoff made : ℕ) (pending : List Step) (s : Sys W)
      → Stands stack pending s
      → let ((pending', made'), s') =
          rounds env "compensate" "compensated" id context left backoff made pending s in
        Stands stack pending' s'
  unfolding rounds
  rounds_phase stack zero backoff made [] s h = h
  rounds_phase stack (suc left) backoff made [] s h = h
  rounds_phase stack zero backoff made (p ∷ ps) s h = h
  rounds_phase stack (suc left) backoff made (p ∷ ps) s h = elim h.one [
    | inl e ↦ cc
    | inr e ↦
        let at_step = h.at ∙ ap (λ l. after l stack) e in
        let (pending, s') = round env "compensate" "compensated" id context (step ∷ []) s in
        rw e (
          rounds_phase stack left (2 * backoff) (made + 1) pending (pause env backoff pending s')
            (pause_phase stack backoff pending s' (round-phase stack s at_step)))
  ]

  write_phase :
      (stack : List String) (made : ℕ) (s : Sys W)
      → phase s.trace ≡ Phase.compensating (step.name ∷ stack)
      → phase
          (write_to_dlq env id "compensate" step.name "max_retries_exhausted" made context s).trace
        ≡ Phase.compensating stack
  unfolding write_to_dlq phase advance
  write_phase stack made s h = elim (Bool-cases (env.dlq_up s.world)) [
    | inl up ↦ rw up (rw (h, eq_refl))
    | inr down ↦ rw down (rw (h, eq_refl))
  ]

  phase-give_up :
      (stack : List String) (made : ℕ) (pending : List Step) (s : Sys W)
      → Stands stack pending s
      → phase (give_up env "compensate" id context made pending s).trace ≡ Phase.compensating stack
  unfolding give_up
  phase-give_up stack made [] s h = h.at
  phase-give_up stack made (p ∷ ps) s h = elim h.one [
    | inl e ↦ cc
    | inr e ↦ rw e (write_phase stack made s (h.at ∙ ap (λ l. after l stack) e))
  ]

  -- Compensating one step takes it off the stack, whether it is acknowledged or given up.
  verified_phase :
      (stack : List String) (s : Sys W)
      → phase s.trace ≡ Phase.compensating (step.name ∷ stack)
      → phase (verified_action env "compensate" "compensated" id (step ∷ []) context s).trace
        ≡ Phase.compensating stack
  unfolding verified_action
  verified_phase stack s h =
      let ((pending, made), s') =
        rounds env "compensate" "compensated" id context max_verified_retries 200 0 (step ∷ []) s in
      phase-give_up stack made pending s' (
        rounds_phase stack max_verified_retries 200 0 (step ∷ []) s
          (record { one = inr refl; at = h }))

module _ {W : Type 0} (env : Env W) where
  pub compensate_each-phase :
      (id : String) (context : Context) (steps : List Step) (s : Sys W)
      → phase s.trace ≡ Phase.compensating (step_names steps)
      → phase (compensate_each env id context steps s).trace ≡ Phase.compensating []
  unfolding compensate_each
  compensate_each-phase id context [] s h = h
  compensate_each-phase id context (step ∷ steps) s h =
      compensate_each-phase id context steps _
        (verified_phase env id context step (step_names steps) s h)
