-- ===== src/Orchestrator/Executor/Bounds.antt =====
-- `_verified_action` ends: how many commands it sends at most.
use dds.Base.{
  ℕ, zero, suc, ◌+◌, ◌*◌, ◌≤◌, String, ◌≡◌, refl, ap, ◌∙◌, List, [], ◌∷◌, arith, Bool-cases, inl,
  inr, length,
}
use dds.Orchestrator.Value.{Context}
use dds.Orchestrator.Definition.{Step}
use dds.Orchestrator.Transport.{Env, is_event}
use dds.Orchestrator.System.{Attempt, answer, error, Effect, Sys, write_to_dlq, succeeded, failed}
use dds.Orchestrator.Executor.{
  try_step, gather, pause, still_pending, round, rounds, give_up, verified_action,
  max_verified_retries,
}
use dds.Orchestrator.Executor.Traces.{still_pending-SameRecords}
use dds.Orchestrator.Executor.Settled.{pending_acked, pending_refused, pending_error}

-- How many commands the trace has sent.
unfoldable pub sends : List Effect → ℕ
sends [] = 0
sends (Effect.sent n a attempt ∷ t) = sends t + 1
sends (Effect.dead n a w ∷ t) = sends t
sends (Effect.logged step ∷ t) = sends t

more_rounds : (left n n' a b c : ℕ) → n' ≤ n → b ≡ c + n → a ≤ b + left * n' → a ≤ c + suc left * n
more_rounds left n n' a b c fewer e h = grind arith

module _ {W : Type 0} (env : Env W) (action expected id : String) (context : Context) where
  length-still_pending :
      (results : List (Step × Attempt)) (s : Sys W)
      → length (still_pending env expected results s).0 ≤ length results
  length-still_pending [] s = unfold still_pending in omega arith
  length-still_pending ((step, error e) ∷ rest) s =
      rw (pending_error env expected step e rest s)
        (omega (arith, length-still_pending rest (failed env step.service s)))
  length-still_pending ((step, answer reply) ∷ rest) s =
      elim (Bool-cases (is_event expected reply)) [
        | inl e ↦
            rw (pending_acked env expected step reply rest s e)
              (omega (arith, length-still_pending rest (succeeded env step.service s)))
        | inr e ↦
            rw (pending_refused env expected step reply rest s e)
              (omega (arith, length-still_pending rest s))
      ]

  sends-try_step :
      (step : Step) (s : Sys W)
      → sends (try_step env step id action context s).1.trace ≡ sends s.trace + 1
  unfolding try_step sends
  sends-try_step step s = refl

  sends-gather :
      (steps : List Step) (s : Sys W)
      → let (results, s') = gather env id action context steps s in
        (length results ≡ length steps) × (sends s'.trace ≡ sends s.trace + length steps)
  unfolding gather
  sends-gather [] s = (refl, omega arith)
  sends-gather (step ∷ steps) s =
      let (same, more) = sends-gather steps (try_step env step id action context s).1 in
      (ap suc same, omega (arith, sends-try_step step s))

  sends-round :
      (steps : List Step) (s : Sys W)
      → let (pending, s') = round env action expected id context steps s in
        (length pending ≤ length steps) × (sends s'.trace ≡ sends s.trace + length steps)
  unfolding round
  sends-round steps s =
      let (results, s') = gather env id action context steps s in
      let (same, more) = sends-gather steps s in
      (
        omega (arith, length-still_pending results s'),
        ap sends (still_pending-SameRecords env expected results s').trace ∙ more,
      )

  trace-pause :
      (backoff : ℕ) (pending : List Step) (s : Sys W)
      → (pause env backoff pending s).trace ≡ s.trace
  trace-pause backoff [] s = refl
  trace-pause backoff (p ∷ ps) s = refl

  sends-rounds :
      (left backoff made : ℕ) (pending : List Step) (s : Sys W)
      → let ((pending', made'), s') =
          rounds env action expected id context left backoff made pending s in
        (sends s'.trace ≤ sends s.trace + left * length pending) × (made' ≤ made + left)
  unfolding rounds
  sends-rounds zero backoff made [] s = omega arith
  sends-rounds (suc left) backoff made [] s = omega arith
  sends-rounds zero backoff made (p ∷ ps) s = omega arith
  sends-rounds (suc left) backoff made (p ∷ ps) s =
      let (pending, s') = round env action expected id context (p ∷ ps) s in
      let (fewer, more) = sends-round (p ∷ ps) s in
      let (bound, count) =
        sends-rounds left (2 * backoff) (made + 1) pending (pause env backoff pending s') in
      let kept = ap sends (trace-pause backoff pending s') in
      (more_rounds left _ _ _ _ _ fewer (omega arith) bound, omega arith)

  sends-write :
      (step : Step) (made : ℕ) (s : Sys W)
      → sends (write_to_dlq env id action step.name "max_retries_exhausted" made context s).trace
        ≡ sends s.trace
  unfolding write_to_dlq sends
  sends-write step made s = ground arith

  sends-give_up :
      (made : ℕ) (pending : List Step) (s : Sys W)
      → sends (give_up env action id context made pending s).trace ≡ sends s.trace
  unfolding give_up
  sends-give_up made [] s = refl
  sends-give_up made (step ∷ steps) s = sends-give_up made steps _ ∙ sends-write step made s

  -- `_verified_action` ends, whatever is answered: it sends at most fifteen commands for each step that
  -- it is given, counted over all of them.
  pub sends-verified_action :
      (steps : List Step) (s : Sys W)
      → sends (verified_action env action expected id steps context s).trace
        ≤ sends s.trace + max_verified_retries * length steps
  unfolding verified_action
  sends-verified_action steps s =
      let ((pending, made), s') =
        rounds env action expected id context max_verified_retries 200 0 steps s in
      let (bound, count) = sends-rounds max_verified_retries 200 0 steps s in
      omega (arith, sends-give_up made pending s')
