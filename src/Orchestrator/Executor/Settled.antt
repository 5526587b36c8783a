-- ===== src/Orchestrator/Executor/Settled.antt =====
-- When a step has been settled by an action, and which steps a round of `_verified_action` leaves waiting.
use dds.Base.{String, ◌==◌, ◌≡◌, refl, Bool, true, false, ◌&&◌, ◌||◌, List, [], ◌∷◌, arith, map}
use dds.Orchestrator.Definition.{Step}
use dds.Orchestrator.Transport.{Reply, Env, is_event}
use dds.Orchestrator.System.{Attempt, answer, error, Effect, Sys, succeeded, failed}
use dds.Orchestrator.Executor.{still_pending}

abbrev pub acked : String → Attempt → Bool
acked expected (answer reply) = is_event expected reply
acked expected (error e) = false

-- The effect acknowledges the action on the step of that name, or is a dead letter for it that was written.
abbrev pub settles : String → String → String → Effect → Bool
settles action expected name (Effect.sent n a attempt) =
    n == name && (a == action && acked expected attempt)
settles action expected name (Effect.dead n a written) = n == name && (a == action && written)
settles action expected name (Effect.logged step) = false

unfoldable pub is_settled : String → String → String → List Effect → Bool
is_settled action expected name [] = false
is_settled action expected name (e ∷ t) =
    settles action expected name e || is_settled action expected name t

abbrev pub names : List Step → List String
names = map (λ step. step.name)

abbrev pub result_names : List (Step × Attempt) → List String
result_names = map (λ r. r.0.name)

abbrev pub acked_in : String → String → List (Step × Attempt) → Bool
acked_in expected name [] = false
acked_in expected name ((step, attempt) ∷ rest) =
    (step.name == name && acked expected attempt) || acked_in expected name rest

pub settled_later :
    (action expected name : String) (e : Effect) (t : List Effect)
    → is_settled action expected name t ≡ true
    → is_settled action expected name (e ∷ t) ≡ true
unfolding is_settled
settled_later action expected name e t h = ground arith

module _ {W : Type 0} (env : Env W) (expected : String) (step : Step) (reply : Reply)
    (rest : List (Step × Attempt)) (s : Sys W) where
  pub pending_acked :
      is_event expected reply ≡ true
      → (still_pending env expected ((step, answer reply) ∷ rest) s).0
        ≡ (still_pending env expected rest (succeeded env step.service s)).0
  unfolding still_pending
  pending_acked e = rw (e, still_pending)

  pub pending_refused :
      is_event expected reply ≡ false
      → (still_pending env expected ((step, answer reply) ∷ rest) s).0
        ≡ step ∷ (still_pending env expected rest s).0
  unfolding still_pending
  pending_refused e = rw (e, still_pending)

pub pending_error :
    {W : Type 0} (env : Env W) (expected : String) (step : Step) (e : String)
    (rest : List (Step × Attempt)) (s : Sys W)
    → (still_pending env expected ((step, error e) ∷ rest) s).0
      ≡ step ∷ (still_pending env expected rest (failed env step.service s)).0
unfolding still_pending
pending_error env expected step e rest s = refl
