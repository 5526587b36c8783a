-- ===== src/Orchestrator/Executor/Checks.antt =====
-- One step of `_check_circuit_breakers`.
use dds.Base.{◌≡◌, true, false, none, some, List, ◌∷◌}
use dds.Base.Dict.{lookup, insert}
use dds.Orchestrator.Definition.{Step}
use dds.Orchestrator.Transport.{Env}
use dds.Orchestrator.Breaker.{CircuitBreaker, is_open}
use dds.Orchestrator.System.{Sys}
use dds.Orchestrator.Executor.{check_circuit_breakers}

module _ {W : Type 0} (env : Env W) (step : Step) (steps : List Step) (s : Sys W) where
  pub check_unknown :
      lookup step.service s.breakers ≡ none
      → check_circuit_breakers env (step ∷ steps) s ≡ check_circuit_breakers env steps s
  unfolding check_circuit_breakers
  check_unknown e = rw (e, check_circuit_breakers)

  -- the system after the breaker of the step was asked
  abbrev pub asked : CircuitBreaker → Sys W
  asked b = record s {
    breakers = insert step.service (is_open (env.monotonic s.world) b).1 s.breakers;
  }

  pub check_refused :
      (b : CircuitBreaker)
      → lookup step.service s.breakers ≡ some b
      → (is_open (env.monotonic s.world) b).0 ≡ true
      → check_circuit_breakers env (step ∷ steps) s ≡ (some step.service, asked b)
  unfolding check_circuit_breakers
  check_refused b e p = rw (e, check_circuit_breakers) (rw (p, check_circuit_breakers))

  pub check_passed :
      (b : CircuitBreaker)
      → lookup step.service s.breakers ≡ some b
      → (is_open (env.monotonic s.world) b).0 ≡ false
      → check_circuit_breakers env (step ∷ steps) s ≡ check_circuit_breakers env steps (asked b)
  unfolding check_circuit_breakers
  check_passed b e p = rw (e, check_circuit_breakers) (rw (p, check_circuit_breakers))
