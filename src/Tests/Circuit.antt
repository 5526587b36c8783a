-- ===== src/Tests/Circuit.antt =====
-- Circuit breakers at concrete inputs.
use dds.Base.{◌≡◌, refl, false, some, [], ◌∷◌, arith}
use dds.Orchestrator.Breaker.{
  State, CircuitBreaker, create, record_failure, record_success, is_open,
}
use dds.Orchestrator.Breaker.States.{failure, success, query, call, calls, IsValid, calls-IsValid}

-- opened at the time 100, with a recovery timeout of 30 seconds
abbrev tripped : CircuitBreaker
tripped = record {
  failure_threshold = 1;
  recovery_timeout = 30000;
  failure_count = 1;
  last_failure_time = some 100;
  state = State.opened;
  probe_in_flight = false;
}

trips : calls (failure 100 ∷ []) (create 1 30000) ≡ tripped
unfolding calls call record_failure
trips = refl

-- a probe at the time 40000 that succeeds closes it again
recovers : (calls (query 40000 ∷ success ∷ []) tripped).state ≡ State.closed
unfolding calls call is_open record_success
recovers = refl

create-IsValid : IsValid (create 5 30000)
create-IsValid = record { threshold = omega arith; in_state = (omega arith, refl) }

calls-IsValid_example : IsValid (calls (failure 100 ∷ query 200 ∷ success ∷ []) (create 5 30000))
calls-IsValid_example =
    calls-IsValid (failure 100 ∷ query 200 ∷ success ∷ []) (create 5 30000) create-IsValid
