-- ===== src/Orchestrator/Breaker/States.antt =====
-- The state machine of a circuit breaker.
use dds.Base.{ℕ, ◌<◌, ◌≡◌, ◌≢◌, true, false, none, List, [], ◌∷◌, arith}
use dds.Orchestrator.Breaker.{State, CircuitBreaker, record_failure, record_success, is_open}

-- What callers do to a breaker, each at its time.
pub data Call : Type 0 where
  failure : ℕ → Call
  success : Call
  query : ℕ → Call

unfoldable pub call : Call → CircuitBreaker → CircuitBreaker
call (failure now) b = record_failure now b
call success b = record_success b
call (query now) b = (is_open now b).1

unfoldable pub calls : List Call → CircuitBreaker → CircuitBreaker
calls [] b = b
calls (c ∷ cs) b = calls cs (call c b)

-- A closed breaker is below its threshold and has no probe out, and one that is not closed has a
-- failure on record; only a half-open breaker has a probe out.
abbrev InState : State → CircuitBreaker → Type 0
InState State.closed b = (b.failure_count < b.failure_threshold) × (b.probe_in_flight ≡ false)
InState State.opened b =
    (0 < b.failure_count) × (b.last_failure_time ≢ none) × (b.probe_in_flight ≡ false)
InState State.half_open b =
    (0 < b.failure_count) × (b.last_failure_time ≢ none) × (b.probe_in_flight ≡ true)

pub record IsValid (b : CircuitBreaker) : Type 0 where
  pub threshold : 0 < b.failure_threshold
  pub in_state : InState b.state b

call-IsValid : (c : Call) (b : CircuitBreaker) → IsValid b → IsValid (call c b)
unfolding call record_failure record_success is_open
call-IsValid (failure now) b v = ground (arith, v.threshold, v.in_state)
call-IsValid success b v = ground (arith, v.threshold, v.in_state)
call-IsValid (query now) b v = ground (arith, v.threshold, v.in_state)

-- From a valid breaker, any sequence of failures, successes and queries leads to a valid one: it is
-- closed only below its threshold, a probe is out exactly while it is half-open, and the failure that
-- opened it is on record.
pub calls-IsValid : (cs : List Call) (b : CircuitBreaker) → IsValid b → IsValid (calls cs b)
unfolding calls
calls-IsValid [] b v = v
calls-IsValid (c ∷ cs) b v = calls-IsValid cs (call c b) (call-IsValid c b v)
