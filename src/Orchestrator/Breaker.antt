-- ===== src/Orchestrator/Breaker.antt =====
-- orchestrator/executor.py, class CircuitBreaker. Times are whole milliseconds of the monotonic
-- clock; each call of `time.monotonic()` is an argument `now`.
pub mod States
pub mod Probes
use dds.Base.{ℕ, ◌+◌, ◌-◌, Bool, true, false, ◌||◌, Option, none, some, leb, not, if◌then◌else◌}

pub data State : Type 0 where
  closed opened half_open : State

pub record CircuitBreaker : Type 0 where
  pub failure_threshold : ℕ
  pub recovery_timeout : ℕ
  pub failure_count : ℕ
  pub last_failure_time : Option ℕ
  pub state : State
  pub probe_in_flight : Bool

-- CircuitBreaker(failure_threshold, recovery_timeout)
abbrev pub create : ℕ → ℕ → CircuitBreaker
create threshold timeout = record {
  failure_threshold = threshold;
  recovery_timeout = timeout;
  failure_count = 0;
  last_failure_time = none;
  state = State.closed;
  probe_in_flight = false;
}

abbrev is_half_open : State → Bool
is_half_open State.half_open = true
is_half_open _ = false

unfoldable pub record_failure : ℕ → CircuitBreaker → CircuitBreaker
record_failure now b =
    let count = b.failure_count + 1 in
    record b {
      failure_count = count;
      last_failure_time = some now;
      probe_in_flight = false;
      state =
          if is_half_open b.state || leb b.failure_threshold count then State.opened else b.state;
    }

unfoldable pub record_success : CircuitBreaker → CircuitBreaker
record_success b = record b { failure_count = 0; state = State.closed; probe_in_flight = false }

-- `self._last_failure_time or 0`
abbrev or_zero : Option ℕ → ℕ
or_zero none = 0
or_zero (some t) = t

-- `elapsed >= self.recovery_timeout`
abbrev pub is_due : ℕ → CircuitBreaker → Bool
is_due now b = leb b.recovery_timeout (now - or_zero b.last_failure_time)

-- the first caller takes the probe, and the others are refused
abbrev take_probe : CircuitBreaker → Bool × CircuitBreaker
take_probe b =
    if not b.probe_in_flight then (false, record b { probe_in_flight = true }) else (true, b)

abbrev check : State → ℕ → CircuitBreaker → Bool × CircuitBreaker
check State.closed now b = (false, b)
check State.opened now b =
    if is_due now b then take_probe (record b { state = State.half_open }) else (true, b)
check State.half_open now b = take_probe b

-- The answer of `is_open()`, and the breaker that it leaves.
unfoldable pub is_open : ℕ → CircuitBreaker → Bool × CircuitBreaker
is_open now b = check b.state now b
