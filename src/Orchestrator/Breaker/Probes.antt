-- ===== src/Orchestrator/Breaker/Probes.antt =====
-- When a circuit breaker opens, and how many calls it lets through before it has closed again.
use dds.Base.{
  ℕ, refl, ◌+◌, ◌≤◌, ◌<◌, ◌≡◌, ◌≢◌, true, List, [], ◌∷◌, arith, leb, length, if◌then◌else◌,
}
use dds.Orchestrator.Breaker.{State, CircuitBreaker, create, record_failure, is_open}
use dds.Orchestrator.Breaker.States.{Call, failure, call, calls}

-- a run of failures, with nothing else between them
abbrev pub failures : List ℕ → List Call
failures [] = []
failures (t ∷ ts) = failure t ∷ failures ts

abbrev tripped : ℕ → ℕ → State
tripped threshold count = if leb threshold count then State.opened else State.closed

failures_from :
    (ts : List ℕ) (b : CircuitBreaker)
    → 0 < b.failure_threshold
    → b.state ≡ tripped b.failure_threshold b.failure_count
    → (calls (failures ts) b).state ≡ tripped b.failure_threshold (b.failure_count + length ts)
unfolding calls call record_failure
failures_from [] b pos_threshold e = ground arith
failures_from (t ∷ ts) b pos_threshold e = ground (arith, failures_from ts (record_failure t b))

-- A new breaker with a positive threshold is open after a run of failures exactly if the run is as
-- long as the threshold, and closed before.
pub opens_at_threshold :
    (threshold timeout : ℕ) (ts : List ℕ)
    → 0 < threshold
    → (calls (failures ts) (create threshold timeout)).state
      ≡ (if leb threshold (length ts) then State.opened else State.closed)
opens_at_threshold threshold timeout ts p =
    ground (arith, failures_from ts (create threshold timeout))

-- How many of the queries get through (the answer of `is_open` is False), one after another.
pub admitted : List ℕ → CircuitBreaker → ℕ
admitted [] b = 0
admitted (t ∷ ts) b = let (refused, b') = is_open t b in (if refused then 0 else 1) + admitted ts b'

-- A half-open breaker whose probe is out refuses every call, at any time, and stays as it is.
pub probing_refuses :
    (now : ℕ) (b : CircuitBreaker)
    → b.state ≡ State.half_open
    → b.probe_in_flight ≡ true
    → is_open now b ≡ (true, b)
unfolding is_open
probing_refuses now b s p = ground arith

probing_admits_none :
    (ts : List ℕ) (b : CircuitBreaker)
    → b.state ≡ State.half_open
    → b.probe_in_flight ≡ true
    → admitted ts b ≡ 0
unfolding admitted
probing_admits_none [] b s p = refl
probing_admits_none (t ∷ ts) b s p =
    rw (probing_refuses t b s p) (omega (arith, probing_admits_none ts b s p))

-- Until an outcome is recorded, a breaker that is not closed lets at most one call through.
pub admits_one_probe :
    (ts : List ℕ) (b : CircuitBreaker) → b.state ≢ State.closed → admitted ts b ≤ 1
unfolding admitted is_open
admits_one_probe [] b s = omega arith
admits_one_probe (t ∷ ts) b s =
    ground (arith, admits_one_probe ts b, probing_admits_none ts (is_open t b).1)
