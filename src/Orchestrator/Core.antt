-- ===== src/Orchestrator/Core.antt =====
-- orchestrator/core.py, class Orchestrator. The semaphore only delays a call. A saga id is an
-- argument, where the code may make a fresh one; `_publish_result` is done at the end of the call.
pub mod Wedge
pub mod Recovery
pub mod Selection
use dds.Base.{
  ℕ, ◌-◌, String, ◌==◌, Bool, true, false, not, ◌&&◌, Option, none, some, List, [], ◌∷◌,
  if◌then◌else◌,
}
use dds.Base.Dict.{Dict, lookup, insert}
use dds.Orchestrator.Value.{Context}
use dds.Orchestrator.Definition.{Step, TransactionDefinition}
use dds.Orchestrator.Transport.{Env}
use dds.Orchestrator.Breaker.{CircuitBreaker, create, is_open}
use dds.Orchestrator.System.{Sys}
use dds.Orchestrator.Executor.{Outcome, success, failure}
use dds.Orchestrator.TwoPhase
use dds.Orchestrator.Saga
use dds.Orchestrator.Metrics.{
  MetricsCollector, new_metrics, record_result, rate_at_least_10, rate_at_most_5,
}

-- The result of `execute` with the keys that `_execute_inner` adds.
pub record Result : Type 0 where
  pub outcome : Outcome
  pub saga_id : String
  pub protocol : String

-- `published` holds the keys `saga-result:{id}`.
pub record Orchestrator (W : Type 0) : Type 0 where
  pub definitions : Dict TransactionDefinition
  pub protocol_mode : String
  pub metrics : MetricsCollector
  pub sys : Sys W
  pub published : Dict Result

-- {d.name: d for d in definitions}
unfoldable pub by_name :
    List TransactionDefinition → Dict TransactionDefinition → Dict TransactionDefinition
by_name [] known = known
by_name (d ∷ ds) known = by_name ds (insert d.name d known)

-- a breaker for the service of each step
unfoldable pub add_breakers : List Step → Dict CircuitBreaker → Dict CircuitBreaker
add_breakers [] known = known
add_breakers (step ∷ steps) known = add_breakers steps (insert step.service (create 5 30000) known)

unfoldable pub new_breakers : List TransactionDefinition → Dict CircuitBreaker → Dict CircuitBreaker
new_breakers [] known = known
new_breakers (d ∷ ds) known = new_breakers ds (add_breakers d.steps known)

-- Orchestrator(order_db, transport, definitions, protocol), over what the database holds
unfoldable pub new_orchestrator :
    {W : Type 0} → List TransactionDefinition → String → Dict Result → Sys W → Orchestrator W
new_orchestrator definitions protocol published s = record {
  definitions = by_name definitions [];
  protocol_mode = protocol;
  metrics = new_metrics 100;
  sys = record s { breakers = new_breakers definitions [] };
  published = published;
}

abbrev pub is_success : Outcome → Bool
is_success success = true
is_success (failure e) = false

-- any(cb.is_open() for cb in self.circuit_breakers.values()): it stops at the first that is open
unfoldable pub any_open : ℕ → Dict CircuitBreaker → Bool × Dict CircuitBreaker
any_open now [] = (false, [])
any_open now ((service, b) ∷ rest) =
    let (refused, b') = is_open now b in
    let (found, rest') = any_open now rest in
    if refused then (true, (service, b') ∷ rest) else (found, (service, b') ∷ rest')

-- The switch by the abort rate, with its hysteresis: whether the rate is at least 10 per cent, and
-- whether it is at most 5.
unfoldable pub switch : String → Bool → Bool → String
switch current high low =
    if current == "2pc" && high then "saga" else if current == "saga" && low then "2pc" else current

unfoldable pub adapt : MetricsCollector → MetricsCollector
adapt m = record m {
  current_protocol = switch m.current_protocol (rate_at_least_10 m) (rate_at_most_5 m);
}

module _ {W : Type 0} (env : Env W) where
  abbrev pub with_breakers : Dict CircuitBreaker → Orchestrator W → Orchestrator W
  with_breakers breakers o = record o { sys = record (o.sys) { breakers = breakers } }

  abbrev pub with_protocol : String → Orchestrator W → Orchestrator W
  with_protocol protocol o = record o {
    metrics = record (o.metrics) { current_protocol = protocol };
  }

  abbrev select_auto : Bool → Orchestrator W → String × Orchestrator W
  select_auto true o = ("2pc", with_protocol "2pc" o)
  select_auto false o =
      let metrics = adapt o.metrics in (metrics.current_protocol, record o { metrics = metrics })

  -- `_select_protocol`
  unfoldable pub select_protocol : Orchestrator W → String × Orchestrator W
  select_protocol o =
      let (degraded, breakers) = any_open (env.monotonic o.sys.world) o.sys.breakers in
      if not (o.protocol_mode == "auto")
      then (o.protocol_mode, o)
      else select_auto degraded (with_breakers breakers o)

  -- the chosen executor
  unfoldable pub run_protocol :
      String → TransactionDefinition → String → Context → String → Sys W → Outcome × Sys W
  run_protocol protocol tx id context tx_name s =
      if protocol == "2pc"
      then TwoPhase.execute env tx id context tx_name s
      else Saga.execute env tx id context tx_name s

  -- `_execute_inner`
  unfoldable pub execute_inner :
      TransactionDefinition → String → Context → String → Orchestrator W → Result × Orchestrator W
  execute_inner tx tx_name context id o =
      let (protocol, selected) = select_protocol o in
      let o' = with_protocol protocol selected in
      let (outcome, s) = run_protocol protocol tx id context tx_name o'.sys in
      let duration = env.monotonic s.world - env.monotonic o'.sys.world in
      let result : Result = record { outcome = outcome; saga_id = id; protocol = protocol } in
      (
        result,
        record o' {
          metrics =
              record_result (is_success outcome) protocol duration (env.wall s.world) o'.metrics;
          sys = s;
          published = insert id result o'.published;
        },
      )

  abbrev find_and_run :
      Option TransactionDefinition
      → String
      → Context
      → String
      → Orchestrator W
      → Option Result × Orchestrator W
  find_and_run none tx_name context id o = (none, o)
  find_and_run (some tx) tx_name context id o =
      let (result, o') = execute_inner tx tx_name context id o in (some result, o')

  -- `execute`: none is the failure "Unknown transaction"
  unfoldable pub execute :
      String → Context → String → Orchestrator W → Option Result × Orchestrator W
  execute tx_name context id o = find_and_run (lookup tx_name o.definitions) tx_name context id o
