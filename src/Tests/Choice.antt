-- ===== src/Tests/Choice.antt =====
-- The choice of the protocol at concrete inputs.
use dds.Base.{String, ◌+◌, ◌≡◌, refl, Bool, true, false, some, [], ◌∷◌, All}
use dds.Base.Dict.{insert, lookup}
use dds.Orchestrator.Breaker.{State, CircuitBreaker, create}
use dds.Orchestrator.Metrics.{MetricsCollector, new_metrics}
use dds.Orchestrator.Core.{
  new_orchestrator, new_breakers, add_breakers, Orchestrator, is_success, execute_inner,
}
use dds.Orchestrator.Core.Wedge.{IsProbing, lost_probe_blocks}
use dds.Orchestrator.Core.Recovery.{Call, run_calls, elapse, Fails, auto_never_recovers}
use dds.Orchestrator.Wal
use dds.Tests.World.{breakers, World, env, event, checkout, definitions, context, system}

abbrev cut_off : State → Bool → CircuitBreaker
cut_off state probing = record {
  failure_threshold = 5;
  recovery_timeout = 30000;
  failure_count = 5;
  last_failure_time = some 1000;
  state = state;
  probe_in_flight = probing;
}

abbrev with_stock : CircuitBreaker → Orchestrator World
with_stock b = record {
  definitions = definitions;
  protocol_mode = "auto";
  metrics = new_metrics 100;
  sys =
      system (event "executed" ∷ event "executed" ∷ []) Wal.empty
        (("stock", b) ∷ ("payment", create 5 30000) ∷ []);
  published = [];
}

abbrev due : Orchestrator World
due = with_stock (cut_off State.opened false)

abbrev later : Call World
later = record {
  pass = λ w. record w { clock = w.clock + 60000 };
  context = context;
  id = "saga-8";
}

-- two calls, each a minute after the one before
auto_never_recovers_example :
    let (results, o) = run_calls env "stock" "checkout" checkout (later ∷ later ∷ []) due in
    All (Fails env "stock" "checkout" checkout) results
    × (o.sys.world ≡ elapse env "stock" "checkout" checkout (later ∷ later ∷ []) due.sys.world)
unfolding lookup
auto_never_recovers_example =
    auto_never_recovers env "stock" "checkout" checkout later (later ∷ []) due refl refl refl
      (λ e. cc, ((refl, refl, refl), (refl, tt)))

lost_probe_blocks_example :
    let (result, o) =
      execute_inner env checkout "checkout" context "saga-9"
        (with_stock (cut_off State.half_open true)) in
    (is_success result.outcome ≡ false)
    × IsProbing "stock" o.sys.breakers
    × (o.sys.world ≡ (with_stock (cut_off State.half_open true)).sys.world)
unfolding lookup
lost_probe_blocks_example =
    lost_probe_blocks env "stock" checkout "checkout" context "saga-9"
      (with_stock (cut_off State.half_open true)) refl (refl, refl)

-- one failure in two results
abbrev window : String → MetricsCollector
window protocol = record (new_metrics 100) {
  results =
      record { success = true; protocol = protocol; timestamp = 10 }
      ∷ record { success = false; protocol = protocol; timestamp = 20 }
      ∷ [];
  current_protocol = protocol;
}

started :
    (new_orchestrator (checkout ∷ []) "auto" [] (system [] Wal.empty [])).sys.breakers ≡ breakers
unfolding new_orchestrator new_breakers add_breakers insert
started = refl
