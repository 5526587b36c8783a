-- ===== src/Tests/Recovering.antt =====
-- The recovery worker at concrete inputs.
use dds.Base.{◌≡◌, refl, true, none, some, [], ◌∷◌}
use dds.Base.Dict.{lookup, erase, insert}
use dds.Orchestrator.Wal.{log, is_terminal}
use dds.Orchestrator.Transport.{fields, is_event}
use dds.Orchestrator.System.{Effect, answer, Sys}
use dds.Orchestrator.TwoPhase.Protocol.{Phase, phase, advance}
use dds.Orchestrator.Recovery.{
  recover_saga, recover_incomplete_sagas, abort_orphaned_sagas, log_end,
}
use dds.Orchestrator.Recovery.Decisions.{recovery_keeps_decision, decision}
use dds.Orchestrator.Recovery.Resolution.{recovery_leaves_none}
use dds.Orchestrator.Recovery.Worker.{reconciliation_round, reconcile}
use dds.Orchestrator.Recovery.Worker.Orphans.{round_ends_orphans}
use dds.Orchestrator.Recovery.Lost.{
  compensating_data, compensations, compensation_is_lost, orphans_are_not_compensated,
}
use dds.Tests.World.{World, env, event, stock, definitions, context, breakers, system, begin}
use dds.Tests.Log.{logged, logged-IsIndexed}

-- interrupted after COMMITTING was logged
abbrev committing : Sys World
committing = record (begin (event "committed" ∷ event "committed" ∷ [])) {
  trace =
      Effect.logged "COMMITTING"
      ∷ Effect.sent "charge_payment" "prepare" (answer (fields (some "prepared") none))
      ∷ Effect.sent "reserve_stock" "prepare" (answer (fields (some "prepared") none))
      ∷ Effect.logged "PREPARING"
      ∷ [];
}

recovery_keeps_decision_example :
    (s' : Sys World) × (recover_saga env definitions "saga-1"
        (decision true)
        (some context)
        committing
      ≡ some s')
    × (phase s'.trace ≡ Phase.finished true)
unfolding phase advance is_event
recovery_keeps_decision_example =
    recovery_keeps_decision env definitions "saga-1" true context committing refl

abbrev crashed : Sys World
crashed = system (event "committed" ∷ []) logged breakers

recovery_leaves_none_example :
    lookup "saga-1" (recover_incomplete_sagas env definitions logged.active crashed).wal.states
    ≡ none
recovery_leaves_none_example =
    recovery_leaves_none env definitions logged.active crashed logged-IsIndexed (λ j. refl) "saga-1"

compensation_is_lost_example :
    recover_saga env definitions "saga-1" "COMPENSATING"
      (some (compensating_data context (stock ∷ [])))
      (begin [])
    ≡ some (log_end env definitions "saga-1" "FAILED" (begin []))
unfolding lookup
compensation_is_lost_example =
    compensation_is_lost env definitions "saga-1" context (stock ∷ []) (begin []) refl refl

orphans_are_not_compensated_example :
    compensations (abort_orphaned_sagas env definitions logged.active crashed).trace
    ≡ compensations crashed.trace
orphans_are_not_compensated_example =
    orphans_are_not_compensated env definitions logged.active crashed

-- five minutes later, with no callback
abbrev forgotten : Sys World
forgotten = record crashed { world = record (crashed.world) { clock = 300000 } }

round_ends_orphans_example :
    lookup "saga-1" (reconciliation_round env definitions none logged.active forgotten).1.wal.states
    ≡ none
unfolding reconcile lookup log is_terminal erase insert
round_ends_orphans_example =
    round_ends_orphans env definitions none logged.active forgotten
      (record forgotten { world = env.sleep 60000 forgotten.world }) refl logged-IsIndexed
      (λ j. refl) "saga-1"
