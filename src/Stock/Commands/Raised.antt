-- ===== src/Stock/Commands/Raised.antt =====
-- A command that was carried out but answered with an exception.
use Prim.Native.String.{◌++◌ as concat}
use dds.Base.{ℕ, String, ◌==◌, eq_iff, ◌≡◌, ◌≢◌, refl, true, none, some, List, Bool-cases, inl, inr}
use dds.Base.Int.{ℤ, ◌+ℤ◌}
use dds.Base.Dict.{Dict, lookup}
use dds.Orchestrator.Value.{Context, get_text}
use dds.Orchestrator.Definition.{Step}
use dds.Orchestrator.Transport.{Reply, fields, is_event, has_reason}
use dds.Orchestrator.Saga.{Tally, count_result}
use dds.Faults.{FaultRule, Injected, maybe_inject}
use dds.Stock.{Action, run, enough, deducted}
use dds.Stock.Expiry.{run_for}
use dds.Stock.Levels.{level, demand, level-take_all}
use dds.Stock.Commands.{Service, handle_command, handle_nats_message, action_of, parse_items}

-- the saga takes such a step for one that did not run
failed_is_not_completed :
    (step : Step) (reason : String) (t : Tally)
    → reason ≢ "timeout"
    → (count_result step (fields (some "failed") (some reason)) t).completed_steps
      ≡ t.completed_steps
unfolding is_event has_reason
failed_is_not_completed step reason t h = elim (Bool-cases (reason == "timeout")) [
  | inl same ↦ absurd (h ((eq_iff reason "timeout").0 same))
  | inr other ↦ rw other refl
]

module _ (rules : Dict FaultRule) (d : Context) (ms : ℕ) (s : Service) (id reason : String)
    (items : List (String × ℤ)) where
  -- If the handler raises after an execute of a new saga that has taken its items, the reply is a failure for
  -- which a saga does not count the step as one to compensate, unless the exception reads "timeout"; yet the
  -- items are gone.
  pub raised_execute_is_not_undone :
      (step : Step) (t : Tally) (j : String)
      → get_text "action" "" d ≡ "execute"
      → get_text "saga_id" "" d ≡ id
      → parse_items d ≡ some items
      → maybe_inject (concat "before_" "execute") rules ≡ Injected.carry_on
      → maybe_inject (concat "after_" "execute") rules ≡ Injected.raise reason
      → reason ≢ "timeout"
      → lookup id s.stock.sagas ≡ none
      → enough items s.stock.items ≡ true
      → let (response, s') = handle_nats_message rules d ms s in
        (reply : Reply) × (response ≡ some reply)
        × ((count_result step reply t).completed_steps ≡ t.completed_steps)
        × (level j s'.stock.items +ℤ demand j items ≡ level j s.stock.items)
  unfolding handle_nats_message handle_command action_of run run_for
  raised_execute_is_not_undone step t j act who what calm raises late new fits =
      let ran : run id items Action.execute s.stock ≡ (some true, deducted id items s.stock) =
        rw (new, fits) refl in
      rw (act, who, what, calm, ran, raises)
        (
          fields (some "failed") (some reason),
          refl,
          failed_is_not_completed step reason t late,
          level-take_all j items s.stock.items,
        )
