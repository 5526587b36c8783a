-- ===== src/Tests/Shopping.antt =====
-- A checkout across the services, and batches, payments and metrics, at concrete inputs.
use dds.Base.{String, ◌≡◌, refl, false, true, none, some, [], ◌∷◌, inl, inr, arith}
use dds.Base.Decimal.{str_nat, digits}
use dds.Base.Int.{pos, ◌+ℤ◌, ◌-ℤ◌, ◌≤ℤ◌}
use dds.Base.Dict.{Dict, lookup}
use dds.Orchestrator.Wal
use dds.Orchestrator.System.{Sys}
use dds.Orchestrator.Executor.{check_circuit_breakers, failure, success}
use dds.Orchestrator.TwoPhase
use dds.Orchestrator.Saga
use dds.Orchestrator.Metrics.{no_latencies, zero_counts}
use dds.Orchestrator.Metrics.Histogram.{observe_all, at_most}
use dds.Orchestrator.Metrics.Exposition.{prometheus_lines}
use dds.Orchestrator.Metrics.Exposition.Counts.{count_at, count_of, exposition_is_exact}
use dds.Order.{checkout_tx}
use dds.Stock
use dds.Stock.{enough}
use dds.Stock.Levels.{level, demand}
use dds.Payment
use dds.Payment.{User}
use dds.Payment.Undo.{credit}
use dds.Batches.{Executed}
use dds.Payment.Users.{Answer, batch_init_users, find_user, remove_credit}
use dds.Payment.Users.Answers.{user_of, batch_then_find, pay_then_find}
use dds.Results.{Waited, wait_for_result, no_result_is_missed}
use dds.Shop.{Shop, env}
use dds.Shop.Deliveries.{context}
use dds.Shop.SagaConservation.{saga_conserves}
use dds.Shop.Agreement.{Agree, protocols_agree}
use dds.Shop.Conservation.{checkout_conserves}
use dds.Tests.Warehouse.{store, order, order-Fresh}
use dds.Tests.Wallet.{wallet}

abbrev shop : Shop
shop = record {
  stock = record { stock = store; action_counts = []; action_latency = [] };
  payment = record { payment = wallet; action_counts = []; action_latency = [] };
}

abbrev start : Sys Shop
start = record { wal = Wal.empty; dlq = []; breakers = []; trace = []; world = shop }

checkout_conserves_example :
    let (outcome, s) =
      TwoPhase.execute env checkout_tx "saga-1"
        (context "saga-1" "order-7" "ann" ("bolt", pos 2) (("nut", pos 4) ∷ []) (pos 12))
        "checkout"
        start in
    (outcome ≡ success)
    × (level "bolt" s.world.stock.stock.items +ℤ demand "bolt" order ≡ level "bolt" store.items)
    × (credit "bolt" s.world.payment.payment.users +ℤ pos 0 ≡ credit "bolt" wallet.users)
unfolding check_circuit_breakers lookup enough Stock.available Payment.available
checkout_conserves_example =
    checkout_conserves "saga-1" "order-7" "ann" ("bolt", pos 2) (("nut", pos 4) ∷ []) (pos 12)
      "checkout" start refl refl refl "bolt" order-Fresh refl

saga_conserves_example :
    let (outcome, s) =
      Saga.execute env checkout_tx "saga-1"
        (context "saga-1" "order-7" "ann" ("bolt", pos 2) (("nut", pos 4) ∷ []) (pos 31))
        "checkout"
        start in
    ((reason : String) × (outcome ≡ failure reason))
    × (level "bolt" s.world.stock.stock.items ≡ level "bolt" store.items)
    × (credit "bolt" s.world.payment.payment.users ≡ credit "bolt" wallet.users)
unfolding check_circuit_breakers lookup enough Stock.available Payment.available
saga_conserves_example =
    saga_conserves "saga-1" "order-7" "ann" ("bolt", pos 2) (("nut", pos 4) ∷ []) (pos 31)
      "checkout" start refl refl refl refl refl "bolt" order-Fresh refl

protocols_agree_example :
    Agree "ann"
      (TwoPhase.execute env checkout_tx "saga-1"
        (context "saga-1" "order-7" "ann" ("bolt", pos 2) (("nut", pos 4) ∷ []) (pos 12))
        "checkout"
        start)
      (Saga.execute env checkout_tx "saga-1"
        (context "saga-1" "order-7" "ann" ("bolt", pos 2) (("nut", pos 4) ∷ []) (pos 12))
        "checkout"
        start)
unfolding check_circuit_breakers lookup
protocols_agree_example =
    protocols_agree "saga-1" "order-7" "ann" ("bolt", pos 2) (("nut", pos 4) ∷ []) (pos 12)
      "checkout" "ann" start refl refl refl refl refl order-Fresh refl

abbrev users : Dict User
users = ("ann", user_of (pos 30) (pos 5)) ∷ []

pay_then_find_example :
    let (answer, d) = remove_credit "ann" (pos 12) (some users) in
    (answer ≡ Answer.ok (pos 30 -ℤ pos 12))
    × (pos 0 ≤ℤ pos 30 -ℤ pos 12)
    × (find_user "ann" d none ≡ Answer.ok ((pos 30 -ℤ pos 12) +ℤ pos 5))
pay_then_find_example = pay_then_find "ann" (pos 30) (pos 5) (pos 12) users (unfold lookup in refl)

exposition_is_exact_example :
    let lines =
      prometheus_lines "d" "protocol=\"2pc\"" (observe_all (7 ∷ 30 ∷ 12 ∷ []) no_latencies) in
    (count_at 25 lines ≡ some (at_most 25 (7 ∷ 30 ∷ 12 ∷ []))) × (count_of lines ≡ some 3)
unfolding zero_counts
exposition_is_exact_example = exposition_is_exact "d" "protocol=\"2pc\"" 25 (7 ∷ 30 ∷ 12 ∷ []) refl

-- a message is lost, one comes too early, and the result is found in the end
no_result_is_missed_example :
    wait_for_result {R = String} none none
      ((false, none) ∷ (true, none) ∷ (false, some "ok") ∷ [])
      (some "ok")
    ≡ Waited.result "ok"
no_result_is_missed_example =
    no_result_is_missed none none ((false, none) ∷ (true, none) ∷ (false, some "ok") ∷ [])
      (some "ok") (inl refl) (inl refl) (inl refl, (inl refl, (inr refl, tt)))

batch_then_find_example :
    find_user "3" (some (batch_init_users (λ start. Executed.done) 5 2 (pos 100) []).1) none
    ≡ Answer.ok (pos 100)
unfolding str_nat digits
batch_then_find_example =
    batch_then_find (λ start. Executed.done) 5 2 3 (pos 100) [] (λ start. refl) (omega arith)
