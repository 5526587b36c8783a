-- ===== src/Tests/Warehouse.antt =====
-- The stock service at concrete inputs.
use dds.Base.{eq_iff, String, ◌≡◌, refl, false, some, List, [], ◌∷◌, arith}
use dds.Base.Int.{ℤ, pos, ◌+ℤ◌, ◌-ℤ◌, ◌≤ℤ◌}
use dds.Base.Dict.{Dict, lookup, insert}
use dds.Orchestrator.Value.{Context, Value, get_text}
use dds.Orchestrator.Transport.{fields, Reply}
use dds.Faults.{set_fault, maybe_inject, FaultRule}
use dds.Stock.{
  Item, Stock, Action, run, enough, available, hincrby, take_all, record_all, give_back,
}
use dds.Stock.Replay.{run-run}
use dds.Stock.Levels.{level, demand}
use dds.Stock.Stored.{Fresh}
use dds.Stock.Undo.{prepare_then_abort, execute_then_compensate, commit_then_abort, never_oversells}
use dds.Stock.Commands.{
  Service, handle_nats_message, handle_command, action_of, parse_items, parse_ttl,
}
use dds.Stock.Expiry.{run_for}
use dds.Stock.Commands.Raised.{raised_execute_is_not_undone}
use dds.Orchestrator.Saga.{count_result, start_tally}
use dds.Tests.World.{stock}
use dds.Stock.Commands.Delivery.{redelivery_changes_nothing}
use dds.Stock.Items.Answers.{item_of}

abbrev shelves : Dict Item
shelves = ("bolt", item_of (pos 10) (pos 0) (pos 3)) ∷ ("nut", item_of (pos 4) (pos 0) (pos 1)) ∷ []

abbrev pub store : Stock
store = record { items = shelves; sagas = []; amounts = []; locks = [] }

abbrev pub order : List (String × ℤ)
order = ("bolt", pos 2) ∷ ("nut", pos 4) ∷ []

abbrev too_much : List (String × ℤ)
too_much = ("bolt", pos 2) ∷ ("nut", pos 5) ∷ []

prepared_levels :
    let s = (run "saga-1" order Action.prepare store).1 in
    (available "bolt" s.items ≡ some (pos 8)) × (available "nut" s.items ≡ some (pos 0))
unfolding run enough available hincrby take_all record_all lookup insert ◌+ℤ◌ ◌-ℤ◌
prepared_levels = (refl, refl)

refused : (run "saga-1" too_much Action.prepare store) ≡ (some false, store)
unfolding run enough available lookup
refused = refl

-- An abort that comes after the commit gives the stock back, though it was sold.
abort_after_commit :
    let s = (run "saga-1" order Action.commit (run "saga-1" order Action.prepare store).1).1 in
    available "bolt" (run "saga-1" order Action.abort s).1.items ≡ some (pos 10)
unfolding run enough available hincrby take_all record_all give_back lookup insert ◌+ℤ◌ ◌-ℤ◌
abort_after_commit = refl

run-run_example :
    run "saga-1" order Action.prepare (run "saga-1" order Action.prepare store).1
    ≡ run "saga-1" order Action.prepare store
run-run_example = run-run "saga-1" order Action.prepare store

pub order-Fresh : Fresh [] order
unfolding lookup insert
order-Fresh = (refl, (refl, tt))

prepare_then_abort_example :
    level "nut"
      (run "saga-1" order Action.abort (run "saga-1" order Action.prepare store).1).1.items
    ≡ level "nut" store.items
unfolding lookup
prepare_then_abort_example = prepare_then_abort "saga-1" order store "nut" refl order-Fresh

execute_then_compensate_example :
    level "nut"
      (run "saga-1" order Action.compensate (run "saga-1" order Action.execute store).1).1.items
    ≡ level "nut" store.items
unfolding lookup
execute_then_compensate_example =
    execute_then_compensate "saga-1" order store "nut" refl refl order-Fresh

commit_then_abort_example :
    let s = (run "saga-1" order Action.commit (run "saga-1" order Action.prepare store).1).1 in
    level "nut" (run "saga-1" order Action.abort s).1.items ≡ level "nut" store.items
unfolding run enough available lookup
commit_then_abort_example = commit_then_abort "saga-1" order store "nut" refl order-Fresh refl

never_oversells_example :
    (pos 0 ≤ℤ level "nut" (run "saga-1" order Action.prepare store).1.items)
    × (pos 0 ≤ℤ level "nut" (run "saga-1" order Action.execute store).1.items)
unfolding level available lookup
never_oversells_example = never_oversells "saga-1" order store "nut" order-Fresh (omega arith)

abbrev service : Service
service = record { stock = store; action_counts = []; action_latency = [] }

abbrev message : Context
message =
    ("action", Value.text "execute")
    ∷ ("saga_id", Value.text "saga-1")
    ∷ ("items", Value.items order)
    ∷ []

-- An exception after the deduction is answered as a failure whose reason is not a timeout.
fault_after_execute :
    (handle_nats_message (set_fault "after_execute" "error" 0 []) message 5 service).0
    ≡ some (fields (some "failed") (some "Injected fault at after_execute"))
unfolding handle_nats_message handle_command set_fault maybe_inject action_of parse_items run_for
    get_text run enough available lookup insert
fault_after_execute = refl

abbrev raising : Dict FaultRule
raising = set_fault "after_execute" "error" 0 []

raised_execute_is_not_undone_example :
    let (response, s) = handle_nats_message raising message 5 service in
    (reply : Reply) × (response ≡ some reply)
    × ((count_result stock reply start_tally).completed_steps ≡ start_tally.completed_steps)
    × (level "nut" s.stock.items +ℤ demand "nut" order ≡ level "nut" service.stock.items)
unfolding set_fault maybe_inject get_text parse_items enough available lookup insert
raised_execute_is_not_undone_example =
    raised_execute_is_not_undone raising message 5 service "saga-1"
      "Injected fault at after_execute" order stock start_tally "nut" refl refl refl refl refl
      (λ e. cc ((eq_iff "Injected fault at after_execute" "timeout").1 e)) refl refl

abbrev voting : Context
voting =
    ("action", Value.text "prepare")
    ∷ ("saga_id", Value.text "saga-1")
    ∷ ("items", Value.items order)
    ∷ ("ttl", Value.number (pos 300))
    ∷ []

redelivery_changes_nothing_example :
    let (response, s) = handle_nats_message [] voting 5 service in
    let (response', s') = handle_nats_message [] voting 9 s in
    (response' ≡ response) × (s'.stock ≡ s.stock)
unfolding parse_ttl lookup
redelivery_changes_nothing_example = redelivery_changes_nothing [] voting 5 9 service (λ e. refl)

-- With a time to live of 0, the first item is taken by each delivery, and none of them answers a success.
abbrev unlocked : Context
unlocked = insert "ttl" (Value.number (pos 0)) voting

taken_twice :
    let (response, s) = handle_nats_message [] unlocked 5 service in
    (response ≡ some (fields (some "failed") (some "ResponseError")))
    × (available "bolt" (handle_nats_message [] unlocked 5 s).1.stock.items ≡ some (pos 6))
unfolding handle_nats_message handle_command maybe_inject action_of parse_items parse_ttl run_for
    get_text run enough available hincrby lookup insert ◌+ℤ◌ ◌-ℤ◌
taken_twice = (refl, refl)
