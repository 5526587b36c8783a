-- ===== src/Payment/Commands.antt =====
-- payment/app.py: the commands that arrive over NATS, and the answers to them, as for the stock service.
use Prim.Native.String.{◌++◌ as concat}
use dds.Base.{ℕ, ◌+◌, String, ◌==◌, Bool, true, false, Option, none, some, if◌then◌else◌}
use dds.Base.Int.{ℤ, pos}
use dds.Base.Dict.{Dict, lookup, insert}
use dds.Orchestrator.Value.{Context, get_text}
use dds.Orchestrator.Transport.{Reply, fields}
use dds.Orchestrator.Metrics.{LatencyHistogram, no_latencies, observe}
use dds.Faults.{FaultRule, Injected, maybe_inject}
use dds.Stock.{Action}
use dds.Stock.Commands.{Handled, action_of, outcome_of, integer, parse_ttl, ttl_for}
use dds.Payment.{Payment}
use dds.Payment.Expiry.{run_for}

pub record Service : Type 0 where
  pub payment : Payment
  pub action_counts : Dict (ℕ × ℕ)
  pub action_latency : Dict LatencyHistogram

abbrev counts_or_new : Option (ℕ × ℕ) → ℕ × ℕ
counts_or_new none = (0, 0)
counts_or_new (some c) = c

abbrev latency_or_new : Option LatencyHistogram → LatencyHistogram
latency_or_new none = no_latencies
latency_or_new (some h) = h

-- `_record_metric`, with the successes before the failures
unfoldable pub record_metric : String → Bool → ℕ → Service → Service
record_metric action success ms s =
    let (successes, failures) = counts_or_new (lookup action s.action_counts) in
    record s {
      action_counts =
          insert action (if success then (successes + 1, failures) else (successes, failures + 1))
            s.action_counts;
      action_latency =
          insert action (observe ms (latency_or_new (lookup action s.action_latency)))
            s.action_latency;
    }

-- int(fields.get("amount", "0")): a number stands for its decimal text; `none` is a ValueError
unfoldable pub parse_amount : Context → Option ℤ
parse_amount d = integer (pos 0) (lookup "amount" d)

-- an abort and a compensation do not read the amount
abbrev pub amount_for : Action → Option ℤ → Option ℤ
amount_for Action.abort parsed = some (pos 0)
amount_for Action.compensate parsed = some (pos 0)
amount_for _ parsed = parsed

abbrev pub after : Injected → String → String → ℕ → Service → Handled × Service
after Injected.crash action outcome ms s = (Handled.crashed, s)
after (Injected.raise e) action outcome ms s = (Handled.raised e, s)
after _ action outcome ms s =
    (Handled.event outcome, record_metric action (if outcome == "failed" then false else true) ms s)

abbrev pub answered :
    Dict FaultRule → String → Action → ℕ → Option Bool × Payment → Service → Handled × Service
answered rules name action ms (none, payment) s =
    (Handled.raised "ResponseError", record s { payment = payment })
answered rules name action ms (some ok, payment) s =
    after (maybe_inject (concat "after_" name) rules) name (outcome_of action ok) ms
      (record s { payment = payment })

abbrev pub perform :
    Dict FaultRule
    → String
    → Action
    → Context
    → ℕ
    → Option ℤ
    → Option ℤ
    → Service
    → Handled × Service
perform rules name action d ms none amount s = (Handled.raised "invalid literal for int()", s)
perform rules name action d ms (some ttl) none s = (Handled.raised "invalid literal for int()", s)
perform rules name action d ms (some ttl) (some amount) s =
    answered rules name action ms
      (run_for (get_text "saga_id" "" d) (get_text "user_id" "" d) amount ttl action s.payment) s

-- the branches on the action: an unknown one is a failure at once
abbrev pub dispatch :
    Dict FaultRule → String → Option Action → Context → ℕ → Service → Handled × Service
dispatch rules name none d ms s = (Handled.event "failed", s)
dispatch rules name (some action) d ms s =
    perform rules name action d ms (ttl_for action (parse_ttl d))
      (amount_for action (parse_amount d)) s

abbrev before_all : Injected → Handled × Service → Service → Handled × Service
before_all Injected.crash done s = (Handled.crashed, s)
before_all (Injected.raise e) done s = (Handled.raised e, s)
before_all _ done s = done

-- handle_command, where `ms` is the time that the command takes
unfoldable pub handle_command : Dict FaultRule → Context → ℕ → Service → Handled × Service
handle_command rules d ms s =
    let name = get_text "action" "" d in
    before_all (maybe_inject (concat "before_" name) rules)
      (dispatch rules name (action_of name) d ms s) s

abbrev pub response_to : Handled → Option Reply
response_to (Handled.event e) = some (
    if e == "failed"
    then fields (some "failed") (some "insufficient_credit")
    else fields (some e) none)
response_to (Handled.raised e) = some (fields (some "failed") (some e))
response_to Handled.crashed = none

-- handle_nats_message
unfoldable pub handle_nats_message : Dict FaultRule → Context → ℕ → Service → Option Reply × Service
handle_nats_message rules d ms s =
    let (handled, s') = handle_command rules d ms s in (response_to handled, s')
