-- ===== src/Stock/Commands.antt =====
-- stock/app.py: the commands that arrive over NATS, and the answers to them.
pub mod Delivery
pub mod Raised
use Prim.Native.String.{◌++◌ as concat}
use dds.Base.{
  ℕ, ◌+◌, String, ◌==◌, Bool, true, false, Option, none, some, List, [], ◌∷◌, if◌then◌else◌,
}
use dds.Base.Int.{ℤ, pos}
use dds.Base.Dict.{Dict, lookup, insert}
use dds.Orchestrator.Value.{Context, Value, get_text}
use dds.Orchestrator.Transport.{Reply, fields}
use dds.Orchestrator.Metrics.{LatencyHistogram, no_latencies, observe}
use dds.Faults.{FaultRule, Injected, maybe_inject}
use dds.Stock.{Stock, Action}
use dds.Stock.Expiry.{run_for}

-- The module's variables: the database, and the metrics of each action.
pub record Service : Type 0 where
  pub stock : Stock
  pub action_counts : Dict (ℕ × ℕ)
  pub action_latency : Dict LatencyHistogram

abbrev counts_or_new : Option (ℕ × ℕ) → ℕ × ℕ
counts_or_new none = (0, 0)
counts_or_new (some c) = c

abbrev latency_or_new : Option LatencyHistogram → LatencyHistogram
latency_or_new none = no_latencies
latency_or_new (some h) = h

-- `_record_metric`, with the successes before the failures
unfoldable pub record_metric : String → Bool → ℕ → Service → Service
record_metric action success ms s =
    let (successes, failures) = counts_or_new (lookup action s.action_counts) in
    record s {
      action_counts =
          insert action (if success then (successes + 1, failures) else (successes, failures + 1))
            s.action_counts;
      action_latency =
          insert action (observe ms (latency_or_new (lookup action s.action_latency)))
            s.action_latency;
    }

abbrev items_in : Option Value → Option (List (String × ℤ))
items_in none = some []
items_in (some (Value.items l)) = some l
items_in (some (Value.text s)) = if s == "" then some [] else none
items_in (some _) = none

-- `_parse_items`: a `Value.items` stands for its JSON text; `none` is an exception of the parser
unfoldable pub parse_items : Context → Option (List (String × ℤ))
parse_items d = items_in (lookup "items" d)

abbrev pub integer : ℤ → Option Value → Option ℤ
integer default none = some default
integer default (some (Value.number n)) = some n
integer default (some _) = none

-- int(fields.get("ttl", "30")): a number stands for its decimal text; `none` is a ValueError
unfoldable pub parse_ttl : Context → Option ℤ
parse_ttl d = integer (pos 30) (lookup "ttl" d)

-- a prepare alone reads it
abbrev pub ttl_for : Action → Option ℤ → Option ℤ
ttl_for Action.prepare parsed = parsed
ttl_for _ parsed = some (pos 30)

-- What `handle_command` does: it returns an event, raises, or the process ends.
pub data Handled : Type 0 where
  event : String → Handled
  raised : String → Handled
  crashed : Handled

unfoldable pub action_of : String → Option Action
action_of action =
    if action == "prepare"
    then some Action.prepare
    else if action == "commit"
    then some Action.commit
    else if action == "abort"
    then some Action.abort
    else if action == "execute"
    then some Action.execute
    else if action == "compensate"
    then some Action.compensate
    else none

-- what a script returned is looked at after a prepare and an execute
abbrev pub outcome_of : Action → Bool → String
outcome_of Action.prepare ok = if ok then "prepared" else "failed"
outcome_of Action.commit ok = "committed"
outcome_of Action.abort ok = "aborted"
outcome_of Action.execute ok = if ok then "executed" else "failed"
outcome_of Action.compensate ok = "compensated"

-- the injection after the command, and the metrics
abbrev pub after : Injected → String → String → ℕ → Service → Handled × Service
after Injected.crash action outcome ms s = (Handled.crashed, s)
after (Injected.raise e) action outcome ms s = (Handled.raised e, s)
after _ action outcome ms s =
    (Handled.event outcome, record_metric action (if outcome == "failed" then false else true) ms s)

-- `none` is an error that Redis raises in the script, which keeps what the script has written before it;
-- "ResponseError" stands for its text
abbrev pub answered :
    Dict FaultRule → String → Action → ℕ → Option Bool × Stock → Service → Handled × Service
answered rules name action ms (none, stock) s =
    (Handled.raised "ResponseError", record s { stock = stock })
answered rules name action ms (some ok, stock) s =
    after (maybe_inject (concat "after_" name) rules) name (outcome_of action ok) ms
      (record s { stock = stock })

abbrev pub perform :
    Dict FaultRule
    → String
    → Action
    → String
    → ℕ
    → Option (List (String × ℤ))
    → Option ℤ
    → Service
    → Handled × Service
perform rules name action id ms none ttl s = (Handled.raised "Expecting value", s)
perform rules name action id ms (some items) none s =
    (Handled.raised "invalid literal for int()", s)
perform rules name action id ms (some items) (some ttl) s =
    answered rules name action ms (run_for id items ttl action s.stock) s

-- the branches on the action: an unknown one is a failure at once
abbrev pub dispatch :
    Dict FaultRule → String → Option Action → Context → ℕ → Service → Handled × Service
dispatch rules name none d ms s = (Handled.event "failed", s)
dispatch rules name (some action) d ms s =
    perform rules name action (get_text "saga_id" "" d) ms (parse_items d)
      (ttl_for action (parse_ttl d)) s

abbrev pub before : Injected → Handled × Service → Service → Handled × Service
before Injected.crash done s = (Handled.crashed, s)
before (Injected.raise e) done s = (Handled.raised e, s)
before _ done s = done

-- handle_command, where `ms` is the time that the command takes
unfoldable pub handle_command : Dict FaultRule → Context → ℕ → Service → Handled × Service
handle_command rules d ms s =
    let name = get_text "action" "" d in
    before (maybe_inject (concat "before_" name) rules)
      (dispatch rules name (action_of name) d ms s) s

-- The response, if the process lives to send one.
abbrev pub response_to : Handled → Option Reply
response_to (Handled.event e) = some (
    if e == "failed"
    then fields (some "failed") (some "insufficient_stock")
    else fields (some e) none)
response_to (Handled.raised e) = some (fields (some "failed") (some e))
response_to Handled.crashed = none

-- handle_nats_message
unfoldable pub handle_nats_message : Dict FaultRule → Context → ℕ → Service → Option Reply × Service
handle_nats_message rules d ms s =
    let (handled, s') = handle_command rules d ms s in (response_to handled, s')
