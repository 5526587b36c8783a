-- ===== src/Shop/Deliveries.antt =====
-- What the commands of a checkout do to the services that they reach.
pub mod Voting
pub mod Executing
use Prim.Native.String.{◌++◌ as concat}
use dds.Base.{
  ℕ, suc, String, ◌==◌, ◌≡◌, refl, ap, ◌∙◌, Bool, true, false, ◌||◌, Option, none, some, List, [],
  ◌∷◌, Bool-cases, inl, inr,
}
use dds.Base.Int.{ℤ, pos}
use dds.Base.Dict.{lookup, insert}
use dds.Orchestrator.Value.{Context, Value, get_text}
use dds.Orchestrator.Definition.{Step}
use dds.Orchestrator.Transport.{Reply, fields, Response, returned, payload_of}
use dds.Orchestrator.Executor.Answered.{command, Answers}
use dds.Order.{stock_payload, payment_payload}
use dds.Nats.{send_and_wait, attempts, judge}
use dds.Stock
use dds.Stock.{Action, Stock}
use dds.Faults.{maybe_inject}
use dds.Payment
use dds.Payment.{Payment}
use dds.Stock.Commands as StockCommands
use dds.Payment.Commands as PaymentCommands
use dds.Shop.{Shop, env, send, deliver, response_of}

abbrev pub stock_step : Step
stock_step = record {
  name = "reserve_stock";
  service = "stock";
  payload_builder = some stock_payload;
}

abbrev pub payment_step : Step
payment_step = record {
  name = "reserve_payment";
  service = "payment";
  payload_builder = some payment_payload;
}

-- the context of a checkout, with the items already aggregated
abbrev pub context_of : String → String → List (String × ℤ) → ℤ → Context
context_of order user items cost =
    ("order_id", Value.text order)
    ∷ ("user_id", Value.text user)
    ∷ ("items", Value.items items)
    ∷ ("total_cost", Value.number cost)
    ∷ []

-- A response of the service is the answer to the command: the transport asks no more than once.
answered_at_once :
    (left backoff : ℕ) (subject : String) (msg : Context) (w w' : Shop) (reply : Reply)
    → deliver subject msg w ≡ (returned reply, w')
    → attempts deliver (λ ms s. s) (suc left) backoff "" subject msg w ≡ (reply, w')
unfolding attempts judge
answered_at_once left backoff subject msg w w' reply e =
    rw (attempts, e) (ap (λ (r : Response × Shop). (reply, r.1)) e)

abbrev returning : Reply × Shop → Response × Shop
returning (reply, w) = (returned reply, w)

send_answered :
    (step : Step) (id action : String) (context : Context) (w w' : Shop) (reply : Reply)
    → deliver
        (concat (concat (concat "svc." step.service) ".") action)
        (insert "action" (Value.text action) (payload_of step id action context))
        w
      ≡ (returned reply, w')
    → send (command env step id action context) w ≡ (returned reply, w')
unfolding send send_and_wait
send_answered step id action context w w' reply e =
    elim (Bool-cases (action == "prepare" || action == "execute")) [
      | inl once ↦ rw once (ap returning (answered_at_once 0 _ _ _ w w' reply e))
      | inr more ↦ rw more (ap returning (answered_at_once 5 _ _ _ w w' reply e))
    ]

-- what the services answer, and how they are left, where the scripts have run with a result
abbrev pub after_stock : String → Bool → Stock → Shop → Shop
after_stock name ok st w = record w {
  stock = StockCommands.record_metric name ok 0 (record (w.stock) { stock = st });
}

abbrev pub after_payment : String → Bool → Payment → Shop → Shop
after_payment name ok p w = record w {
  payment = PaymentCommands.record_metric name ok 0 (record (w.payment) { payment = p });
}

abbrev pub event : String → Reply
event e = fields (some e) none

abbrev pub failed : String → Reply
failed reason = fields (some "failed") (some reason)

abbrev stock_result : String → Action → Option Bool × Stock → Shop → Response × Shop
stock_result name a r w =
    let (handled, s) = StockCommands.answered [] name a 0 r w.stock in
    (response_of (StockCommands.response_to handled), record w { stock = s })

abbrev payment_result : String → Action → Option Bool × Payment → Shop → Response × Shop
payment_result name a r w =
    let (handled, s) = PaymentCommands.answered [] name a 0 r w.payment in
    (response_of (PaymentCommands.response_to handled), record w { payment = s })

module _ (id order user : String) (line : String × ℤ) (lines : List (String × ℤ)) (cost : ℤ) where
  abbrev pub context : Context
  context = context_of order user (line ∷ lines) cost

  abbrev stock_msg : String → Context
  stock_msg action = insert "action" (Value.text action) (payload_of stock_step id action context)

  abbrev payment_msg : String → Context
  payment_msg action =
      insert "action" (Value.text action) (payload_of payment_step id action context)
