-- ===== src/Shop.antt =====
-- The order service's orchestrator with the stock and the payment service behind the NATS transport, where
-- nothing is lost and no fault is injected: the world in which common/nats_transport.py sends the commands of
-- a checkout to the handlers of stock/app.py and payment/app.py. Time is not observed.
pub mod Deliveries
pub mod Settlement
pub mod Executed
pub mod Contract
pub mod Conservation
pub mod SagaConservation
pub mod Agreement
use text.Mathlib.Text.{starts_with}
use dds.Base.{ℕ, String, ◌==◌, Bool, true, false, Option, none, some, List, [], ◌∷◌, if◌then◌else◌}
use dds.Orchestrator.Value.{Context}
use dds.Orchestrator.Transport.{Reply, Response, returned, timed_out, raised, Command, Env}
use dds.Nats.{send_and_wait}
use dds.Stock.Commands as Stock
use dds.Payment.Commands as Payment

pub record Shop : Type 0 where
  pub stock : Stock.Service
  pub payment : Payment.Service

abbrev pub response_of : Option Reply → Response
response_of none = timed_out
response_of (some reply) = returned reply

-- what a subject reaches: the service that has subscribed to it
unfoldable pub deliver : String → Context → Shop → Response × Shop
deliver subject msg w =
    if starts_with subject "svc.stock."
    then (let (reply, s) = Stock.handle_nats_message [] msg 0 w.stock in
        (response_of reply, record w { stock = s }))
    else if starts_with subject "svc.payment."
    then (let (reply, s) = Payment.handle_nats_message [] msg 0 w.payment in
        (response_of reply, record w { payment = s }))
    else (raised "no responders", w)

unfoldable pub send : Command → Shop → Response × Shop
send c w =
    let (reply, w') = send_and_wait deliver (λ ms s. s) c.service c.action c.payload w in
    (returned reply, w')

abbrev pub env : Env Shop
env = record {
  send = send;
  sleep = λ ms w. w;
  monotonic = λ w. 0;
  wall = λ w. 0;
  dlq_up = λ w. true;
}
