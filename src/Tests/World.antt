-- ===== src/Tests/World.antt =====
-- A small world to run in: the answers that are still to come, the time, and whether the dead letter
-- queue is up.
use dds.Base.{ℕ, ◌+◌, String, Bool, true, none, some, List, [], ◌∷◌}
use dds.Base.Int.{pos}
use dds.Base.Dict.{Dict}
use dds.Orchestrator.Value.{Context, Value}
use dds.Orchestrator.Definition.{Step, TransactionDefinition}
use dds.Orchestrator.Transport.{fields, Response, returned, raised, Env}
use dds.Orchestrator.Wal
use dds.Orchestrator.Wal.{Wal}
use dds.Orchestrator.Breaker.{CircuitBreaker, create}
use dds.Orchestrator.System.{Sys}

pub record World : Type 0 where
  pub answers : List Response
  pub clock : ℕ
  pub queue_up : Bool

abbrev next : List Response → Response × List Response
next [] = (raised "no responders", [])
next (r ∷ rs) = (r, rs)

-- each answer takes 10 milliseconds
abbrev pub env : Env World
env = record {
  send = λ command w.
      let (response, rest) = next w.answers in
      (response, record w { answers = rest; clock = w.clock + 10 });
  sleep = λ ms w. record w { clock = w.clock + ms };
  monotonic = λ w. w.clock;
  wall = λ w. w.clock;
  dlq_up = λ w. w.queue_up;
}

abbrev pub event : String → Response
event e = returned (fields (some e) none)

abbrev pub refusal : String → Response
refusal reason = returned (fields (some "failed") (some reason))

abbrev pub stock : Step
stock = record {
  name = "reserve_stock";
  service = "stock";
  payload_builder =
      some (λ id action context. ("items", Value.items (("item-1", pos 2) ∷ [])) ∷ []);
}

abbrev pub payment : Step
payment = record { name = "charge_payment"; service = "payment"; payload_builder = none }

abbrev pub checkout : TransactionDefinition
checkout = record { name = "checkout"; steps = stock ∷ payment ∷ [] }

abbrev pub definitions : Dict TransactionDefinition
definitions = ("checkout", checkout) ∷ []

abbrev pub context : Context
context = ("order_id", Value.text "order-7") ∷ []

abbrev pub breakers : Dict CircuitBreaker
breakers = ("stock", create 5 30000) ∷ ("payment", create 5 30000) ∷ []

abbrev pub system : List Response → Wal → Dict CircuitBreaker → Sys World
system answers wal breakers = record {
  wal = wal;
  dlq = [];
  breakers = breakers;
  trace = [];
  world = record { answers = answers; clock = 500000; queue_up = true };
}

abbrev pub begin : List Response → Sys World
begin answers = system answers Wal.empty breakers
