-- ===== src/Orchestrator/Transport.antt =====
-- What the orchestrator sends and what comes back (orchestrator/transport.py), and the environment
-- in which it runs: the services behind the transport, the clocks and the DLQ stream.
use dds.Base.{ℕ, String, ◌==◌, Bool, false, Option, none, some, [], ◌∷◌}
use dds.Base.Dict.{insert}
use dds.Orchestrator.Value.{Context, Value}
use dds.Orchestrator.Definition.{Step}

-- A result is a dict, of which the executors read "event" and "reason", or some other value,
-- known by its `str`.
pub data Reply : Type 0 where
  fields : Option String → Option String → Reply
  other : String → Reply

-- `send_and_wait` returns, or raises asyncio.TimeoutError, or raises another exception.
pub data Response : Type 0 where
  returned : Reply → Response
  timed_out : Response
  raised : String → Response

pub record Command : Type 0 where
  pub service : String
  pub action : String
  pub payload : Context

pub record Env (W : Type 0) : Type 0 where
  -- transport.send_and_wait
  pub send : Command → W → Response × W
  -- asyncio.sleep, in milliseconds
  pub sleep : ℕ → W → W
  -- time.monotonic and time.time, in milliseconds
  pub monotonic : W → ℕ
  pub wall : W → ℕ
  -- whether XADD to the DLQ stream succeeds
  pub dlq_up : W → Bool

-- isinstance(result, dict) and result.get("event") == event
unfoldable pub is_event : String → Reply → Bool
is_event event (fields (some e) reason) = e == event
is_event event _ = false

-- isinstance(result, dict) and result.get("reason") == reason
unfoldable pub has_reason : String → Reply → Bool
has_reason reason (fields event (some r)) = r == reason
has_reason reason _ = false

-- payload.update(extra)
abbrev pub update : Context → Context → Context
update d [] = d
update d ((k, v) ∷ extra) = update (insert k v d) extra

abbrev pub build :
    Option (String → String → Context → Context) → String → String → Context → Context
build none id action context = []
build (some f) id action context = f id action context

-- {"saga_id": saga_id}, and what the step's builder adds
unfoldable pub payload_of : Step → String → String → Context → Context
payload_of step id action context =
    update (("saga_id", Value.text id) ∷ []) (build step.payload_builder id action context)
