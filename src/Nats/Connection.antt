-- ===== src/Nats/Connection.antt =====
-- common/nats_transport.py, class NatsTransport: the connection, the subscriptions and the headers of a
-- request, and class _JsMsgAdapter. The NATS server is a parameter: whether a call of it raises. A handler
-- is known by its subject and its queue.
pub mod Recreated
use Prim.Native.String.{◌++◌ as concat}
use dds.Base.{
  ℕ, String, ◌==◌, Bool, true, false, ◌||◌, Option, none, some, List, [], ◌∷◌, ◌++◌, if◌then◌else◌,
}
use dds.Base.Dict.{Dict, lookup}
use dds.Base.Split.{rsplit_once}
use dds.Base.Retry.{Attempted, attempts}
use dds.Orchestrator.Value.{Context, get_text}

-- `_nc` and `_js`, `_subs` and `_sub_params`. A subscription is known by what it was made for.
pub record Transport : Type 0 where
  pub connected : Bool
  pub subs : List (String × String)
  pub sub_params : List (String × String)

abbrev pub new_transport : Transport
new_transport = record { connected = false; subs = []; sub_params = [] }

-- What the server does with a call: it is carried out, or it raises.
abbrev pub Server : Type 0
Server = String × String → Option String

-- connect, where a try is the connection and the stream that is made sure of
unfoldable pub connect :
    {W : Type 0} → (W → Option String × W) → (ℕ → W → W) → ℕ → ℕ → W → Attempted × W
connect try sleep retries delay w = attempts try (sleep delay) retries 1 w

abbrev pub subscribed : Option String → String × String → Transport → Option String × Transport
subscribed none params t = (none, record t { subs = t.subs ++ params ∷ [] })
subscribed (some e) params t = (some e, t)

-- `_js_subscribe`
unfoldable pub js_subscribe : Server → String × String → Transport → Option String × Transport
js_subscribe server params t = subscribed (server params) params t

-- subscribe: the parameters are kept first
unfoldable pub subscribe : Server → String × String → Transport → Option String × Transport
subscribe server params t =
    js_subscribe server params (record t { sub_params = t.sub_params ++ params ∷ [] })

-- the loop over the parameters: an exception ends it
unfoldable pub subscribe_all :
    Server → List (String × String) → Transport → Option String × Transport
subscribe_all server [] t = (none, t)
subscribe_all server (params ∷ rest) t = elim (server params) [
  | none ↦ subscribe_all server rest (record t { subs = t.subs ++ params ∷ [] })
  | some e ↦ (some e, t)
]

-- `_reconnect_ensure_stream`, with what the server does when the stream is made sure of: the old
-- subscriptions are ended, whether or not that raises; an exception is logged, and what it returns here
unfoldable pub reconnect : Option String → Server → Transport → Option String × Transport
reconnect (some e) server t = (some e, t)
reconnect none server t = subscribe_all server t.sub_params (record t { subs = [] })

-- close
unfoldable pub close : Transport → Transport
close t = record t { connected = false; subs = [] }

abbrev last_part : String → Option (String × String) → String
last_part subject none = subject
last_part subject (some (before, after)) = after

-- the headers of `request`: the inbox, and for the commands that must not be delivered twice a message id
unfoldable pub request_headers : String → String → Context → Dict String
request_headers inbox subject payload =
    let action = last_part subject (rsplit_once "." subject) in
    if action == "prepare" || action == "execute"
    then ("Reply-To", inbox)
      ∷ ("Nats-Msg-Id", concat (concat (get_text "saga_id" "" payload) "-") subject)
      ∷ []
    else ("Reply-To", inbox) ∷ []

-- What `_JsMsgAdapter.respond` does: it publishes to an inbox, and acknowledges the message.
pub data Sent : Type 0 where
  published : String → Sent
  acked : Sent

abbrev publish_to : Option String → List Sent
publish_to none = Sent.acked ∷ []
publish_to (some inbox) =
    if inbox == "" then Sent.acked ∷ [] else Sent.published inbox ∷ Sent.acked ∷ []

-- _JsMsgAdapter.respond
unfoldable pub respond : Dict String → List Sent
respond headers = publish_to (lookup "Reply-To" headers)
