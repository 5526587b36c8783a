-- ===== src/Tests/Connected.antt =====
-- The NATS connection at concrete inputs.
use dds.Base.{String, ◌≡◌, refl, none, some, List, [], ◌∷◌}
use dds.Nats.Connection.{Server, new_transport, reconnect}
use dds.Nats.Connection.Recreated.{subscribe_each, reconnection_restores_all}

abbrev down : Server
down params = some "nats: timeout"

abbrev up : Server
up params = none

abbrev wanted : List (String × String)
wanted = ("svc.stock.*", "stock-service") ∷ ("svc.stock.direct.*", "stock-direct") ∷ []

reconnection_restores_all_example :
    let (error, t) = reconnect none up (subscribe_each down wanted new_transport) in
    (error ≡ none) × (t.subs ≡ wanted)
reconnection_restores_all_example = reconnection_restores_all down up wanted (λ params. refl)
