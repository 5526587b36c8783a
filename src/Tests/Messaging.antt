-- ===== src/Tests/Messaging.antt =====
-- The NATS transport and the leader's lock at concrete inputs.
use dds.Base.{ℕ, String, ◌≡◌, refl, true, false, none, some, List, [], ◌∷◌, arith}
use dds.Base.Dict.{lookup, insert}
use dds.Base.Text.{codes}
use dds.Orchestrator.Value.{Context}
use dds.Orchestrator.Transport.{fields, Response, returned, timed_out, raised}
use dds.Nats.{judge, attempts, send_and_wait, is_transient, is_prefix, occurs}
use dds.Nats.Requests.{conclude, mutations_are_sent_once}
use dds.Orchestrator.Leader.{instance_of, acquire, beat}
use dds.Orchestrator.Leader.Lease.{Event, happen, happen_all, fresh, one_leader}

-- the responses that are still to come
abbrev request : String → Context → List Response → Response × List Response
request subject msg [] = (raised "no responders available", [])
request subject msg (r ∷ rs) = (r, rs)

abbrev sleep : ℕ → List Response → List Response
sleep ms rs = rs

transient : (is_transient "NATS: No Responders" ≡ true) × (is_transient "bad request" ≡ false)
unfolding is_transient occurs is_prefix codes
transient = (refl, refl)

-- a commit is tried again after a timeout
commit_again :
    send_and_wait request sleep "stock" "commit" []
      (timed_out ∷ timed_out ∷ returned (fields (some "committed") none) ∷ [])
    ≡ (fields (some "committed") none, [])
unfolding send_and_wait attempts judge
commit_again = refl

mutations_are_sent_once_example :
    send_and_wait request sleep "stock" "execute" [] (timed_out ∷ timed_out ∷ [])
    ≡ (conclude (judge timed_out), timed_out ∷ [])
mutations_are_sent_once_example =
    mutations_are_sent_once request sleep "stock" "execute" [] (timed_out ∷ timed_out ∷ []) refl

-- the first leader is not heard of for longer than LOCK_TTL, and the second takes over
abbrev takeover : List Event
takeover =
    Event.acquires "order-1"
    ∷ Event.acquires "order-2"
    ∷ Event.pass 6000
    ∷ Event.acquires "order-2"
    ∷ Event.beats "order-1" true
    ∷ []

one_leader_example : ◌≡◌ {A = String} "order-2" "order-2"
unfolding happen happen_all acquire beat lookup insert
one_leader_example = one_leader 0 takeover "order-2" "order-2" (omega arith) (omega arith)

taken_over :
    let c = happen_all takeover (fresh 0) in
    (c.lock ≡ some ("order-2", 11000)) × ((instance_of "order-1" c).is_leader ≡ false)
unfolding happen happen_all acquire beat lookup insert
taken_over = (refl, refl)
