-- ===== src/Config/Failover.antt =====
-- `subscribe_failover_invalidation`: the listener for the messages of the first Sentinel, and the periodic
-- question for the master's address. Both stand for the sequence of what they get to hear.
pub mod Detection
use Prim.Native.String.{◌++◌ as concat}
use dds.Base.{String, ◌==◌, Bool, true, false, Option, none, some, List, [], ◌∷◌, if◌then◌else◌}
use dds.Base.Text.{codes}
use dds.Nats.{occurs}

-- `last_ip` of the reconciler, and the reasons for which the pools were disconnected, the latest first.
pub record Detector : Type 0 where
  pub last_ip : Option String
  pub invalidations : List String

abbrev pub new_detector : Detector
new_detector = record { last_ip = none; invalidations = [] }

-- `_invalidate`: every pool is disconnected
unfoldable pub invalidate : String → Detector → Detector
invalidate reason d = record d { invalidations = reason ∷ d.invalidations }

-- What the listener hears: an error of the connection, after which it connects again, or a message.
pub data Heard : Type 0 where
  connection_error : String → Heard
  message : String → String → String → Heard

abbrev hear_message : Bool → Bool → String → Detector → Detector
hear_message true true text d = invalidate (concat "pubsub: " text) d
hear_message _ _ text d = d

abbrev hear : Heard → Detector → Detector
hear (Heard.connection_error e) d = d
hear (Heard.message kind channel text) d =
    hear_message (kind == "pmessage") (occurs (codes "+switch-master") (codes channel)) text d

-- `_pubsub_listener`
unfoldable pub pubsub_listener : List Heard → Detector → Detector
pubsub_listener [] d = d
pubsub_listener (h ∷ hs) d = pubsub_listener hs (hear h d)

-- What a Sentinel does when it is asked for the master: it answers, with an address or with none, or the
-- connection raises.
pub data Answer : Type 0 where
  address : Option String → Answer
  raised : String → Answer

abbrev has_moved : Option String → String → Bool
has_moved none ip = false
has_moved (some last) ip = if last == ip then false else true

abbrev from_text : Option String → String
from_text none = "None"
from_text (some last) = last

abbrev pub change_of : String → String → String
change_of last ip = concat "reconciler: master IP changed " (concat last (concat " → " ip))

abbrev moved : String → Detector → Detector
moved ip d = if has_moved d.last_ip ip then invalidate (change_of (from_text d.last_ip) ip) d else d

-- one round of `_reconciler`, with the answers of the Sentinels in the order of the hosts: the first address
-- ends it, and so does an exception
unfoldable pub reconcile_round : List Answer → Detector → Detector
reconcile_round [] d = d
reconcile_round (Answer.address none ∷ answers) d = reconcile_round answers d
reconcile_round (Answer.address (some ip) ∷ answers) d = record (moved ip d) { last_ip = some ip }
reconcile_round (Answer.raised e ∷ answers) d = d

abbrev rounds : List (List Answer) → Detector → Detector
rounds [] d = d
rounds (answers ∷ rest) d = rounds rest (reconcile_round answers d)

-- `_reconciler`, where REDIS_SENTINEL_SERVICE has the given value
unfoldable pub reconciler : String → List (List Answer) → Detector → Detector
reconciler service all d = if service == "" then d else rounds all d
