-- ===== src/Orchestrator/Leader.antt =====
-- orchestrator/leader.py: the lock of the leader in Redis, and the instances that compete for it.
-- Times are whole milliseconds. `lease` is for the proofs and no operation reads it: the end of the time
-- for which an instance last set or renewed the lock, and 0 once it has released the lock.
pub mod Lease
use dds.Base.{
  ℕ, ◌+◌, String, ◌==◌, Bool, true, false, Option, none, some, List, [], ◌∷◌, ltb, if◌then◌else◌,
}
use dds.Base.Dict.{Dict, lookup, insert}

-- LOCK_TTL
abbrev pub lock_ttl : ℕ
lock_ttl = 5000

-- `heartbeat`: whether the heartbeat task runs.
pub record Instance : Type 0 where
  pub is_leader : Bool
  pub heartbeat : Bool
  pub lease : ℕ

abbrev pub new_instance : Instance
new_instance = record { is_leader = false; heartbeat = false; lease = 0 }

-- The key LOCK_KEY holds an instance id until a time.
pub record Cluster : Type 0 where
  pub now : ℕ
  pub lock : Option (String × ℕ)
  pub instances : Dict Instance

-- GET: an expired key is gone
abbrev pub holder : ℕ → Option (String × ℕ) → Option String
holder now none = none
holder now (some (id, until)) = if ltb now until then some id else none

abbrev pub is_free : Option String → Bool
is_free none = true
is_free (some id) = false

-- GET == ARGV[1]
abbrev pub is_held_by : String → Option String → Bool
is_held_by id none = false
is_held_by id (some other) = other == id

abbrev pub or_new : Option Instance → Instance
or_new none = new_instance
or_new (some i) = i

abbrev pub instance_of : String → Cluster → Instance
instance_of id c = or_new (lookup id c.instances)

abbrev pub with_instance : String → Instance → Cluster → Cluster
with_instance id i c = record c { instances = insert id i c.instances }

-- the instance has the lock for LOCK_TTL from now
abbrev pub hold : String → Instance → Cluster → Cluster
hold id i c =
    with_instance id (record i { lease = c.now + lock_ttl })
      (record c { lock = some (id, c.now + lock_ttl) })

-- acquire: SET with NX and EX
unfoldable pub acquire : String → Cluster → Bool × Cluster
acquire id c =
    if is_free (holder c.now c.lock)
    then (true, hold id (record (instance_of id c) { is_leader = true; heartbeat = true }) c)
    else (false, c)

-- release: the task ends, and the release script deletes the key of its owner
unfoldable pub release : String → Cluster → Cluster
release id c =
    let i = instance_of id c in
    if i.is_leader
    then (if is_held_by id (holder c.now c.lock)
        then with_instance id (record { is_leader = false; heartbeat = false; lease = 0 })
            (record c { lock = none })
        else with_instance id (record i { is_leader = false; heartbeat = false }) c)
    else with_instance id (record i { heartbeat = false }) c

-- one round of `_heartbeat_loop`, if the task runs, where Redis answers or not
unfoldable pub beat : String → Bool → Cluster → Cluster
beat id answers c =
    let i = instance_of id c in
    if i.heartbeat
    then (if answers
        then (if is_held_by id (holder c.now c.lock)
            then hold id i c
            else with_instance id (record i { is_leader = false; heartbeat = false }) c)
        else with_instance id (record i { is_leader = false; heartbeat = false }) c)
    else c

-- wait_for_leadership: a try for each time that the stop is not yet asked for, with the wait after it
unfoldable pub wait_for_leadership : String → List ℕ → Cluster → Bool × Cluster
wait_for_leadership id [] c = (false, c)
wait_for_leadership id (wait ∷ waits) c =
    let (acquired, c') = acquire id c in
    let later = wait_for_leadership id waits (record c' { now = c'.now + wait }) in
    if acquired then (true, c') else later

-- stop
unfoldable pub stop : String → Cluster → Cluster
stop id c = release id c
