-- ===== src/Orchestrator/Wal.antt =====
-- orchestrator/wal.py: the write-ahead log of saga states, a stream with an index beside it.
-- Times are whole milliseconds; each call of `time.time()` is an argument `now`.
pub mod Index
pub mod Recoverable
use dds.Base.{ℕ, String, Bool, Option, none, some, List, [], ◌∷◌, ◌++◌, contains, if◌then◌else◌}
use dds.Base.Dict.{Dict, lookup, insert, erase, set_add, set_remove}
use dds.Orchestrator.Value.{Context}

-- An entry of the stream, and, merged field by field, the hash `saga_state:{id}`.
pub record Entry : Type 0 where
  pub saga_id : String
  pub step : String
  pub timestamp : ℕ
  pub data_field : Option Context

-- The keys that the engine owns: `saga-wal`, `active_sagas`, and the hashes `saga_state:{id}`.
pub record Wal : Type 0 where
  pub stream : List Entry
  pub active : List String
  pub states : Dict Entry

abbrev pub empty : Wal
empty = record { stream = []; active = []; states = [] }

abbrev terminal_states : List String
terminal_states = "COMPLETED" ∷ "FAILED" ∷ "ABANDONED" ∷ []

-- `step in self.TERMINAL_STATES`
unfoldable pub is_terminal : String → Bool
is_terminal step = contains step terminal_states

-- `if data:` drops None and the empty dict
abbrev pub truthy : Option Context → Option Context
truthy (some (f ∷ fs)) = some (f ∷ fs)
truthy _ = none

abbrev pub entry_of : String → String → Option Context → ℕ → Entry
entry_of id step d now = record {
  saga_id = id;
  step = step;
  timestamp = now;
  data_field = truthy d;
}

-- HSET with a mapping overwrites the fields that it names: an old `data` field stays.
abbrev pub hset : Option Entry → Entry → Entry
hset none e = e
hset (some old) e = record {
  saga_id = e.saga_id;
  step = e.step;
  timestamp = e.timestamp;
  data_field = elim e.data_field [ none ↦ old.data_field | some d ↦ some d ];
}

-- srem and delete: the saga leaves the index
abbrev drop_saga : String → Wal → Wal
drop_saga id w = record w { active = set_remove id w.active; states = erase id w.states }

-- WALEngine.log
unfoldable pub log : String → String → Option Context → ℕ → Wal → Wal
log id step d now w =
    let entry = entry_of id step d now in
    let w' = record w { stream = w.stream ++ entry ∷ [] } in
    if is_terminal step then drop_saga id w' else record w' {
      active = set_add id w.active;
      states = insert id (hset (lookup id w.states) entry) w.states;
    }

-- WALEngine.log_terminal
unfoldable pub log_terminal : String → String → Option Context → ℕ → Wal → Wal
log_terminal id step d now w =
    drop_saga id (record w { stream = w.stream ++ entry_of id step d now ∷ [] })

-- A value of the dict that `get_incomplete_sagas` returns.
pub record Incomplete : Type 0 where
  pub saga_id : String
  pub last_step : String
  pub data_field : Option Context
  pub created_at : ℕ

abbrev pub incomplete_of : String → Entry → Incomplete
incomplete_of id e = record {
  saga_id = id;
  last_step = e.step;
  data_field = e.data_field;
  created_at = e.timestamp;
}

-- one round of the inner loop: a member of the set with the hash that HGETALL finds for it
abbrev visit : String → Option Entry → Dict Incomplete → Wal → Dict Incomplete × Wal
visit id none found w = (found, record w { active = set_remove id w.active })
visit id (some e) found w =
    if is_terminal e.step
    then (found, drop_saga id w)
    else (insert id (incomplete_of id e) found, w)

-- WALEngine.get_incomplete_sagas, over the members in the order in which SSCAN returns them
unfoldable pub scan : List String → Dict Incomplete → Wal → Dict Incomplete × Wal
scan [] found w = (found, w)
scan (id ∷ ids) found w =
    let (found', w') = visit id (lookup id w.states) found w in scan ids found' w'

unfoldable pub get_incomplete_sagas : List String → Wal → Dict Incomplete × Wal
unfolding scan
get_incomplete_sagas ids w = scan ids [] w
