-- ===== src/Order/Leadership.antt =====
-- order/app.py, `_leadership_loop`: the background task of an instance that competes for the lock of
-- orchestrator/leader.py, and runs the maintenance while it has it. A turn goes from one wait to the next;
-- whether the recovery of the incomplete sagas raises is a parameter.
pub mod Stuck
use dds.Base.{ℕ, ◌+◌, String, Bool, true, false, Option, none, some, List, [], ◌∷◌, if◌then◌else◌}
use dds.Orchestrator.Leader.{Cluster, acquire, beat, instance_of}

-- Where the loop waits: it competes, or it leads.
pub data Phase : Type 0 where
  competing leading : Phase

-- `maintenance`: whether the reconciliation of `recovery_worker` runs.
pub record Loop : Type 0 where
  pub cluster : Cluster
  pub phase : Phase
  pub maintenance : Bool

-- after `acquire`: the recovery, and the reconciliation if the recovery does not raise
abbrev pub lead : Option String → Bool × Cluster → Loop → Loop
lead raised (false, c) l = record l { cluster = c }
lead (some e) (true, c) l = record l { cluster = c }
lead none (true, c) l = record { cluster = c; phase = Phase.leading; maintenance = true }

abbrev pub turn_from : Phase → String → Option String → Loop → Loop
turn_from Phase.competing id raised l = lead raised (acquire id l.cluster) l
turn_from Phase.leading id raised l =
    if (instance_of id l.cluster).is_leader
    then l
    else record l { phase = Phase.competing; maintenance = false }

-- one turn of `_leadership_loop`
unfoldable pub turn : String → Option String → Loop → Loop
turn id raised l = turn_from l.phase id raised l

abbrev pub idle_loop : Cluster → Loop
idle_loop c = record { cluster = c; phase = Phase.competing; maintenance = false }
