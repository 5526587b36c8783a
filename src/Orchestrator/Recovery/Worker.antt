-- ===== src/Orchestrator/Recovery/Worker.antt =====
-- orchestrator/recovery.py: the background task of RecoveryWorker. The callback of the application acts on the
-- world, and it may raise.
pub mod Orphans
use dds.Base.{
  ℕ, String, ◌==◌, eq_refl, ◌≡◌, refl, sym, ap, ◌∙◌, Bool, true, false, ◌&&◌, ◌||◌, Option, none,
  some, List, [], ◌∷◌, All, contains, arith, eq_iff, Bool-cases, inl, inr, if◌then◌else◌,
}
use dds.Base.Dict.{Dict, lookup, insert}
use dds.Orchestrator.Definition.{TransactionDefinition}
use dds.Orchestrator.Transport.{Env}
use dds.Orchestrator.Wal.{Wal, Entry, Incomplete, incomplete_of, scan, get_incomplete_sagas}
use dds.Orchestrator.Wal.Index.{IsIndexed, replay}
use dds.Orchestrator.Wal.Recoverable.{
  get_incomplete_sagas-eq-replay, entry_of_member, scan_member, report,
}
use dds.Orchestrator.System.{Sys}
use dds.Orchestrator.Recovery.{
  is_orphan, or_empty, abort_all, commit_all, abort_each, abort_orphaned_sagas,
}
use dds.Orchestrator.Recovery.Resolution.{
  has, has-lookup, report-none, Resolves, abort_all-Resolves, commit_all-Resolves,
}

-- `_reconciliation_task`: whether the task is there.
pub record Worker : Type 0 where
  pub reconciling : Bool

-- start_reconciliation: whether a task is created
unfoldable pub start_reconciliation : Worker → Bool × Worker
start_reconciliation w = if w.reconciling then (false, w) else (true, record { reconciling = true })

-- stop: whether a task is cancelled
unfoldable pub stop : Worker → Bool × Worker
stop w = (w.reconciling, record { reconciling = false })

-- `_reconcile`
unfoldable pub reconcile :
    {W : Type 0} → Option (W → Option String × W) → Sys W → Option String × Sys W
reconcile none s = (none, s)
reconcile (some f) s = let (raised, w) = f s.world in (raised, record s { world = w })

module _ {W : Type 0} (env : Env W) (definitions : Dict TransactionDefinition) where
  abbrev after_reconcile : List String → Option String × Sys W → Option String × Sys W
  after_reconcile ids (none, s) = (none, abort_orphaned_sagas env definitions ids s)
  after_reconcile ids (some e, s) = (some e, record s { world = env.sleep 10000 s.world })

  -- one round of `_reconciliation_loop`, with the members that SSCAN returns
  unfoldable pub reconciliation_round :
      Option (W → Option String × W) → List String → Sys W → Option String × Sys W
  reconciliation_round f ids s =
      after_reconcile ids (reconcile f (record s { world = env.sleep 60000 s.world }))
