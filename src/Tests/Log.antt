-- ===== src/Tests/Log.antt =====
-- The write-ahead log at concrete inputs.
use dds.Base.{◌≡◌, refl, none, some, [], ◌∷◌}
use dds.Base.Dict.{lookup, insert, set_add, set_remove, erase}
use dds.Orchestrator.Wal.{Wal, empty, log, is_terminal, get_incomplete_sagas, scan}
use dds.Orchestrator.Wal.Index.{IsIndexed, empty-IsIndexed, log-IsIndexed, replay}
use dds.Orchestrator.Wal.Recoverable.{get_incomplete_sagas-eq-replay, report}
use dds.Tests.World.{context}

-- one saga prepared, another one begun and ended
abbrev pub prepared : Wal
prepared = log "saga-1" "PREPARING" (some context) 100 empty

abbrev pub decided : Wal
decided = log "saga-1" "COMMITTING" none 200 (log "saga-2" "EXECUTING" (some context) 150 prepared)

abbrev pub logged : Wal
logged = log "saga-2" "COMPLETED" none 300 decided

pub prepared-IsIndexed : IsIndexed prepared
prepared-IsIndexed = log-IsIndexed "saga-1" "PREPARING" (some context) 100 empty empty-IsIndexed

pub decided-IsIndexed : IsIndexed decided
decided-IsIndexed =
    log-IsIndexed "saga-1" "COMMITTING" none 200
      (log "saga-2" "EXECUTING" (some context) 150 prepared)
      (log-IsIndexed "saga-2" "EXECUTING" (some context) 150 prepared prepared-IsIndexed)

pub logged-IsIndexed : IsIndexed logged
logged-IsIndexed = log-IsIndexed "saga-2" "COMPLETED" none 300 decided decided-IsIndexed

-- the data of PREPARING is still there after COMMITTING, which logs none
decided_keeps_data :
    (get_incomplete_sagas ("saga-1" ∷ []) logged).0
    ≡ (
      "saga-1",
      record {
        saga_id = "saga-1";
        last_step = "COMMITTING";
        data_field = some context;
        created_at = 200;
      },
    )
      ∷ []
unfolding get_incomplete_sagas scan log is_terminal lookup insert set_add set_remove erase
decided_keeps_data = refl

get_incomplete_sagas-eq-replay_example :
    ((get_incomplete_sagas logged.active logged).1 ≡ logged)
    × (lookup "saga-1" (get_incomplete_sagas logged.active logged).0
        ≡ report "saga-1" (replay "saga-1" none logged.stream))
get_incomplete_sagas-eq-replay_example =
    get_incomplete_sagas-eq-replay logged logged-IsIndexed logged.active (λ j. refl) "saga-1"
