-- ===== src/Orchestrator/System.antt =====
-- The state that a run of the orchestrator changes: the log, the dead letter queue
-- (common/dlq.py), the circuit breakers and the world, with a trace of what was done, newest first.
-- The trace is for the proofs: no operation reads it.
use dds.Base.{ℕ, String, Bool, true, false, none, some, List, [], ◌∷◌, ◌++◌, if◌then◌else◌}
use dds.Base.Dict.{Dict, lookup, insert}
use dds.Orchestrator.Value.{Context}
use dds.Orchestrator.Transport.{Reply, Env}
use dds.Orchestrator.Wal
use dds.Orchestrator.Wal.{Wal}
use dds.Orchestrator.Breaker.{CircuitBreaker, record_failure, record_success}

-- What `_try_step` returned, or the exception that it raised.
pub data Attempt : Type 0 where
  answer : Reply → Attempt
  error : String → Attempt

-- A state logged, a command sent with what came back, and a step given up on, with whether the dead
-- letter queue took it.
pub data Effect : Type 0 where
  logged : String → Effect
  sent : String → String → Attempt → Effect
  dead : String → String → Bool → Effect

pub record DlqEntry : Type 0 where
  pub saga_id : String
  pub action : String
  pub step : String
  pub reason : String
  pub attempts : ℕ
  pub context : Context
  pub timestamp : ℕ

pub record Sys (W : Type 0) : Type 0 where
  pub wal : Wal
  pub dlq : List DlqEntry
  pub breakers : Dict CircuitBreaker
  pub trace : List Effect
  pub world : W

-- cb = self.circuit_breakers.get(service); if cb: …
abbrev pub on_breaker : {W : Type 0} → (CircuitBreaker → CircuitBreaker) → String → Sys W → Sys W
on_breaker f service s = elim (lookup service s.breakers) [
  | none ↦ s
  | some b ↦ record s { breakers = insert service (f b) s.breakers }
]

module _ {W : Type 0} (env : Env W) where
  -- self.wal.log
  unfoldable pub log : String → String → Context → Sys W → Sys W
  log id step d s = record s {
    wal = Wal.log id step (some d) (env.wall s.world) s.wal;
    trace = Effect.logged step ∷ s.trace;
  }

  -- self.wal.log_terminal
  unfoldable pub log_terminal : String → String → Sys W → Sys W
  log_terminal id step s = record s {
    wal = Wal.log_terminal id step none (env.wall s.world) s.wal;
    trace = Effect.logged step ∷ s.trace;
  }

  -- write_to_dlq: an error of XADD is swallowed
  unfoldable pub write_to_dlq : String → String → String → String → ℕ → Context → Sys W → Sys W
  write_to_dlq id action step reason attempts context s =
      if env.dlq_up s.world
      then record s {
        dlq =
            s.dlq
            ++ record {
              saga_id = id;
              action = action;
              step = step;
              reason = reason;
              attempts = attempts;
              context = context;
              timestamp = env.wall s.world;
            }
              ∷ [];
        trace = Effect.dead step action true ∷ s.trace;
      }
      else record s { trace = Effect.dead step action false ∷ s.trace }

  unfoldable pub succeeded : String → Sys W → Sys W
  succeeded service s = on_breaker record_success service s

  unfoldable pub failed : String → Sys W → Sys W
  failed service s = on_breaker (record_failure (env.monotonic s.world)) service s
