-- ===== src/Orchestrator.antt =====
-- The orchestrator package (orchestrator/): it runs a distributed transaction by 2PC or as a saga.
pub mod Value
pub mod Definition
pub mod Wal
pub mod Breaker
pub mod Transport
pub mod System
pub mod Executor
pub mod TwoPhase
pub mod Saga
pub mod Metrics
pub mod Core
pub mod Recovery
pub mod Leader
