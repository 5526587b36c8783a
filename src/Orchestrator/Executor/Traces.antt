-- ===== src/Orchestrator/Executor/Traces.antt =====
-- What the shared parts of the executors do to the trace and to the log.
use dds.Base.{
  ℕ, zero, suc, ◌+◌, ◌*◌, String, ◌≡◌, refl, ◌∙◌, Bool, true, false, List, [], ◌∷◌, Bool-cases,
  Option-cases, inl, inr, if◌then◌else◌,
}
use dds.Base.Dict.{lookup, insert}
use dds.Orchestrator.Value.{Context}
use dds.Orchestrator.Definition.{Step}
use dds.Orchestrator.Transport.{Env, is_event}
use dds.Orchestrator.System.{
  Attempt, answer, error, Effect, Sys, on_breaker, write_to_dlq, succeeded, failed,
}
use dds.Orchestrator.Breaker.{CircuitBreaker, is_open}
use dds.Orchestrator.Executor.{
  check_circuit_breakers, try_step, gather, still_pending, round, rounds, give_up, verified_action,
  max_verified_retries, pause,
}

module _ {W : Type 0} where
  -- The two states differ in nothing but the breakers.
  pub record SameRecords (s s' : Sys W) : Type 0 where
    pub wal : s'.wal ≡ s.wal
    pub dlq : s'.dlq ≡ s.dlq
    pub trace : s'.trace ≡ s.trace
    pub world : s'.world ≡ s.world

  pub SameRecords-refl : (s : Sys W) → SameRecords s s
  SameRecords-refl s = record { wal = refl; dlq = refl; trace = refl; world = refl }

  pub SameRecords-trans : {r s t : Sys W} → SameRecords r s → SameRecords s t → SameRecords r t
  SameRecords-trans h k = record {
    wal = k.wal ∙ h.wal;
    dlq = k.dlq ∙ h.dlq;
    trace = k.trace ∙ h.trace;
    world = k.world ∙ h.world;
  }

  pub either-SameRecords :
      {s x y : Sys W} (b c : Bool)
      → SameRecords s x
      → SameRecords s y
      → SameRecords s (if b then x else if c then y else s)
  either-SameRecords true c h k = h
  either-SameRecords false true h k = k
  either-SameRecords {s} false false h k = SameRecords-refl s

  pub on_breaker-SameRecords :
      (f : CircuitBreaker → CircuitBreaker) (service : String) (s : Sys W)
      → SameRecords s (on_breaker f service s)
  on_breaker-SameRecords f service s = elim (Option-cases (lookup service s.breakers)) [
    | inl e ↦ rw (e, on_breaker) (SameRecords-refl s)
    | inr (b, e) ↦
        rw (e, on_breaker) (record { wal = refl; dlq = refl; trace = refl; world = refl })
  ]

module _ {W : Type 0} (env : Env W) where
  pub succeeded-SameRecords :
      (service : String) (s : Sys W) → SameRecords s (succeeded env service s)
  unfolding succeeded
  succeeded-SameRecords service s = on_breaker-SameRecords _ service s

  pub failed-SameRecords : (service : String) (s : Sys W) → SameRecords s (failed env service s)
  unfolding failed
  failed-SameRecords service s = on_breaker-SameRecords _ service s

  pub check-SameRecords :
      (steps : List Step) (s : Sys W) → SameRecords s (check_circuit_breakers env steps s).1
  unfolding check_circuit_breakers
  check-SameRecords [] s = SameRecords-refl s
  check-SameRecords (step ∷ steps) s = elim (Option-cases (lookup step.service s.breakers)) [
    | inl e ↦ rw (e, check_circuit_breakers) (check-SameRecords steps s)
    | inr (b, e) ↦
        let (refused, b') = is_open (env.monotonic s.world) b in
        let s' : Sys W = record s { breakers = insert step.service b' s.breakers } in
        let same : SameRecords s s' = record {
          wal = refl;
          dlq = refl;
          trace = refl;
          world = refl;
        } in
        elim (Bool-cases refused) [
          | inl p ↦ rw (e, check_circuit_breakers) (rw (p, check_circuit_breakers) same)
          | inr p ↦
              rw (e, check_circuit_breakers)
                (rw (p, check_circuit_breakers)
                  (SameRecords-trans same (check-SameRecords steps s')))
        ]
  ]

  pub still_pending-SameRecords :
      (expected : String) (results : List (Step × Attempt)) (s : Sys W)
      → SameRecords s (still_pending env expected results s).1
  unfolding still_pending
  still_pending-SameRecords expected [] s = SameRecords-refl s
  still_pending-SameRecords expected ((step, error e) ∷ rest) s =
      SameRecords-trans (failed-SameRecords step.service s)
        (still_pending-SameRecords expected rest (failed env step.service s))
  still_pending-SameRecords expected ((step, answer reply) ∷ rest) s =
      elim (Bool-cases (is_event expected reply)) [
        | inl e ↦
            rw (e, still_pending)
              (SameRecords-trans (succeeded-SameRecords step.service s)
                (still_pending-SameRecords expected rest (succeeded env step.service s)))
        | inr e ↦ rw (e, still_pending) (still_pending-SameRecords expected rest s)
      ]

-- A property of the trace that sending `action` and giving up on it keep is kept by the whole of
-- `_verified_action`, which does not touch the log.
module _ {W : Type 0} (env : Env W) (action : String) (P : List Effect → Type 0)
    (sent_keeps : (t : List Effect) (name : String) (a : Attempt)
      → P t
      → P (Effect.sent name action a ∷ t))
    (dead_keeps : (t : List Effect) (name : String) (written : Bool)
      → P t
      → P (Effect.dead name action written ∷ t))
    (id : String) (context : Context) where
  pub record Keeps (s s' : Sys W) : Type 0 where
    pub wal : s'.wal ≡ s.wal
    pub trace : P s.trace → P s'.trace

  Keeps-refl : (s : Sys W) → Keeps s s
  Keeps-refl s = record { wal = refl; trace = λ h. h }

  Keeps-trans : {r s t : Sys W} → Keeps r s → Keeps s t → Keeps r t
  Keeps-trans h k = record { wal = k.wal ∙ h.wal; trace = λ p. k.trace (h.trace p) }

  of_SameRecords : {s s' : Sys W} → SameRecords s s' → Keeps s s'
  of_SameRecords h = record { wal = h.wal; trace = λ p. rw h.trace p }

  try_step-Keeps : (step : Step) (s : Sys W) → Keeps s (try_step env step id action context s).1
  unfolding try_step
  try_step-Keeps step s = record { wal = refl; trace = λ p. sent_keeps s.trace step.name _ p }

  pub gather-Keeps :
      (steps : List Step) (s : Sys W) → Keeps s (gather env id action context steps s).1
  unfolding gather
  gather-Keeps [] s = Keeps-refl s
  gather-Keeps (step ∷ steps) s =
      Keeps-trans (try_step-Keeps step s)
        (gather-Keeps steps (try_step env step id action context s).1)

  pub round-Keeps :
      (expected : String) (steps : List Step) (s : Sys W)
      → Keeps s (round env action expected id context steps s).1
  unfolding round
  round-Keeps expected steps s =
      let (results, s') = gather env id action context steps s in
      Keeps-trans (gather-Keeps steps s)
        (of_SameRecords (still_pending-SameRecords env expected results s'))

  pause-Keeps :
      (backoff : ℕ) (pending : List Step) (s : Sys W) → Keeps s (pause env backoff pending s)
  pause-Keeps backoff [] s = Keeps-refl s
  pause-Keeps backoff (p ∷ ps) s = record { wal = refl; trace = λ p. p }

  rounds-Keeps :
      (expected : String) (left backoff made : ℕ) (steps : List Step) (s : Sys W)
      → Keeps s (rounds env action expected id context left backoff made steps s).1
  unfolding rounds
  rounds-Keeps expected zero backoff made [] s = Keeps-refl s
  rounds-Keeps expected (suc left) backoff made [] s = Keeps-refl s
  rounds-Keeps expected zero backoff made (p ∷ ps) s = Keeps-refl s
  rounds-Keeps expected (suc left) backoff made (p ∷ ps) s =
      let (pending, s') = round env action expected id context (p ∷ ps) s in
      Keeps-trans (round-Keeps expected (p ∷ ps) s) (
        Keeps-trans (pause-Keeps backoff pending s') (
          rounds-Keeps expected left (2 * backoff) (made + 1) pending
            (pause env backoff pending s')))

  give_up-Keeps :
      (made : ℕ) (steps : List Step) (s : Sys W)
      → Keeps s (give_up env action id context made steps s)
  unfolding give_up write_to_dlq
  give_up-Keeps made [] s = Keeps-refl s
  give_up-Keeps made (step ∷ steps) s =
      Keeps-trans
        (elim (Bool-cases (env.dlq_up s.world)) [
          | inl up ↦ rw up (record { wal = refl; trace = λ p. dead_keeps s.trace step.name true p })
          | inr down ↦
              rw down (record { wal = refl; trace = λ p. dead_keeps s.trace step.name false p })
        ])
        (give_up-Keeps made steps
          (write_to_dlq env id action step.name "max_retries_exhausted" made context s))

  pub verified_action-Keeps :
      (expected : String) (steps : List Step) (s : Sys W)
      → Keeps s (verified_action env action expected id steps context s)
  unfolding verified_action
  verified_action-Keeps expected steps s =
      let ((pending, made), s') =
        rounds env action expected id context max_verified_retries 200 0 steps s in
      Keeps-trans (rounds-Keeps expected max_verified_retries 200 0 steps s)
        (give_up-Keeps made pending s')
