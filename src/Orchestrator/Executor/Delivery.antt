-- ===== src/Orchestrator/Executor/Delivery.antt =====
-- `_verified_action` leaves no step behind, and tries each a bounded number of times.
use dds.Base.{
  ℕ, zero, suc, ◌+◌, ◌*◌, String, ◌==◌, eq_refl, ◌≡◌, refl, ap, Bool, true, false, ◌&&◌, ◌||◌, List,
  [], ◌∷◌, arith, Bool-cases, ◌⊎◌, inl, inr, contains,
}
use dds.Orchestrator.Value.{Context}
use dds.Orchestrator.Definition.{Step}
use dds.Orchestrator.Transport.{Env, is_event}
use dds.Orchestrator.System.{Attempt, answer, error, Effect, Sys, write_to_dlq, succeeded, failed}
use dds.Orchestrator.Executor.{
  try_step, gather, pause, still_pending, round, rounds, give_up, verified_action,
  max_verified_retries,
}
use dds.Orchestrator.Executor.Settled.{
  acked, is_settled, names, result_names, acked_in, settled_later, pending_acked, pending_refused,
  pending_error,
}
use dds.Orchestrator.Executor.Traces.{still_pending-SameRecords, round-Keeps, gather-Keeps}

module _ {W : Type 0} (env : Env W) (action expected id name : String) (context : Context) where
  abbrev IsSettled : List Effect → Type 0
  IsSettled t = is_settled action expected name t ≡ true

  -- once settled, a step stays settled
  keeps_sent :
      (t : List Effect) (n : String) (a : Attempt)
      → IsSettled t
      → IsSettled (Effect.sent n action a ∷ t)
  keeps_sent t n a h = settled_later action expected name _ t h

  keeps_dead :
      (t : List Effect) (n : String) (written : Bool)
      → IsSettled t
      → IsSettled (Effect.dead n action written ∷ t)
  keeps_dead t n written h = settled_later action expected name _ t h

  try_settles :
      (step : Step) (s : Sys W)
      → let (attempt, s') = try_step env step id action context s in
        step.name == name && acked expected attempt ≡ true → IsSettled s'.trace
  unfolding try_step is_settled
  try_settles step s h = ground (arith, eq_refl action)

  gather_settles :
      (steps : List Step) (s : Sys W)
      → let (results, s') = gather env id action context steps s in
        (result_names results ≡ names steps)
        × (acked_in expected name results ≡ true → IsSettled s'.trace)
  unfolding gather
  gather_settles [] s = (refl, λ h. cc)
  gather_settles (step ∷ steps) s =
      let (attempt, s') = try_step env step id action context s in
      let (same, later) = gather_settles steps s' in
      (
        ap (λ l. step.name ∷ l) same,
        λ h. elim (Bool-cases (step.name == name && acked expected attempt)) [
          | inl now ↦
              (gather-Keeps env action IsSettled keeps_sent keeps_dead id context steps s').trace
                (try_settles step s now)
          | inr wait ↦ later (rw wait at h)
        ],
      )

  waits_or_acked :
      (results : List (Step × Attempt)) (s : Sys W)
      → contains name (result_names results) ≡ true
      → (contains name (names (still_pending env expected results s).0)
          || acked_in expected name results)
        ≡ true
  waits_or_acked [] s h = cc
  waits_or_acked ((step, error e) ∷ rest) s h =
      rw (pending_error env expected step e rest s)
        (ground (arith, waits_or_acked rest (failed env step.service s)))
  waits_or_acked ((step, answer reply) ∷ rest) s h = elim (Bool-cases (is_event expected reply)) [
    | inl e ↦
        rw (pending_acked env expected step reply rest s e, e)
          (ground (arith, waits_or_acked rest (succeeded env step.service s)))
    | inr e ↦
        rw (pending_refused env expected step reply rest s e)
          (ground (arith, waits_or_acked rest s))
  ]

  -- The step is still waiting, or it is settled.
  abbrev Covered : List Step → List Effect → Type 0
  Covered pending t = (contains name (names pending) ≡ true) ⊎ IsSettled t

  cover :
      (t : List Effect) (a b : Bool)
      → (a || b) ≡ true
      → (b ≡ true → IsSettled t)
      → (a ≡ true) ⊎ IsSettled t
  cover t true b h k = inl refl
  cover t false b h k = inr (k h)

  round_covers :
      (steps : List Step) (s : Sys W)
      → contains name (names steps) ≡ true
      → let (pending, s') = round env action expected id context steps s in Covered pending s'.trace
  unfolding round
  round_covers steps s h =
      let (results, s') = gather env id action context steps s in
      let (same, settled) = gather_settles steps s in
      let same_trace = (still_pending-SameRecords env expected results s').trace in
      cover _ (contains name (names (still_pending env expected results s').0))
        (acked_in expected name results) (waits_or_acked results s' (rw same h))
        (λ a. rw same_trace (settled a))

  pause_covers :
      (backoff : ℕ) (pending : List Step) (s : Sys W)
      → Covered pending s.trace
      → Covered pending (pause env backoff pending s).trace
  pause_covers backoff [] s h = h
  pause_covers backoff (p ∷ ps) s h = h

  rounds_covers :
      (left backoff made : ℕ) (pending : List Step) (s : Sys W)
      → Covered pending s.trace
      → let ((pending', made'), s') =
          rounds env action expected id context left backoff made pending s in
        Covered pending' s'.trace
  unfolding rounds
  rounds_covers zero backoff made [] s h = h
  rounds_covers (suc left) backoff made [] s h = h
  rounds_covers zero backoff made (p ∷ ps) s h = h
  rounds_covers (suc left) backoff made (p ∷ ps) s h =
      let (pending, s') = round env action expected id context (p ∷ ps) s in
      rounds_covers left (2 * backoff) (made + 1) pending (pause env backoff pending s') (
        pause_covers backoff pending s' (elim h [
          | inl waits ↦ round_covers (p ∷ ps) s waits
          | inr settled ↦ inr (
              (round-Keeps env action IsSettled keeps_sent keeps_dead id context expected (p ∷ ps)
                  s).trace
                settled)
        ]))

  write_settles :
      (step : Step) (made : ℕ) (s : Sys W)
      → env.dlq_up s.world ≡ true
      → step.name == name ≡ true
      → IsSettled
          (write_to_dlq env id action step.name "max_retries_exhausted" made context s).trace
  unfolding write_to_dlq is_settled
  write_settles step made s up h = ground (arith, eq_refl action)

  write-IsSettled :
      (step : Step) (made : ℕ) (s : Sys W)
      → IsSettled s.trace
      → IsSettled
          (write_to_dlq env id action step.name "max_retries_exhausted" made context s).trace
  unfolding write_to_dlq is_settled
  write-IsSettled step made s h = ground arith

  give_up_settles :
      (made : ℕ) (pending : List Step) (s : Sys W)
      → ((w : W) → env.dlq_up w ≡ true)
      → Covered pending s.trace
      → IsSettled (give_up env action id context made pending s).trace
  unfolding give_up
  give_up_settles made [] s up (inl h) = cc
  give_up_settles made [] s up (inr h) = h
  give_up_settles made (step ∷ steps) s up h =
      let s' = write_to_dlq env id action step.name "max_retries_exhausted" made context s in
      give_up_settles made steps s' up (elim (Bool-cases (step.name == name)) [
        | inl this ↦ inr (write_settles step made s (up s.world) this)
        | inr other ↦ elim h [
          | inl waits ↦ inl (rw other at waits)
          | inr settled ↦ inr (write-IsSettled step made s settled)
        ]
      ])

-- If the dead letter queue takes whatever is written to it, every step to which `_verified_action` is to send
-- an action has acknowledged it in the end, or a dead letter for it has been written; no step is dropped.
pub verified_action_settles_all :
    {W : Type 0} (env : Env W) (action expected id : String) (steps : List Step) (context : Context)
    (s : Sys W) (name : String)
    → ((w : W) → env.dlq_up w ≡ true)
    → contains name (names steps) ≡ true
    → is_settled action expected name (verified_action env action expected id steps context s).trace
      ≡ true
unfolding verified_action
verified_action_settles_all env action expected id steps context s name up h =
    let ((pending, made), s') =
      rounds env action expected id context max_verified_retries 200 0 steps s in
    give_up_settles env action expected id name context made pending s' up
      (rounds_covers env action expected id name context max_verified_retries 200 0 steps s (inl h))
