-- ===== src/Orchestrator/Recovery/Traces.antt =====
-- What the loops of the recovery worker do to the log, the breakers and the trace.
use dds.Base.{
  ℕ, zero, suc, ◌+◌, ◌*◌, String, ◌≡◌, refl, ◌∙◌, Bool, true, false, List, [], ◌∷◌, Bool-cases, inl,
  inr,
}
use dds.Orchestrator.Value.{Context}
use dds.Orchestrator.Definition.{Step, TransactionDefinition}
use dds.Orchestrator.Transport.{Env}
use dds.Orchestrator.System.{Attempt, Effect, Sys, write_to_dlq}
use dds.Base.Dict.{Dict}
use dds.Orchestrator.Recovery.{
  try_action, try_all, unacked, pause, retry, give_up, finish, max_recovery_retries,
}

module _ {W : Type 0} (env : Env W) (definitions : Dict TransactionDefinition) (action : String)
    (P : List Effect → Type 0)
    (sent_keeps : (t : List Effect) (name : String) (a : Attempt)
      → P t
      → P (Effect.sent name action a ∷ t))
    (dead_keeps : (t : List Effect) (name : String) (written : Bool)
      → P t
      → P (Effect.dead name action written ∷ t))
    (id : String) where
  pub record Keeps (s s' : Sys W) : Type 0 where
    pub wal : s'.wal ≡ s.wal
    pub trace : P s.trace → P s'.trace

  Keeps-refl : (s : Sys W) → Keeps s s
  Keeps-refl s = record { wal = refl; trace = λ h. h }

  Keeps-trans : {r s t : Sys W} → Keeps r s → Keeps s t → Keeps r t
  Keeps-trans h k = record { wal = k.wal ∙ h.wal; trace = λ p. k.trace (h.trace p) }

  try_action-Keeps :
      (d : Context) (step : Step) (s : Sys W)
      → Keeps s (try_action env definitions action id d step s).1
  unfolding try_action
  try_action-Keeps d step s = record { wal = refl; trace = λ p. sent_keeps s.trace step.name _ p }

  try_all-Keeps :
      (d : Context) (steps : List Step) (s : Sys W)
      → Keeps s (try_all env definitions action id d steps s).1
  unfolding try_all
  try_all-Keeps d [] s = Keeps-refl s
  try_all-Keeps d (step ∷ steps) s =
      Keeps-trans (try_action-Keeps d step s)
        (try_all-Keeps d steps (try_action env definitions action id d step s).1)

  pause-Keeps :
      (backoff : ℕ) (pending : List Step) (s : Sys W)
      → Keeps s (pause env definitions backoff pending s)
  pause-Keeps backoff [] s = Keeps-refl s
  pause-Keeps backoff (p ∷ ps) s = record { wal = refl; trace = λ p. p }

  retry-Keeps :
      (expected : String) (d : Context) (left backoff made : ℕ) (steps : List Step) (s : Sys W)
      → Keeps s (retry env definitions action expected id d left backoff made steps s).1
  unfolding retry
  retry-Keeps expected d zero backoff made [] s = Keeps-refl s
  retry-Keeps expected d (suc left) backoff made [] s = Keeps-refl s
  retry-Keeps expected d zero backoff made (p ∷ ps) s = Keeps-refl s
  retry-Keeps expected d (suc left) backoff made (p ∷ ps) s =
      let (results, s') = try_all env definitions action id d (p ∷ ps) s in
      let pending = unacked expected results in
      Keeps-trans (try_all-Keeps d (p ∷ ps) s) (
        Keeps-trans (pause-Keeps backoff pending s') (
          retry-Keeps expected d left (2 * backoff) (made + 1) pending
            (pause env definitions backoff pending s')))

  write-Keeps :
      (d : Context) (step : Step) (made : ℕ) (s : Sys W)
      → Keeps s (write_to_dlq env id action step.name "recovery_retries_exhausted" made d s)
  unfolding write_to_dlq
  write-Keeps d step made s = elim (Bool-cases (env.dlq_up s.world)) [
    | inl up ↦ rw up (record { wal = refl; trace = λ p. dead_keeps s.trace step.name true p })
    | inr down ↦ rw down (record { wal = refl; trace = λ p. dead_keeps s.trace step.name false p })
  ]

  give_up-Keeps :
      (d : Context) (made : ℕ) (steps : List Step) (s : Sys W)
      → Keeps s (give_up env definitions action id d made steps s)
  unfolding give_up
  give_up-Keeps d made [] s = Keeps-refl s
  give_up-Keeps d made (step ∷ steps) s = Keeps-trans (write-Keeps d step made s) (
      give_up-Keeps d made steps
        (write_to_dlq env id action step.name "recovery_retries_exhausted" made d s))

  pub finish-Keeps :
      (expected : String) (d dead : Context) (steps : List Step) (s : Sys W)
      → Keeps s (finish env definitions action expected id d dead steps s)
  unfolding finish
  finish-Keeps expected d dead steps s =
      let ((pending, made), s') =
        retry env definitions action expected id d max_recovery_retries 500 0 steps s in
      Keeps-trans (retry-Keeps expected d max_recovery_retries 500 0 steps s)
        (give_up-Keeps dead made pending s')
