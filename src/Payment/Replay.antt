-- ===== src/Payment/Replay.antt =====
-- Commands of the payment service that are delivered again, or late.
use dds.Base.{
  String, ◌==◌, ◌≡◌, refl, ◌∙◌, Bool, true, false, Option, none, some, Bool-cases, inl, inr,
  if◌then◌else◌,
}
use dds.Base.Int.{ℤ, pos, ltb_ℤ}
use dds.Base.Dict.{lookup, lookup_same}
use dds.Repeat.{RunsOnce, unchanged, settles}
use dds.Stock.{Status, Action}
use dds.Payment.{
  SagaKey, Payment, run, affords, available, reserve, reserved, deduct, deducted, prepare_from,
  commit_from, abort_from, execute_from, compensate_from, unless_nobody,
}

module _ (id user : String) (amount : ℤ) where
  abbrev Again :
      (Option SagaKey → Payment → Option Bool × Payment) → Option SagaKey → Payment → Type 0
  Again f k s = RunsOnce (λ (t : Payment). t.sagas) id f k s

  reserve-Again :
      (k : Option SagaKey) (s : Payment)
      → lookup id s.sagas ≡ k
      → prepare_from id user amount k s ≡ reserve id user amount s
      → Again (prepare_from id user amount) k s
  reserve-Again k s e h = elim (Bool-cases (affords amount (available user s.users))) [
    | inl fits ↦
        let taken : reserve id user amount s ≡ (some true, reserved id user amount s) =
          rw fits refl in
        settles (SagaKey.hash Status.prepared (some amount)) (h ∙ taken) (lookup_same id _ s.sagas)
          refl
    | inr short ↦ unchanged (some false) e (h ∙ rw short refl)
  ]

  prepare-Again :
      (k : Option SagaKey) (s : Payment)
      → lookup id s.sagas ≡ k
      → Again (prepare_from id user amount) k s
  prepare-Again none s e = reserve-Again none s e refl
  prepare-Again (some (SagaKey.string status)) s e = unchanged none e refl
  prepare-Again (some (SagaKey.hash Status.prepared stored)) s e = unchanged (some true) e refl
  prepare-Again (some (SagaKey.hash Status.aborted stored)) s e = unchanged (some false) e refl
  prepare-Again (some (SagaKey.hash Status.committed stored)) s e = unchanged (some false) e refl
  prepare-Again (some (SagaKey.hash Status.executed stored)) s e = reserve-Again _ s e refl
  prepare-Again (some (SagaKey.hash Status.compensated stored)) s e = reserve-Again _ s e refl

  commit-Again :
      (k : Option SagaKey) (s : Payment)
      → lookup id s.sagas ≡ k
      → Again (commit_from id user amount) k s
  commit-Again none s e =
      settles (SagaKey.hash Status.committed (if ltb_ℤ (pos 0) amount then some amount else none))
        refl (lookup_same id _ s.sagas) refl
  commit-Again (some (SagaKey.string status)) s e = unchanged none e refl
  commit-Again (some (SagaKey.hash Status.committed stored)) s e = unchanged (some true) e refl
  commit-Again (some (SagaKey.hash Status.prepared stored)) s e =
      settles (SagaKey.hash Status.committed stored) refl (lookup_same id _ s.sagas) refl
  commit-Again (some (SagaKey.hash Status.aborted stored)) s e =
      settles (SagaKey.hash Status.committed (if ltb_ℤ (pos 0) amount then some amount else stored))
        refl (lookup_same id _ s.sagas) refl
  commit-Again (some (SagaKey.hash Status.executed stored)) s e =
      settles (SagaKey.hash Status.committed (if ltb_ℤ (pos 0) amount then some amount else stored))
        refl (lookup_same id _ s.sagas) refl
  commit-Again (some (SagaKey.hash Status.compensated stored)) s e =
      settles (SagaKey.hash Status.committed (if ltb_ℤ (pos 0) amount then some amount else stored))
        refl (lookup_same id _ s.sagas) refl

  abort-Again :
      (k : Option SagaKey) (s : Payment)
      → lookup id s.sagas ≡ k
      → Again (abort_from id user amount) k s
  abort-Again none s e =
      settles (SagaKey.hash Status.aborted none) refl (lookup_same id _ s.sagas) refl
  abort-Again (some (SagaKey.string status)) s e = unchanged none e refl
  abort-Again (some (SagaKey.hash Status.aborted stored)) s e = unchanged (some true) e refl
  abort-Again (some (SagaKey.hash Status.prepared stored)) s e =
      settles (SagaKey.hash Status.aborted stored) refl (lookup_same id _ s.sagas) refl
  abort-Again (some (SagaKey.hash Status.committed stored)) s e =
      settles (SagaKey.hash Status.aborted stored) refl (lookup_same id _ s.sagas) refl
  abort-Again (some (SagaKey.hash Status.executed stored)) s e =
      settles (SagaKey.hash Status.aborted stored) refl (lookup_same id _ s.sagas) refl
  abort-Again (some (SagaKey.hash Status.compensated stored)) s e =
      settles (SagaKey.hash Status.aborted stored) refl (lookup_same id _ s.sagas) refl

  deduct-Again :
      (k : Option SagaKey) (s : Payment)
      → lookup id s.sagas ≡ k
      → execute_from id user amount k s ≡ deduct id user amount s
      → Again (execute_from id user amount) k s
  deduct-Again k s e h = elim (Bool-cases (affords amount (available user s.users))) [
    | inl fits ↦
        let taken : deduct id user amount s ≡ (some true, deducted id user amount s) =
          rw fits refl in
        settles (SagaKey.string Status.executed) (h ∙ taken) (lookup_same id _ s.sagas) refl
    | inr short ↦ unchanged (some false) e (h ∙ rw short refl)
  ]

  execute-Again :
      (k : Option SagaKey) (s : Payment)
      → lookup id s.sagas ≡ k
      → Again (execute_from id user amount) k s
  execute-Again none s e = deduct-Again none s e refl
  execute-Again (some (SagaKey.hash status stored)) s e = unchanged none e refl
  execute-Again (some (SagaKey.string Status.executed)) s e = unchanged (some true) e refl
  execute-Again (some (SagaKey.string Status.compensated)) s e = unchanged (some false) e refl
  execute-Again (some (SagaKey.string Status.prepared)) s e = deduct-Again _ s e refl
  execute-Again (some (SagaKey.string Status.committed)) s e = deduct-Again _ s e refl
  execute-Again (some (SagaKey.string Status.aborted)) s e = deduct-Again _ s e refl

  compensate-Again :
      (k : Option SagaKey) (s : Payment)
      → lookup id s.sagas ≡ k
      → Again (compensate_from id user amount) k s
  compensate-Again none s e =
      settles (SagaKey.string Status.compensated) refl (lookup_same id _ s.sagas) refl
  compensate-Again (some (SagaKey.hash status stored)) s e = unchanged none e refl
  compensate-Again (some (SagaKey.string Status.compensated)) s e = unchanged (some true) e refl
  compensate-Again (some (SagaKey.string Status.executed)) s e =
      settles (SagaKey.string Status.compensated) refl (lookup_same id _ s.sagas) refl
  compensate-Again (some (SagaKey.string Status.prepared)) s e =
      settles (SagaKey.string Status.compensated) refl (lookup_same id _ s.sagas) refl
  compensate-Again (some (SagaKey.string Status.committed)) s e =
      settles (SagaKey.string Status.compensated) refl (lookup_same id _ s.sagas) refl
  compensate-Again (some (SagaKey.string Status.aborted)) s e =
      settles (SagaKey.string Status.compensated) refl (lookup_same id _ s.sagas) refl

  nobody_again :
      (f : Option SagaKey → Payment → Option Bool × Payment) (s : Payment)
      → RunsOnce (λ (t : Payment). t.sagas) id f (lookup id s.sagas) s
      → let once = unless_nobody id user amount (f (lookup id s.sagas)) s in
        unless_nobody id user amount (f (lookup id once.1.sagas)) once.1 ≡ once
  nobody_again f s h = elim (Bool-cases (user == "")) [
    | inl nobody ↦ rw nobody refl
    | inr somebody ↦ rw somebody h.same
  ]

  -- A command that is delivered twice does what it does once, and is answered alike: none of the five
  -- commands takes or gives back credit a second time, in whatever state the first one found the saga.
  pub credit_moves_once :
      (action : Action) (s : Payment)
      → run id user amount action (run id user amount action s).1 ≡ run id user amount action s
  unfolding run
  credit_moves_once Action.prepare s = (prepare-Again (lookup id s.sagas) s refl).same
  credit_moves_once Action.commit s = (commit-Again (lookup id s.sagas) s refl).same
  credit_moves_once Action.abort s =
      nobody_again (abort_from id user amount) s (abort-Again (lookup id s.sagas) s refl)
  credit_moves_once Action.execute s = (execute-Again (lookup id s.sagas) s refl).same
  credit_moves_once Action.compensate s =
      nobody_again (compensate_from id user amount) s (compensate-Again (lookup id s.sagas) s refl)
