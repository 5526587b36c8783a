-- ===== src/Stock/Replay.antt =====
-- Commands of the stock service that are delivered again, or late.
use dds.Base.{
  String, ◌≡◌, refl, ◌∙◌, Bool, true, false, Option, none, some, List, [], Bool-cases, inl, inr,
}
use dds.Base.Int.{ℤ}
use dds.Base.Dict.{Dict, lookup, lookup_same}
use dds.Repeat.{RunsOnce, unchanged, settles}
use dds.Stock.{
  Status, SagaKey, Stock, Action, run, enough, reserve, reserved, deduct, deducted, prepare_from,
  commit_from, abort_from, execute_from, compensate_from, record_all,
}

module _ (id : String) (items : List (String × ℤ)) where
  abbrev Again : (Option SagaKey → Stock → Option Bool × Stock) → Option SagaKey → Stock → Type 0
  Again f k s = RunsOnce (λ (t : Stock). t.sagas) id f k s

  reserve-Again :
      (k : Option SagaKey) (stored : Dict ℤ) (s : Stock)
      → lookup id s.sagas ≡ k
      → prepare_from id items k s ≡ reserve id items stored s
      → Again (prepare_from id items) k s
  reserve-Again k stored s e h = elim (Bool-cases (enough items s.items)) [
    | inl fits ↦
        let taken : reserve id items stored s ≡ (some true, reserved id items stored s) =
          rw fits refl in
        settles (SagaKey.hash Status.prepared (record_all items stored)) (h ∙ taken)
          (lookup_same id _ s.sagas) refl
    | inr short ↦ unchanged (some false) e (h ∙ rw short refl)
  ]

  prepare-Again :
      (k : Option SagaKey) (s : Stock) → lookup id s.sagas ≡ k → Again (prepare_from id items) k s
  prepare-Again none s e = reserve-Again none [] s e refl
  prepare-Again (some (SagaKey.string status)) s e = unchanged none e refl
  prepare-Again (some (SagaKey.hash Status.prepared stored)) s e = unchanged (some true) e refl
  prepare-Again (some (SagaKey.hash Status.aborted stored)) s e = unchanged (some false) e refl
  prepare-Again (some (SagaKey.hash Status.committed stored)) s e = unchanged (some false) e refl
  prepare-Again (some (SagaKey.hash Status.executed stored)) s e = reserve-Again _ stored s e refl
  prepare-Again (some (SagaKey.hash Status.compensated stored)) s e =
      reserve-Again _ stored s e refl

  commit-Again :
      (k : Option SagaKey) (s : Stock) → lookup id s.sagas ≡ k → Again (commit_from id items) k s
  commit-Again none s e =
      settles (SagaKey.hash Status.committed (record_all items [])) refl (lookup_same id _ s.sagas)
        refl
  commit-Again (some (SagaKey.string status)) s e = unchanged none e refl
  commit-Again (some (SagaKey.hash Status.committed stored)) s e = unchanged (some true) e refl
  commit-Again (some (SagaKey.hash Status.prepared stored)) s e =
      settles (SagaKey.hash Status.committed stored) refl (lookup_same id _ s.sagas) refl
  commit-Again (some (SagaKey.hash Status.aborted stored)) s e =
      settles (SagaKey.hash Status.committed (record_all items stored)) refl
        (lookup_same id _ s.sagas) refl
  commit-Again (some (SagaKey.hash Status.executed stored)) s e =
      settles (SagaKey.hash Status.committed (record_all items stored)) refl
        (lookup_same id _ s.sagas) refl
  commit-Again (some (SagaKey.hash Status.compensated stored)) s e =
      settles (SagaKey.hash Status.committed (record_all items stored)) refl
        (lookup_same id _ s.sagas) refl

  abort-Again :
      (k : Option SagaKey) (s : Stock) → lookup id s.sagas ≡ k → Again (abort_from id items) k s
  abort-Again none s e =
      settles (SagaKey.hash Status.aborted []) refl (lookup_same id _ s.sagas) refl
  abort-Again (some (SagaKey.string status)) s e = unchanged none e refl
  abort-Again (some (SagaKey.hash Status.aborted stored)) s e = unchanged (some true) e refl
  abort-Again (some (SagaKey.hash Status.prepared stored)) s e =
      settles (SagaKey.hash Status.aborted stored) refl (lookup_same id _ s.sagas) refl
  abort-Again (some (SagaKey.hash Status.committed stored)) s e =
      settles (SagaKey.hash Status.aborted stored) refl (lookup_same id _ s.sagas) refl
  abort-Again (some (SagaKey.hash Status.executed stored)) s e =
      settles (SagaKey.hash Status.aborted stored) refl (lookup_same id _ s.sagas) refl
  abort-Again (some (SagaKey.hash Status.compensated stored)) s e =
      settles (SagaKey.hash Status.aborted stored) refl (lookup_same id _ s.sagas) refl

  deduct-Again :
      (k : Option SagaKey) (s : Stock)
      → lookup id s.sagas ≡ k
      → execute_from id items k s ≡ deduct id items s
      → Again (execute_from id items) k s
  deduct-Again k s e h = elim (Bool-cases (enough items s.items)) [
    | inl fits ↦
        let taken : deduct id items s ≡ (some true, deducted id items s) = rw fits refl in
        settles (SagaKey.string Status.executed) (h ∙ taken) (lookup_same id _ s.sagas) refl
    | inr short ↦ unchanged (some false) e (h ∙ rw short refl)
  ]

  execute-Again :
      (k : Option SagaKey) (s : Stock) → lookup id s.sagas ≡ k → Again (execute_from id items) k s
  execute-Again none s e = deduct-Again none s e refl
  execute-Again (some (SagaKey.hash status stored)) s e = unchanged none e refl
  execute-Again (some (SagaKey.string Status.executed)) s e = unchanged (some true) e refl
  execute-Again (some (SagaKey.string Status.compensated)) s e = unchanged (some false) e refl
  execute-Again (some (SagaKey.string Status.prepared)) s e = deduct-Again _ s e refl
  execute-Again (some (SagaKey.string Status.committed)) s e = deduct-Again _ s e refl
  execute-Again (some (SagaKey.string Status.aborted)) s e = deduct-Again _ s e refl

  compensate-Again :
      (k : Option SagaKey) (s : Stock)
      → lookup id s.sagas ≡ k
      → Again (compensate_from id items) k s
  compensate-Again none s e =
      settles (SagaKey.string Status.compensated) refl (lookup_same id _ s.sagas) refl
  compensate-Again (some (SagaKey.hash status stored)) s e = unchanged none e refl
  compensate-Again (some (SagaKey.string Status.compensated)) s e = unchanged (some true) e refl
  compensate-Again (some (SagaKey.string Status.executed)) s e =
      settles (SagaKey.string Status.compensated) refl (lookup_same id _ s.sagas) refl
  compensate-Again (some (SagaKey.string Status.prepared)) s e =
      settles (SagaKey.string Status.compensated) refl (lookup_same id _ s.sagas) refl
  compensate-Again (some (SagaKey.string Status.committed)) s e =
      settles (SagaKey.string Status.compensated) refl (lookup_same id _ s.sagas) refl
  compensate-Again (some (SagaKey.string Status.aborted)) s e =
      settles (SagaKey.string Status.compensated) refl (lookup_same id _ s.sagas) refl

  -- A command that is delivered twice does what it does once, and is answered alike: none of the five
  -- commands takes or gives back stock a second time, in whatever state the first one found the saga.
  pub run-run :
      (action : Action) (s : Stock)
      → run id items action (run id items action s).1 ≡ run id items action s
  unfolding run
  run-run Action.prepare s = (prepare-Again (lookup id s.sagas) s refl).same
  run-run Action.commit s = (commit-Again (lookup id s.sagas) s refl).same
  run-run Action.abort s = (abort-Again (lookup id s.sagas) s refl).same
  run-run Action.execute s = (execute-Again (lookup id s.sagas) s refl).same
  run-run Action.compensate s = (compensate-Again (lookup id s.sagas) s refl).same
