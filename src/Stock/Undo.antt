-- ===== src/Stock/Undo.antt =====
-- What the aborting and the compensating commands undo, and that what was undone stays undone.
use dds.Base.{
  String, ◌≡◌, refl, ap, ◌∙◌, true, false, Option, none, some, List, [], ◌∷◌, Bool-cases, inl, inr,
}
use dds.Base.Int.{ℤ, pos, ◌+ℤ◌, ◌≤ℤ◌, zero_+ℤ}
use dds.Base.Dict.{Dict, lookup, insert, lookup_same}
use dds.Stock.{
  Item, Status, SagaKey, Stock, Action, run, enough, prepare_from, abort_from, execute_from,
  compensate_from, take_all, record_all, give_back, give_all, reserve, deduct,
}
use dds.Stock.Levels.{level, demand, level-take_all, level-give_all}
use dds.Stock.Stored.{Fresh, take_all-nonneg, level-give_back, record_all-Stored, demand-record_all}

stored_nothing :
    (items : List (String × ℤ)) (j : String) → demand j [] +ℤ demand j items ≡ demand j items
unfolding demand
stored_nothing items j = zero_+ℤ _

give_back_nothing : (items : List (String × ℤ)) (d : Dict Item) → give_back items [] d ≡ d
unfolding give_back lookup
give_back_nothing [] d = refl
give_back_nothing ((id, amount) ∷ rest) d = give_back_nothing rest d

module _ (id : String) (items : List (String × ℤ)) (s : Stock) where
  -- A prepare of a saga that is new to the service, over items with different names, is undone by the abort
  -- of the same items: every item has the level that it had, whether the prepare succeeded or not.
  pub prepare_then_abort :
      (j : String)
      → lookup id s.sagas ≡ none
      → Fresh [] items
      → level j (run id items Action.abort (run id items Action.prepare s).1).1.items
        ≡ level j s.items
  unfolding run
  prepare_then_abort j new f = elim (Bool-cases (enough items s.items)) [
    | inl fits ↦
        rw (new, fits)
          (rw (lookup_same id (SagaKey.hash Status.prepared (record_all items [])) s.sagas) (
            level-give_back j items (record_all items []) (take_all items s.items)
              (record_all-Stored items [] f)
            ∙ level-take_all j items s.items))
    | inr short ↦ rw (new, short) (rw new (ap (level j) (give_back_nothing items s.items)))
  ]

  -- An execute of a saga that is new to the service and has nothing stored, over items with different names,
  -- is undone by the compensation: every item has the level that it had, whether the execute succeeded or
  -- not.
  pub execute_then_compensate :
      (j : String)
      → lookup id s.sagas ≡ none
      → lookup id s.amounts ≡ none
      → Fresh [] items
      → level j (run id items Action.compensate (run id items Action.execute s).1).1.items
        ≡ level j s.items
  unfolding run
  execute_then_compensate j new unstored f = elim (Bool-cases (enough items s.items)) [
    | inl fits ↦
        rw (new, fits, unstored)
          (rw
            (
              lookup_same id (SagaKey.string Status.executed) s.sagas,
              lookup_same id (record_all items []) s.amounts,
            )
            (level-give_all j (record_all items []) (take_all items s.items)
              ∙ ap (λ x. level j (take_all items s.items) +ℤ x)
                  (demand-record_all j items [] f ∙ stored_nothing items j)
              ∙ level-take_all j items s.items))
    | inr short ↦ rw (new, short) (rw (new, unstored) (unfold give_all in refl))
  ]

  -- If a saga that is new to the service has been prepared, a commit leaves the same items as it does where
  -- the prepare was lost, so a failover between the two changes nothing.
  pub lost_prepare_commits :
      lookup id s.sagas ≡ none
      → (run id items Action.prepare s).0 ≡ some true
      → (run id items Action.commit (run id items Action.prepare s).1).1.items
        ≡ (run id items Action.commit s).1.items
  unfolding run
  lost_prepare_commits new ok = elim (Bool-cases (enough items s.items)) [
    | inl fits ↦
        rw (new, fits)
          (rw (lookup_same id (SagaKey.hash Status.prepared (record_all items [])) s.sagas) refl)
    | inr short ↦ absurd (cc (rw (new, short) at ok))
  ]

  -- An abort that arrives after the commit of a prepared saga that is new to the service, over items with
  -- different names, gives the stock back, though it was sold: every item has the level that it had before.
  pub commit_then_abort :
      (j : String)
      → lookup id s.sagas ≡ none
      → Fresh [] items
      → (run id items Action.prepare s).0 ≡ some true
      → let s' = (run id items Action.commit (run id items Action.prepare s).1).1 in
        level j (run id items Action.abort s').1.items ≡ level j s.items
  unfolding run
  commit_then_abort j new f ok = elim (Bool-cases (enough items s.items)) [
    | inl fits ↦
        let stored = record_all items [] in
        let prepared_sagas = insert id (SagaKey.hash Status.prepared stored) s.sagas in
        rw (new, fits)
          (rw (lookup_same id (SagaKey.hash Status.prepared stored) s.sagas) (
            rw (lookup_same id (SagaKey.hash Status.committed stored) prepared_sagas) (
              level-give_back j items stored (take_all items s.items) (record_all-Stored items [] f)
              ∙ level-take_all j items s.items)))
    | inr short ↦ absurd (cc (rw (new, short) at ok))
  ]

  aborted_key :
      (k : Option SagaKey)
      → lookup id s.sagas ≡ k
      → (abort_from id items k s).0 ≡ some true
      → (stored : Dict ℤ) × (lookup id (abort_from id items k s).1.sagas
          ≡ some (SagaKey.hash Status.aborted stored))
  aborted_key none e ok = (_, lookup_same id _ s.sagas)
  aborted_key (some (SagaKey.string status)) e ok = cc
  aborted_key (some (SagaKey.hash Status.aborted stored)) e ok = (stored, e)
  aborted_key (some (SagaKey.hash Status.prepared stored)) e ok = (_, lookup_same id _ s.sagas)
  aborted_key (some (SagaKey.hash Status.committed stored)) e ok = (_, lookup_same id _ s.sagas)
  aborted_key (some (SagaKey.hash Status.executed stored)) e ok = (_, lookup_same id _ s.sagas)
  aborted_key (some (SagaKey.hash Status.compensated stored)) e ok = (_, lookup_same id _ s.sagas)

  -- Once an abort is done, a prepare that arrives late, for whatever items, is refused and takes nothing.
  pub aborted_refuses_prepare :
      (late : List (String × ℤ))
      → (run id items Action.abort s).0 ≡ some true
      → run id late Action.prepare (run id items Action.abort s).1
        ≡ (some false, (run id items Action.abort s).1)
  unfolding run
  aborted_refuses_prepare late ok =
      let (stored, e) = aborted_key (lookup id s.sagas) refl ok in rw e refl

  compensated_key :
      (k : Option SagaKey)
      → lookup id s.sagas ≡ k
      → (compensate_from id items k s).0 ≡ some true
      → lookup id (compensate_from id items k s).1.sagas ≡ some (SagaKey.string Status.compensated)
  compensated_key none e ok = lookup_same id _ s.sagas
  compensated_key (some (SagaKey.hash status stored)) e ok = cc
  compensated_key (some (SagaKey.string Status.compensated)) e ok = e
  compensated_key (some (SagaKey.string Status.prepared)) e ok = lookup_same id _ s.sagas
  compensated_key (some (SagaKey.string Status.committed)) e ok = lookup_same id _ s.sagas
  compensated_key (some (SagaKey.string Status.aborted)) e ok = lookup_same id _ s.sagas
  compensated_key (some (SagaKey.string Status.executed)) e ok = lookup_same id _ s.sagas

  -- Once a compensation is done, an execute that arrives late, for whatever items, is refused and takes
  -- nothing.
  pub compensated_refuses_execute :
      (late : List (String × ℤ))
      → (run id items Action.compensate s).0 ≡ some true
      → run id late Action.execute (run id items Action.compensate s).1
        ≡ (some false, (run id items Action.compensate s).1)
  unfolding run
  compensated_refuses_execute late ok = rw (compensated_key (lookup id s.sagas) refl ok) refl

  reserve-nonneg :
      (j : String) (stored : Dict ℤ)
      → Fresh [] items
      → pos 0 ≤ℤ level j s.items
      → pos 0 ≤ℤ level j (reserve id items stored s).1.items
  reserve-nonneg j stored f p = elim (Bool-cases (enough items s.items)) [
    | inl fits ↦ rw fits (take_all-nonneg j items s.items f fits p)
    | inr short ↦ rw short p
  ]

  deduct-nonneg :
      (j : String)
      → Fresh [] items
      → pos 0 ≤ℤ level j s.items
      → pos 0 ≤ℤ level j (deduct id items s).1.items
  deduct-nonneg j f p = elim (Bool-cases (enough items s.items)) [
    | inl fits ↦ rw fits (take_all-nonneg j items s.items f fits p)
    | inr short ↦ rw short p
  ]

  prepare-nonneg :
      (j : String) (k : Option SagaKey)
      → Fresh [] items
      → pos 0 ≤ℤ level j s.items
      → pos 0 ≤ℤ level j (prepare_from id items k s).1.items
  prepare-nonneg j none f p = reserve-nonneg j [] f p
  prepare-nonneg j (some (SagaKey.string status)) f p = p
  prepare-nonneg j (some (SagaKey.hash Status.prepared stored)) f p = p
  prepare-nonneg j (some (SagaKey.hash Status.committed stored)) f p = p
  prepare-nonneg j (some (SagaKey.hash Status.aborted stored)) f p = p
  prepare-nonneg j (some (SagaKey.hash Status.executed stored)) f p = reserve-nonneg j stored f p
  prepare-nonneg j (some (SagaKey.hash Status.compensated stored)) f p = reserve-nonneg j stored f p

  execute-nonneg :
      (j : String) (k : Option SagaKey)
      → Fresh [] items
      → pos 0 ≤ℤ level j s.items
      → pos 0 ≤ℤ level j (execute_from id items k s).1.items
  execute-nonneg j none f p = deduct-nonneg j f p
  execute-nonneg j (some (SagaKey.hash status stored)) f p = p
  execute-nonneg j (some (SagaKey.string Status.executed)) f p = p
  execute-nonneg j (some (SagaKey.string Status.compensated)) f p = p
  execute-nonneg j (some (SagaKey.string Status.prepared)) f p = deduct-nonneg j f p
  execute-nonneg j (some (SagaKey.string Status.committed)) f p = deduct-nonneg j f p
  execute-nonneg j (some (SagaKey.string Status.aborted)) f p = deduct-nonneg j f p

  -- Neither a prepare nor an execute, over items with different names, sells what is not there: a level that
  -- is not below zero stays so.
  pub never_oversells :
      (j : String)
      → Fresh [] items
      → pos 0 ≤ℤ level j s.items
      → (pos 0 ≤ℤ level j (run id items Action.prepare s).1.items)
        × (pos 0 ≤ℤ level j (run id items Action.execute s).1.items)
  unfolding run
  never_oversells j f p =
      (prepare-nonneg j (lookup id s.sagas) f p, execute-nonneg j (lookup id s.sagas) f p)
