-- ===== src/Stock/Expiry.antt =====
-- lua/stock_2pc_prepare.lua where SETEX refuses the time to live of a lock.
use dds.Base.{
  String, ◌≡◌, refl, Bool, true, false, Option, none, some, List, [], ◌∷◌, if◌then◌else◌,
}
use dds.Base.Int.{ℤ, pos, ◌-ℤ◌, ltb_ℤ}
use dds.Base.Dict.{Dict, lookup}
use dds.Stock.{Stock, SagaKey, Status, Action, enough, hincrby, reserved, run}

module _ (id : String) (items : List (String × ℤ)) where
  -- the loop that deducts: the first lock's SETEX raises after its HINCRBY, which stays, and no amount and
  -- no status is stored
  abbrev cut_short : List (String × ℤ) → Dict ℤ → Stock → Option Bool × Stock
  cut_short [] stored s = (some true, reserved id [] stored s)
  cut_short ((item, amount) ∷ rest) stored s =
      (none, record s { items = hincrby item (pos 0 -ℤ amount) s.items })

  abbrev reserve_unlocked : Dict ℤ → Stock → Option Bool × Stock
  reserve_unlocked stored s =
      if enough items s.items then cut_short items stored s else (some false, s)

  -- stock_2pc_prepare, with a time to live that is not positive
  abbrev pub prepare_unlocked : Option SagaKey → Stock → Option Bool × Stock
  prepare_unlocked none s = reserve_unlocked [] s
  prepare_unlocked (some (SagaKey.string status)) s = (none, s)
  prepare_unlocked (some (SagaKey.hash Status.prepared stored)) s = (some true, s)
  prepare_unlocked (some (SagaKey.hash Status.aborted stored)) s = (some false, s)
  prepare_unlocked (some (SagaKey.hash Status.committed stored)) s = (some false, s)
  prepare_unlocked (some (SagaKey.hash _ stored)) s = reserve_unlocked stored s

  -- The five commands, where a prepare has the time to live of its locks.
  unfoldable pub run_for : ℤ → Action → Stock → Option Bool × Stock
  run_for ttl Action.prepare s =
      if ltb_ℤ (pos 0) ttl
      then run id items Action.prepare s
      else prepare_unlocked (lookup id s.sagas) s
  run_for ttl Action.commit s = run id items Action.commit s
  run_for ttl Action.abort s = run id items Action.abort s
  run_for ttl Action.execute s = run id items Action.execute s
  run_for ttl Action.compensate s = run id items Action.compensate s

  pub run_for-run :
      (ttl : ℤ) (action : Action) (s : Stock)
      → (action ≡ Action.prepare → ltb_ℤ (pos 0) ttl ≡ true)
      → run_for ttl action s ≡ run id items action s
  unfolding run_for
  run_for-run ttl Action.prepare s h = rw (h refl) refl
  run_for-run ttl Action.commit s h = refl
  run_for-run ttl Action.abort s h = refl
  run_for-run ttl Action.execute s h = refl
  run_for-run ttl Action.compensate s h = refl
