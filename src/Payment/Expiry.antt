-- ===== src/Payment/Expiry.antt =====
-- lua/payment_2pc_prepare.lua where SETEX refuses the time to live of the lock.
use dds.Base.{String, Bool, true, false, Option, none, some, if◌then◌else◌}
use dds.Base.Int.{ℤ, pos, ltb_ℤ}
use dds.Base.Dict.{lookup}
use dds.Stock.{Status, Action}
use dds.Payment.{Payment, SagaKey, affords, available, charge, run}

module _ (id user : String) (amount : ℤ) where
  -- SETEX raises after the HINCRBY, which stays, and no amount and no status is stored
  abbrev reserve_unlocked : Payment → Option Bool × Payment
  reserve_unlocked s =
      if affords amount (available user s.users)
      then (none, record s { users = charge id user amount s.users })
      else (some false, s)

  -- payment_2pc_prepare, with a time to live that is not positive
  abbrev pub prepare_unlocked : Option SagaKey → Payment → Option Bool × Payment
  prepare_unlocked none s = reserve_unlocked s
  prepare_unlocked (some (SagaKey.string status)) s = (none, s)
  prepare_unlocked (some (SagaKey.hash Status.prepared stored)) s = (some true, s)
  prepare_unlocked (some (SagaKey.hash Status.aborted stored)) s = (some false, s)
  prepare_unlocked (some (SagaKey.hash Status.committed stored)) s = (some false, s)
  prepare_unlocked (some (SagaKey.hash _ stored)) s = reserve_unlocked s

  -- The five commands, where a prepare has the time to live of its lock.
  unfoldable pub run_for : ℤ → Action → Payment → Option Bool × Payment
  run_for ttl Action.prepare s =
      if ltb_ℤ (pos 0) ttl
      then run id user amount Action.prepare s
      else prepare_unlocked (lookup id s.sagas) s
  run_for ttl Action.commit s = run id user amount Action.commit s
  run_for ttl Action.abort s = run id user amount Action.abort s
  run_for ttl Action.execute s = run id user amount Action.execute s
  run_for ttl Action.compensate s = run id user amount Action.compensate s
