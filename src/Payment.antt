-- ===== src/Payment.antt =====
-- payment/app.py: the payment service, with the Lua scripts that it runs (lua/payment_*.lua), as for the
-- stock service. The keys' expiry is not modelled: locks are written and never read. `run` has a prepare whose
-- lock has a positive time to live; Payment/Expiry.antt has the others.
pub mod Expiry
pub mod Commands
pub mod Replay
pub mod Undo
pub mod Users
use dds.Base.{String, ◌==◌, Bool, true, false, Option, none, some, List, [], ◌∷◌, if◌then◌else◌}
use dds.Base.Int.{ℤ, pos, ◌+ℤ◌, ◌-ℤ◌, ltb_ℤ}
use dds.Base.Dict.{Dict, lookup, insert, erase}
use dds.Stock.{Status, Action}

-- The hash `user:{id}`.
pub record User : Type 0 where
  pub available_credit : Option ℤ
  pub held_credit : Option ℤ

-- What stands under `saga:{id}:payment:status`: a hash with the field `amount`, or a text.
pub data SagaKey : Type 0 where
  hash : Status → Option ℤ → SagaKey
  string : Status → SagaKey

-- `amounts` holds the hashes `saga:{id}:payment:amounts`, and `locks` the keys `lock:2pc:{id}:{user}`.
pub record Payment : Type 0 where
  pub users : Dict User
  pub sagas : Dict SagaKey
  pub amounts : Dict (Dict ℤ)
  pub locks : Dict (Dict ℤ)

abbrev pub or_empty : Option (Dict ℤ) → Dict ℤ
or_empty none = []
or_empty (some d) = d

abbrev add_to : ℤ → Option ℤ → Option ℤ
add_to n none = some n
add_to n (some a) = some (a +ℤ n)

abbrev pub counted : ℤ → Option User → User
counted n none = record { available_credit = some n; held_credit = none }
counted n (some user) = record user { available_credit = add_to n user.available_credit }

-- HINCRBY user:{id} available_credit n
unfoldable pub hincrby : String → ℤ → Dict User → Dict User
hincrby id n d = insert id (counted n (lookup id d)) d

abbrev pub available_of : Option User → Option ℤ
available_of none = none
available_of (some user) = user.available_credit

-- HGET user:{id} available_credit
unfoldable pub available : String → Dict User → Option ℤ
available id d = available_of (lookup id d)

-- the validation: not (not available or available < amount)
abbrev pub affords : ℤ → Option ℤ → Bool
affords amount none = false
affords amount (some a) = if ltb_ℤ a amount then false else true

abbrev pub give : String → Option ℤ → Dict User → Dict User
give user none d = d
give user (some amount) d = hincrby user amount d

-- the loop of the compensation: every stored amount goes to the user of the command
unfoldable pub give_all : String → Dict ℤ → Dict User → Dict User
give_all user [] d = d
give_all user ((id, amount) ∷ rest) d = give_all user rest (hincrby user amount d)

module _ (id user : String) (amount : ℤ) where
  abbrev locks_of : Payment → Dict ℤ
  locks_of s = or_empty (lookup id s.locks)

  abbrev pub charge : Dict User → Dict User
  charge users = hincrby user (pos 0 -ℤ amount) users

  -- what a prepare does to the credit
  abbrev pub reserved : Payment → Payment
  reserved s = record s {
    users = charge s.users;
    sagas = insert id (SagaKey.hash Status.prepared (some amount)) s.sagas;
    locks = insert id (insert user amount (locks_of s)) s.locks;
  }

  abbrev pub reserve : Payment → Option Bool × Payment
  reserve s =
      if affords amount (available user s.users) then (some true, reserved s) else (some false, s)

  -- payment_2pc_prepare
  abbrev pub prepare_from : Option SagaKey → Payment → Option Bool × Payment
  prepare_from none s = reserve s
  prepare_from (some (SagaKey.string status)) s = (none, s)
  prepare_from (some (SagaKey.hash Status.prepared stored)) s = (some true, s)
  prepare_from (some (SagaKey.hash Status.aborted stored)) s = (some false, s)
  prepare_from (some (SagaKey.hash Status.committed stored)) s = (some false, s)
  prepare_from (some (SagaKey.hash _ stored)) s = reserve s

  abbrev pub committed_with : Option ℤ → Dict User → Payment → Option Bool × Payment
  committed_with stored users s = (
    some true,
    record s {
      users = users;
      sagas = insert id (SagaKey.hash Status.committed stored) s.sagas;
      locks = insert id (erase user (locks_of s)) s.locks;
    },
  )

  -- a commit whose prepare is not there deducts a positive amount now
  abbrev pub commit_anew : Option ℤ → Payment → Option Bool × Payment
  commit_anew stored s =
      committed_with (if ltb_ℤ (pos 0) amount then some amount else stored)
        (if ltb_ℤ (pos 0) amount then charge s.users else s.users) s

  -- payment_2pc_commit
  abbrev pub commit_from : Option SagaKey → Payment → Option Bool × Payment
  commit_from none s = commit_anew none s
  commit_from (some (SagaKey.string status)) s = (none, s)
  commit_from (some (SagaKey.hash Status.committed stored)) s = (some true, s)
  commit_from (some (SagaKey.hash Status.prepared stored)) s = committed_with stored s.users s
  commit_from (some (SagaKey.hash _ stored)) s = commit_anew stored s

  abbrev pub aborted_with : Option ℤ → Payment → Option Bool × Payment
  aborted_with stored s = (
    some true,
    record s {
      users = give user stored s.users;
      sagas = insert id (SagaKey.hash Status.aborted stored) s.sagas;
      locks = insert id (erase user (locks_of s)) s.locks;
    },
  )

  -- payment_2pc_abort
  abbrev pub abort_from : Option SagaKey → Payment → Option Bool × Payment
  abort_from none s = aborted_with none s
  abort_from (some (SagaKey.string status)) s = (none, s)
  abort_from (some (SagaKey.hash Status.aborted stored)) s = (some true, s)
  abort_from (some (SagaKey.hash _ stored)) s = aborted_with stored s

  -- what an execute does to the credit
  abbrev pub deducted : Payment → Payment
  deducted s = record s {
    users = charge s.users;
    sagas = insert id (SagaKey.string Status.executed) s.sagas;
    amounts = insert id (insert user amount (or_empty (lookup id s.amounts))) s.amounts;
  }

  abbrev pub deduct : Payment → Option Bool × Payment
  deduct s =
      if affords amount (available user s.users) then (some true, deducted s) else (some false, s)

  -- payment_saga_execute
  abbrev pub execute_from : Option SagaKey → Payment → Option Bool × Payment
  execute_from none s = deduct s
  execute_from (some (SagaKey.hash status stored)) s = (none, s)
  execute_from (some (SagaKey.string Status.executed)) s = (some true, s)
  execute_from (some (SagaKey.string Status.compensated)) s = (some false, s)
  execute_from (some (SagaKey.string _)) s = deduct s

  abbrev pub restored : Payment → Option Bool × Payment
  restored s = (
    some true,
    record s {
      users = give_all user (or_empty (lookup id s.amounts)) s.users;
      sagas = insert id (SagaKey.string Status.compensated) s.sagas;
      amounts = erase id s.amounts;
    },
  )

  -- payment_saga_compensate
  abbrev pub compensate_from : Option SagaKey → Payment → Option Bool × Payment
  compensate_from none s = restored s
  compensate_from (some (SagaKey.hash status stored)) s = (none, s)
  compensate_from (some (SagaKey.string Status.compensated)) s = (some true, s)
  compensate_from (some (SagaKey.string _)) s = restored s

  -- `if not user_id: return`
  abbrev pub unless_nobody : (Payment → Option Bool × Payment) → Payment → Option Bool × Payment
  unless_nobody script s = if user == "" then (some true, s) else script s

  -- `_2pc_prepare`, `_2pc_commit`, `_2pc_abort`, `_saga_execute` and `_saga_compensate`: whether the script
  -- returned 1
  unfoldable pub run : Action → Payment → Option Bool × Payment
  run Action.prepare s = prepare_from (lookup id s.sagas) s
  run Action.commit s = commit_from (lookup id s.sagas) s
  run Action.abort s = unless_nobody (abort_from (lookup id s.sagas)) s
  run Action.execute s = execute_from (lookup id s.sagas) s
  run Action.compensate s = unless_nobody (compensate_from (lookup id s.sagas)) s
