-- ===== src/Stock.antt =====
-- stock/app.py: the stock service, with the Lua scripts that it runs (lua/stock_*.lua).
-- A script runs alone in Redis, so it is one function of the state; an error that Redis raises is `none`,
-- beside the state that it leaves.
-- Amounts are exact integers. The keys' expiry is not modelled: locks are written and never read. `run` has a
-- prepare whose locks have a positive time to live; Stock/Expiry.antt has the others.
pub mod Levels
pub mod Stored
pub mod Items
pub mod Expiry
pub mod Commands
pub mod Replay
pub mod Undo
use dds.Base.{String, ◌==◌, Bool, true, false, Option, none, some, List, [], ◌∷◌, if◌then◌else◌}
use dds.Base.Int.{ℤ, pos, ◌+ℤ◌, ◌-ℤ◌, ltb_ℤ}
use dds.Base.Dict.{Dict, lookup, insert, erase}
use dds.Orchestrator.Value.{Context, Value, get_text}
use dds.Orchestrator.Transport.{Reply, fields}

-- The hash `item:{id}`. HINCRBY makes a missing hash with only the field that it counts.
pub record Item : Type 0 where
  pub available_stock : Option ℤ
  pub reserved_stock : Option ℤ
  pub price : Option ℤ

pub data Status : Type 0 where
  prepared committed aborted executed compensated : Status

-- What stands under `saga:{id}:stock:status`: the hash of a two-phase commit, with the fields
-- `amount:{item}`, or the text of a saga.
pub data SagaKey : Type 0 where
  hash : Status → Dict ℤ → SagaKey
  string : Status → SagaKey

-- `amounts` holds the hashes `saga:{id}:stock:amounts`, and `locks` the keys `lock:2pc:{id}:{item}`.
pub record Stock : Type 0 where
  pub items : Dict Item
  pub sagas : Dict SagaKey
  pub amounts : Dict (Dict ℤ)
  pub locks : Dict (Dict ℤ)

abbrev pub or_empty : Option (Dict ℤ) → Dict ℤ
or_empty none = []
or_empty (some d) = d

abbrev add_to : ℤ → Option ℤ → Option ℤ
add_to n none = some n
add_to n (some a) = some (a +ℤ n)

abbrev pub counted : ℤ → Option Item → Item
counted n none = record { available_stock = some n; reserved_stock = none; price = none }
counted n (some item) = record item { available_stock = add_to n item.available_stock }

-- HINCRBY item:{id} available_stock n
unfoldable pub hincrby : String → ℤ → Dict Item → Dict Item
hincrby id n d = insert id (counted n (lookup id d)) d

abbrev pub available_of : Option Item → Option ℤ
available_of none = none
available_of (some item) = item.available_stock

-- HGET item:{id} available_stock
unfoldable pub available : String → Dict Item → Option ℤ
available id d = available_of (lookup id d)

-- not available or available < amount
abbrev pub is_short : Option ℤ → ℤ → Bool
is_short none amount = true
is_short (some a) amount = ltb_ℤ a amount

-- the loop that validates all items
unfoldable pub enough : List (String × ℤ) → Dict Item → Bool
enough [] d = true
enough ((id, amount) ∷ rest) d =
    let later = enough rest d in if is_short (available id d) amount then false else later

-- the loops that deduct
unfoldable pub take_all : List (String × ℤ) → Dict Item → Dict Item
take_all [] d = d
take_all ((id, amount) ∷ rest) d = take_all rest (hincrby id (pos 0 -ℤ amount) d)

-- the loops that store amounts
unfoldable pub record_all : List (String × ℤ) → Dict ℤ → Dict ℤ
record_all [] d = d
record_all ((id, amount) ∷ rest) d = record_all rest (insert id amount d)

abbrev pub give : String → Option ℤ → Dict Item → Dict Item
give id none d = d
give id (some amount) d = hincrby id amount d

-- the loop of the abort: each item of the command gets back what was stored for it
unfoldable pub give_back : List (String × ℤ) → Dict ℤ → Dict Item → Dict Item
give_back [] stored d = d
give_back ((id, amount) ∷ rest) stored d = give_back rest stored (give id (lookup id stored) d)

-- the loop of the compensation: everything that was stored
unfoldable pub give_all : Dict ℤ → Dict Item → Dict Item
give_all [] d = d
give_all ((id, amount) ∷ rest) d = give_all rest (hincrby id amount d)

unfoldable pub unlock : List (String × ℤ) → Dict ℤ → Dict ℤ
unlock [] d = d
unlock ((id, amount) ∷ rest) d = unlock rest (erase id d)

-- The commands of the protocols.
pub data Action : Type 0 where
  prepare commit abort execute compensate : Action

module _ (id : String) (items : List (String × ℤ)) where
  abbrev locks_of : Stock → Dict ℤ
  locks_of s = or_empty (lookup id s.locks)

  -- what a prepare does to the stock, over the amounts that the hash has
  abbrev pub reserved : Dict ℤ → Stock → Stock
  reserved stored s = record s {
    items = take_all items s.items;
    sagas = insert id (SagaKey.hash Status.prepared (record_all items stored)) s.sagas;
    locks = insert id (record_all items (locks_of s)) s.locks;
  }

  abbrev pub reserve : Dict ℤ → Stock → Option Bool × Stock
  reserve stored s =
      if enough items s.items then (some true, reserved stored s) else (some false, s)

  -- stock_2pc_prepare
  abbrev pub prepare_from : Option SagaKey → Stock → Option Bool × Stock
  prepare_from none s = reserve [] s
  prepare_from (some (SagaKey.string status)) s = (none, s)
  prepare_from (some (SagaKey.hash Status.prepared stored)) s = (some true, s)
  prepare_from (some (SagaKey.hash Status.aborted stored)) s = (some false, s)
  prepare_from (some (SagaKey.hash Status.committed stored)) s = (some false, s)
  prepare_from (some (SagaKey.hash _ stored)) s = reserve stored s

  abbrev pub committed_with : Dict ℤ → Dict Item → Stock → Option Bool × Stock
  committed_with stored levels s = (
    some true,
    record s {
      items = levels;
      sagas = insert id (SagaKey.hash Status.committed stored) s.sagas;
      locks = insert id (unlock items (locks_of s)) s.locks;
    },
  )

  -- stock_2pc_commit: what was not prepared is deducted now
  abbrev pub commit_from : Option SagaKey → Stock → Option Bool × Stock
  commit_from none s = committed_with (record_all items []) (take_all items s.items) s
  commit_from (some (SagaKey.string status)) s = (none, s)
  commit_from (some (SagaKey.hash Status.committed stored)) s = (some true, s)
  commit_from (some (SagaKey.hash Status.prepared stored)) s = committed_with stored s.items s
  commit_from (some (SagaKey.hash _ stored)) s =
      committed_with (record_all items stored) (take_all items s.items) s

  abbrev pub aborted_with : Dict ℤ → Stock → Option Bool × Stock
  aborted_with stored s = (
    some true,
    record s {
      items = give_back items stored s.items;
      sagas = insert id (SagaKey.hash Status.aborted stored) s.sagas;
      locks = insert id (unlock items (locks_of s)) s.locks;
    },
  )

  -- stock_2pc_abort
  abbrev pub abort_from : Option SagaKey → Stock → Option Bool × Stock
  abort_from none s = aborted_with [] s
  abort_from (some (SagaKey.string status)) s = (none, s)
  abort_from (some (SagaKey.hash Status.aborted stored)) s = (some true, s)
  abort_from (some (SagaKey.hash _ stored)) s = aborted_with stored s

  -- what an execute does to the stock
  abbrev pub deducted : Stock → Stock
  deducted s = record s {
    items = take_all items s.items;
    sagas = insert id (SagaKey.string Status.executed) s.sagas;
    amounts = insert id (record_all items (or_empty (lookup id s.amounts))) s.amounts;
  }

  abbrev pub deduct : Stock → Option Bool × Stock
  deduct s = if enough items s.items then (some true, deducted s) else (some false, s)

  -- stock_saga_execute
  abbrev pub execute_from : Option SagaKey → Stock → Option Bool × Stock
  execute_from none s = deduct s
  execute_from (some (SagaKey.hash status stored)) s = (none, s)
  execute_from (some (SagaKey.string Status.executed)) s = (some true, s)
  execute_from (some (SagaKey.string Status.compensated)) s = (some false, s)
  execute_from (some (SagaKey.string _)) s = deduct s

  abbrev pub restored : Stock → Option Bool × Stock
  restored s = (
    some true,
    record s {
      items = give_all (or_empty (lookup id s.amounts)) s.items;
      sagas = insert id (SagaKey.string Status.compensated) s.sagas;
      amounts = erase id s.amounts;
    },
  )

  -- stock_saga_compensate
  abbrev pub compensate_from : Option SagaKey → Stock → Option Bool × Stock
  compensate_from none s = restored s
  compensate_from (some (SagaKey.hash status stored)) s = (none, s)
  compensate_from (some (SagaKey.string Status.compensated)) s = (some true, s)
  compensate_from (some (SagaKey.string _)) s = restored s

  -- `_2pc_prepare`, `_2pc_commit`, `_2pc_abort`, `_saga_execute` and `_saga_compensate`: whether the script
  -- returned 1
  unfoldable pub run : Action → Stock → Option Bool × Stock
  run prepare s = prepare_from (lookup id s.sagas) s
  run commit s = commit_from (lookup id s.sagas) s
  run abort s = abort_from (lookup id s.sagas) s
  run execute s = execute_from (lookup id s.sagas) s
  run compensate s = compensate_from (lookup id s.sagas) s
