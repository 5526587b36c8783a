-- ===== src/Order/Store.antt =====
-- order/app.py: what the order service keeps in Redis, with the scripts order_add_item.lua and
-- order_load_and_claim.lua. Times are whole seconds; a claim is the JSON value of its key.
use dds.Base.{
  ℕ, ◌+◌, String, Bool, true, false, Option, none, some, List, [], ◌∷◌, ◌++◌, ltb, if◌then◌else◌,
}
use dds.Base.Int.{ℤ, ◌+ℤ◌}
use dds.Base.Dict.{Dict, lookup, insert, erase}

-- The hash `order:{id}`.
pub record OrderHash : Type 0 where
  pub user_id : Option String
  pub paid : Option String
  pub total_cost : Option ℤ

-- What stands under `idempotency:checkout:{id}`.
pub data Claim : Type 0 where
  processing : String → Claim
  success : String → Claim
  failed : String → Claim

-- `items` holds the lists `order:{id}:items`, and `claims` a claim with the time at which it expires.
pub record Db : Type 0 where
  pub orders : Dict OrderHash
  pub items : Dict (List String)
  pub claims : Dict (Claim × ℕ)

abbrev pub or_empty : Option (List String) → List String
or_empty none = []
or_empty (some l) = l

-- LRANGE order:{id}:items 0 -1
unfoldable pub lines_of : String → Db → List String
lines_of id db = or_empty (lookup id db.items)

abbrev pub live_at : ℕ → Option (Claim × ℕ) → Option Claim
live_at now none = none
live_at now (some (claim, until)) = if ltb now until then some claim else none

-- GET: an expired claim is gone
unfoldable pub claim_of : String → ℕ → Db → Option Claim
claim_of id now db = live_at now (lookup id db.claims)

-- SET with EX
unfoldable pub set_claim : String → Claim → ℕ → ℕ → Db → Db
set_claim id claim ttl now db = record db { claims = insert id (claim, now + ttl) db.claims }

-- DEL
unfoldable pub drop_claim : String → Db → Db
drop_claim id db = record db { claims = erase id db.claims }

abbrev add_to : ℤ → Option ℤ → Option ℤ
add_to n none = some n
add_to n (some a) = some (a +ℤ n)

-- order_add_item: none is ORDER_NOT_FOUND
abbrev pub add_to_order : Option OrderHash → String → String → ℤ → Db → Option Db
add_to_order none id line cost db = none
add_to_order (some order) id line cost db = some (record db {
  items = insert id (lines_of id db ++ line ∷ []) db.items;
  orders = insert id (record order { total_cost = add_to cost order.total_cost }) db.orders;
})

unfoldable pub add_item_script : String → String → ℤ → Db → Option Db
add_item_script id line cost db = add_to_order (lookup id db.orders) id line cost db

-- whether the claim may be taken: there is none, or the one before failed
abbrev pub is_open : Option Claim → Bool
is_open none = true
is_open (some (Claim.failed error)) = true
is_open (some _) = false

-- order_load_and_claim: the hash, the lines and whether the claim was acquired, if the order is found
abbrev pub load_found :
    Option OrderHash → String → String → ℕ → Db → Option (OrderHash × List String × Bool) × Db
load_found none id saga_id now db = (none, db)
load_found (some order) id saga_id now db =
    if is_open (claim_of id now db)
    then (some (order, lines_of id db, true), set_claim id (Claim.processing saga_id) 300 now db)
    else (some (order, lines_of id db, false), db)

unfoldable pub load_and_claim :
    String → String → ℕ → Db → Option (OrderHash × List String × Bool) × Db
load_and_claim id saga_id now db = load_found (lookup id db.orders) id saga_id now db

abbrev paid_hash : Option OrderHash → OrderHash
paid_hash none = record { user_id = none; paid = some "true"; total_cost = none }
paid_hash (some order) = record order { paid = some "true" }

-- HSET order:{id} paid true
unfoldable pub mark_paid : String → Db → Db
mark_paid id db = record db { orders = insert id (paid_hash (lookup id db.orders)) db.orders }
