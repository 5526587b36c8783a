-- ===== src/Order/Endpoints.antt =====
-- order/app.py: the endpoints for orders other than the checkout. A database that does not answer is `none`,
-- and so is a connection to a replica that is not there. The id of a new order is an argument.
pub mod Added
use Prim.Native.String.{◌++◌ as concat, ◌∷◌ as char_then}
use dds.Base.{
  ℕ, String, ◌==◌, Bool, true, false, Option, none, some, List, [], ◌∷◌, ◌++◌, if◌then◌else◌,
}
use dds.Base.Int.{ℤ, pos, ◌*ℤ◌, ltb_ℤ}
use dds.Base.Dict.{Dict, lookup, insert}
use dds.Base.Split.{split_once}
use dds.Base.Decimal.{str, str_nat}
use dds.Batches.{Executed, batch_init, chunk_size}
use dds.Order.Store.{OrderHash, Db, lines_of, add_item_script}
use dds.Order.Checkout.{parse_lines}

-- A response with a body, a 400 with its detail, or an exception that becomes a 500.
pub data Answer (A : Type 0) : Type 0 where
  ok : A → Answer A
  db_error not_found bad_quantity no_such_item : Answer A
  server_error : Answer A

abbrev pub new_order : String → OrderHash
new_order user = record { user_id = some user; paid = some "false"; total_cost = some (pos 0) }

-- create_order
unfoldable pub create_order : String → String → Option Db → Answer String × Option Db
create_order key user none = (Answer.db_error, none)
create_order key user (some db) =
    (Answer.ok key, some (record db { orders = insert key (new_order user) db.orders }))

-- What `find_order` reports.
pub record Report : Type 0 where
  pub paid : Bool
  pub items : List String
  pub user_id : String
  pub total_cost : ℤ

abbrev add_name : Option (String × String) → Option (List String) → Option (List String)
add_name none rest = none
add_name (some (id, quantity)) none = none
add_name (some (id, quantity)) (some rest) = some (id ∷ rest)

-- item_id, _quantity = raw.split(":", 1)
unfoldable pub item_names : List String → Option (List String)
item_names [] = some []
item_names (raw ∷ raws) = add_name (split_once ":" raw) (item_names raws)

abbrev pub reported :
    Option (List String) → Option String → Option String → Option ℤ → Answer Report
reported (some items) (some paid) (some user) (some cost) =
    Answer.ok (record { paid = paid == "true"; items = items; user_id = user; total_cost = cost })
reported _ _ _ _ = Answer.server_error

abbrev pub report : Option OrderHash → List String → Answer Report
report none raws = Answer.not_found
report (some order) raws = reported (item_names raws) order.paid order.user_id order.total_cost

abbrev pub find_in : String → Db → Answer Report
find_in id db = report (lookup id db.orders) (lines_of id db)

-- find_order: the master, and where it does not answer the replica, if there is one
unfoldable pub find_order : String → Option Db → Option (Option Db) → Answer Report
find_order id (some db) replica = find_in id db
find_order id none none = Answer.db_error
find_order id none (some none) = Answer.db_error
find_order id none (some (some db)) = find_in id db

-- What the stock service answers: an HTTP error, a status, or the price in its body.
pub data Price : Type 0 where
  http_error : Price
  status : ℕ → Price
  found_at : ℤ → Price

-- f"{item_id}:{quantity}"
abbrev pub line : String → ℤ → String
line item quantity = concat item (char_then ":" (str quantity))

abbrev pub stored : ℤ → Db → Option Db → Answer ℤ × Option Db
stored cost db none = (Answer.not_found, some db)
stored cost db (some db') = (Answer.ok cost, some db')

abbrev pub store_line : String → String → ℤ → Option Db → Answer ℤ × Option Db
store_line id raw cost none = (Answer.db_error, none)
store_line id raw cost (some db) = stored cost db (add_item_script id raw cost db)

abbrev pub add_priced : String → String → ℤ → Price → Option Db → Answer ℤ × Option Db
add_priced id item quantity Price.http_error db = (Answer.db_error, db)
add_priced id item quantity (Price.status code) db = (Answer.no_such_item, db)
add_priced id item quantity (Price.found_at price) db =
    store_line id (line item quantity) (quantity *ℤ price) db

-- add_item: the cost by which the order grows
unfoldable pub add_item : String → String → ℤ → Price → Option Db → Answer ℤ × Option Db
add_item id item quantity found db =
    if ltb_ℤ (pos 0) quantity
    then add_priced id item quantity found db
    else (Answer.bad_quantity, db)

abbrev loaded :
    Option OrderHash → Option (List (String × ℤ)) → Answer (OrderHash × List (String × ℤ))
loaded none items = Answer.not_found
loaded (some order) none = Answer.server_error
loaded (some order) (some items) = Answer.ok (order, items)

-- `_load_order`
unfoldable pub load_order : String → Option Db → Answer (OrderHash × List (String × ℤ))
load_order id none = Answer.db_error
load_order id (some db) = loaded (lookup id db.orders) (parse_lines (lines_of id db))

-- what batch_init_users sets for the order `i`, where the random choices are a parameter: the user and two
-- items
unfoldable pub batch_order : (ℕ → ℕ × ℕ × ℕ) → ℤ → ℕ → Db → Db
batch_order choose price i db =
    let (user, first, second) = choose i in
    let key = str_nat i in
    record db {
      orders =
          insert key
            (record {
              user_id = some (str_nat user);
              paid = some "false";
              total_cost = some (pos 2 *ℤ price);
            })
            db.orders;
      items =
          insert key
            (lines_of key db ++ line (str_nat first) (pos 1) ∷ line (str_nat second) (pos 1) ∷ [])
            db.items;
    }

-- batch_init_users
unfoldable pub batch_init_users : (ℕ → Executed) → (ℕ → ℕ × ℕ × ℕ) → ℕ → ℕ → ℤ → Db → Bool × Db
batch_init_users pipe choose n size price db =
    batch_init (batch_order choose price) pipe n (chunk_size size) db
