-- ===== src/Stock/Items.antt =====
-- stock/app.py: the items behind the HTTP endpoints, with the scripts stock_add_direct.lua and
-- stock_subtract_direct.lua. A database that does not answer is `none`; the id of a new item is an argument.
pub mod Answers
use dds.Base.{ℕ, String, Bool, true, false, Option, none, some, List, [], ◌∷◌, if◌then◌else◌}
use dds.Base.Int.{ℤ, pos, ◌+ℤ◌, ◌-ℤ◌, ltb_ℤ}
use dds.Base.Dict.{Dict, lookup, insert}
use dds.Base.Decimal.{str_nat}
use dds.Batches.{Executed, batch_init, chunk_size}
use dds.Stock.{Item, hincrby, available}

-- A response with a body, a 400 with its detail, or an exception that becomes a 500.
pub data Answer (A : Type 0) : Type 0 where
  ok : A → Answer A
  item_not_found db_error below_zero : Answer A
  server_error : Answer A

-- create_item
unfoldable pub create_item : String → ℤ → Option (Dict Item) → Answer String × Option (Dict Item)
create_item key price none = (Answer.db_error, none)
create_item key price (some d) = (
  Answer.ok key,
  some (
      insert key
        (record {
          available_stock = some (pos 0);
          reserved_stock = some (pos 0);
          price = some price;
        })
        d),
)

-- the stock, available and reserved, and the price; a field that is missing is a KeyError
abbrev pub report : Option Item → Answer (ℤ × ℤ)
report none = Answer.item_not_found
report (some item) = elim item.available_stock [
  | none ↦ Answer.server_error
  | some free ↦ elim item.reserved_stock [
    | none ↦ Answer.server_error
    | some held ↦ elim item.price [
      | none ↦ Answer.server_error
      | some price ↦ Answer.ok (free +ℤ held, price)
    ]
  ]
]

-- find_item: the master, and where it does not answer the replica, if there is one
unfoldable pub find_item :
    String → Option (Dict Item) → Option (Option (Dict Item)) → Answer (ℤ × ℤ)
find_item id (some d) replica = report (lookup id d)
find_item id none none = Answer.db_error
find_item id none (some none) = Answer.db_error
find_item id none (some (some d)) = report (lookup id d)

abbrev or_zero : Option ℤ → ℤ
or_zero none = pos 0
or_zero (some a) = a

abbrev add_if : Option Item → String → ℤ → Dict Item → Answer ℤ × Dict Item
add_if none id amount d = (Answer.item_not_found, d)
add_if (some item) id amount d =
    (Answer.ok (or_zero item.available_stock +ℤ amount), hincrby id amount d)

-- add_stock: the level that the script returns
unfoldable pub add_stock : String → ℤ → Option (Dict Item) → Answer ℤ × Option (Dict Item)
add_stock id amount none = (Answer.db_error, none)
add_stock id amount (some d) =
    let (answer, d') = add_if (lookup id d) id amount d in (answer, some d')

abbrev pub subtract : Option ℤ → String → ℤ → Dict Item → Answer ℤ × Dict Item
subtract none id amount d = (Answer.item_not_found, d)
subtract (some free) id amount d =
    if ltb_ℤ free amount
    then (Answer.below_zero, d)
    else (Answer.ok (free -ℤ amount), hincrby id (pos 0 -ℤ amount) d)

-- remove_stock
unfoldable pub remove_stock : String → ℤ → Option (Dict Item) → Answer ℤ × Option (Dict Item)
remove_stock id amount none = (Answer.db_error, none)
remove_stock id amount (some d) =
    let (answer, d') = subtract (available id d) id amount d in (answer, some d')

-- what batch_init_users sets for the item `i`
unfoldable pub batch_item : ℤ → ℤ → ℕ → Dict Item → Dict Item
batch_item starting_stock price i d =
    insert (str_nat i)
      (record {
        available_stock = some starting_stock;
        reserved_stock = some (pos 0);
        price = some price;
      })
      d

-- batch_init_users
unfoldable pub batch_init_users : (ℕ → Executed) → ℕ → ℕ → ℤ → ℤ → Dict Item → Bool × Dict Item
batch_init_users pipe n size starting_stock price d =
    batch_init (batch_item starting_stock price) pipe n (chunk_size size) d
