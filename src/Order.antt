-- ===== src/Order.antt =====
-- order/app.py: the checkout transaction, its payload builders, and the context of a checkout.
pub mod Items
pub mod Store
pub mod Checkout
pub mod Endpoints
pub mod Service
pub mod Leadership
pub mod Monitoring
use dds.Base.{
  zero, String, ◌==◌, Bool, true, false, if◌then◌else◌, Option, none, some, List, [], ◌∷◌,
}
use dds.Base.Int.{ℤ, pos, ◌+ℤ◌}
use dds.Base.Dict.{Dict, lookup, insert}
use dds.Orchestrator.Value.{Context, Value, get_text}
use dds.Orchestrator.Definition.{Step, TransactionDefinition}

abbrev or_else : Value → Option Value → Value
or_else d none = d
or_else d (some v) = v

-- whether Python takes the value for true
abbrev is_truthy : Value → Bool
is_truthy (Value.text s) = if s == "" then false else true
is_truthy (Value.number (pos zero)) = false
is_truthy (Value.names []) = false
is_truthy (Value.items []) = false
is_truthy _ = true

-- if items: cmd["items"] = json.dumps(items)
abbrev add_items : Option Value → Context → Context
add_items none d = d
add_items (some v) d = if is_truthy v then ("items", v) ∷ d else d

-- stock_payload: a number stands for its decimal text
unfoldable pub stock_payload : String → String → Context → Context
stock_payload id action context =
    add_items (lookup "items" context)
      (("ttl", or_else (Value.number (pos 300)) (lookup "_reservation_ttl" context)) ∷ [])

-- payment_payload
unfoldable pub payment_payload : String → String → Context → Context
payment_payload id action context =
    ("user_id", or_else (Value.text "") (lookup "user_id" context))
    ∷ ("amount", or_else (Value.number (pos 0)) (lookup "total_cost" context))
    ∷ ("ttl", or_else (Value.number (pos 300)) (lookup "_reservation_ttl" context))
    ∷ []

-- checkout_tx
abbrev pub checkout_tx : TransactionDefinition
checkout_tx = record {
  name = "checkout";
  steps =
      record { name = "reserve_stock"; service = "stock"; payload_builder = some stock_payload }
      ∷ record {
        name = "reserve_payment";
        service = "payment";
        payload_builder = some payment_payload;
      }
      ∷ [];
}

abbrev pub quantity_of : Option ℤ → ℤ
quantity_of none = pos 0
quantity_of (some q) = q

-- the loop over a defaultdict: items_quantities[item_id] += quantity
unfoldable pub add_quantities : List (String × ℤ) → Dict ℤ → Dict ℤ
add_quantities [] d = d
add_quantities ((id, quantity) ∷ rest) d =
    add_quantities rest (insert id (quantity_of (lookup id d) +ℤ quantity) d)

-- aggregated_items
unfoldable pub aggregated_items : List (String × ℤ) → List (String × ℤ)
aggregated_items items = add_quantities items []

-- the context of a checkout
unfoldable pub checkout_context : String → String → List (String × ℤ) → ℤ → Context
checkout_context order_id user_id items total_cost =
    ("order_id", Value.text order_id)
    ∷ ("user_id", Value.text user_id)
    ∷ ("items", Value.items (aggregated_items items))
    ∷ ("total_cost", Value.number total_cost)
    ∷ []
