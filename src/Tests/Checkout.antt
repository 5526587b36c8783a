-- ===== src/Tests/Checkout.antt =====
-- The items of a checkout at concrete inputs.
use dds.Base.{String, ◌≡◌, refl, some, List, [], ◌∷◌}
use dds.Base.Int.{ℤ, pos, ◌+ℤ◌}
use dds.Base.Dict.{lookup, insert}
use dds.Stock.Levels.{demand}
use dds.Stock.Stored.{Fresh}
use dds.Orchestrator.Value.{Value}
use dds.Order.{aggregated_items, add_quantities, stock_payload, payment_payload, checkout_context}
use dds.Order.Items.{aggregation_is_exact}

abbrev lines : List (String × ℤ)
lines = ("bolt", pos 2) ∷ ("nut", pos 1) ∷ ("bolt", pos 3) ∷ []

aggregated : aggregated_items lines ≡ ("bolt", pos 5) ∷ ("nut", pos 1) ∷ []
unfolding aggregated_items add_quantities lookup insert ◌+ℤ◌
aggregated = refl

payloads :
    let context = checkout_context "order-7" "ann" lines (pos 16) in
    (lookup "items" (stock_payload "saga-1" "prepare" context)
      ≡ some (Value.items (("bolt", pos 5) ∷ ("nut", pos 1) ∷ [])))
    × (lookup "amount" (payment_payload "saga-1" "prepare" context) ≡ some (Value.number (pos 16)))
unfolding checkout_context stock_payload payment_payload aggregated_items add_quantities lookup
    insert ◌+ℤ◌
payloads = (refl, refl)

aggregation_is_exact_example :
    Fresh [] (aggregated_items lines)
    × (demand "bolt" (aggregated_items lines) ≡ demand "bolt" lines)
aggregation_is_exact_example = aggregation_is_exact lines "bolt"
