-- ===== src/Stock/Items/Answers.antt =====
-- What the stock endpoints answer, against each other.
use dds.Base.{String, ◌≡◌, refl, ◌∙◌, none, some, arith, Bool-cases, inl, inr, if◌then◌else◌}
use dds.Base.Int.{ℤ, pos, ◌+ℤ◌, ◌-ℤ◌, ◌≤ℤ◌, ltb_ℤ, +ℤ_parts, -ℤ_parts, eq_of_parts}
use dds.Base.Dict.{Dict, lookup, lookup_same}
use dds.Stock.{Item, hincrby, available, counted}
use dds.Stock.Items.{Answer, find_item, add_stock, remove_stock}

-- A complete item: all three fields are there.
abbrev pub item_of : ℤ → ℤ → ℤ → Item
item_of free held price = record {
  available_stock = some free;
  reserved_stock = some held;
  price = some price;
}

module _ (id : String) (free held price amount : ℤ) (d : Dict Item)
    (e : lookup id d ≡ some (item_of free held price)) where
  found : (n : ℤ) → lookup id (hincrby id n d) ≡ some (item_of (free +ℤ n) held price)
  unfolding hincrby
  found n = lookup_same id (counted n (lookup id d)) d ∙ rw e refl

  -- Adding to an item that is complete answers its new level, and a later find reports what was added.
  pub add_then_find :
      let (answer, d') = add_stock id amount (some d) in
      (answer ≡ Answer.ok (free +ℤ amount))
      × (find_item id d' none ≡ Answer.ok ((free +ℤ amount) +ℤ held, price))
  unfolding add_stock find_item
  add_then_find = rw e (refl, rw (found amount) refl)

  minus : free +ℤ (pos 0 -ℤ amount) ≡ free -ℤ amount
  minus = eq_of_parts _ _ (
      omega (arith, -ℤ_parts (pos 0) amount, -ℤ_parts free amount, +ℤ_parts free (pos 0 -ℤ amount)))

  -- Removing from an item that is complete either answers that there is less than is asked for, and changes
  -- nothing, or leaves a level that is not below zero, which the answer and a later find report.
  pub remove_then_find :
      let (answer, d') = remove_stock id amount (some d) in
      if ltb_ℤ free amount
      then ((answer ≡ Answer.below_zero) × (d' ≡ some d))
      else ((answer ≡ Answer.ok (free -ℤ amount))
          × (pos 0 ≤ℤ free -ℤ amount)
          × (find_item id d' none ≡ Answer.ok ((free -ℤ amount) +ℤ held, price)))
  unfolding remove_stock find_item available
  remove_then_find = elim (Bool-cases (ltb_ℤ free amount)) [
    | inl short ↦ rw (e, short) (refl, refl)
    | inr fits ↦
        rw (e, fits)
          (refl, ground (arith, -ℤ_parts free amount), rw (found (pos 0 -ℤ amount), minus) refl)
  ]
