-- ===== src/Order/Endpoints/Added.antt =====
-- An order holds what was added to it.
use dds.Base.{
  ℕ, ◌<◌, String, ◌≡◌, refl, sym, ap, ◌∙◌, true, Option, none, some, List, [], ◌∷◌, ◌++◌, map, All,
  arith,
}
use mathlib.Core.List.{append-nil, append_assoc}
use dds.Base.Int.{ℤ, pos, ltb_ℤ, ◌+ℤ◌, ◌*ℤ◌}
use dds.Base.Dict.{lookup, insert, lookup_same}
use dds.Base.Split.{Lacks, split_once, split_once-append}
use dds.Base.Decimal.{str, str_nat, int, int-str_nat}
use dds.Order.Store.{OrderHash, Db, lines_of, add_item_script, add_to_order}
use dds.Order.Checkout.{parse_lines, add_line}
use dds.Order.Endpoints.{Answer, Price, line, add_item, create_order, new_order, load_order}

-- An item, how many of it are added, and its price.
abbrev pub Addition : Type 0
Addition = String × ℕ × ℤ

-- The item's name has no colon, and some of it are added.
abbrev pub IsAddition : Addition → Type 0
IsAddition (item, quantity, price) = Lacks ":" item × (0 < quantity)

abbrev pub pair_of : Addition → String × ℤ
pair_of (item, quantity, price) = (item, pos quantity)

-- calls of add_item, one after another
unfoldable pub add_all : String → List Addition → Option Db → Option Db
add_all id [] db = db
add_all id ((item, quantity, price) ∷ rest) db =
    add_all id rest (add_item id item (pos quantity) (Price.found_at price) db).1

-- the cost to which a cost grows
unfoldable pub grown : ℤ → List Addition → ℤ
grown cost [] = cost
grown cost ((item, quantity, price) ∷ rest) = grown (cost +ℤ pos quantity *ℤ price) rest

abbrev both : Option (List (String × ℤ)) → Option (List (String × ℤ)) → Option (List (String × ℤ))
both none ys = none
both (some xs) none = none
both (some xs) (some ys) = some (xs ++ ys)

both-add :
    (part : Option (String × String)) (xs ys : Option (List (String × ℤ)))
    → add_line part (both xs ys) ≡ both (add_line part xs) ys
both-add none xs ys = refl
both-add (some (id, text)) none ys = ground (arith, int text)
both-add (some (id, text)) (some xs) none = ground (arith, int text)
both-add (some (id, text)) (some xs) (some ys) = ground (arith, int text)

both-nil : (ys : Option (List (String × ℤ))) → both (some []) ys ≡ ys
both-nil none = refl
both-nil (some ys) = refl

parse-append :
    (xs ys : List String) → parse_lines (xs ++ ys) ≡ both (parse_lines xs) (parse_lines ys)
unfolding parse_lines
parse-append [] ys = sym (both-nil (parse_lines ys))
parse-append (raw ∷ xs) ys =
    ap (add_line (split_once ":" raw)) (parse-append xs ys)
    ∙ both-add (split_once ":" raw) (parse_lines xs) (parse_lines ys)

parse-line :
    (item : String) (quantity : ℕ)
    → Lacks ":" item
    → parse_lines (line item (pos quantity) ∷ []) ≡ some ((item, pos quantity) ∷ [])
unfolding str parse_lines
parse-line item quantity h =
    rw (split_once-append ":" item (str_nat quantity) h, int-str_nat quantity) refl

-- What an order holds: the hash with its cost, and the lines with their items.
abbrev Holds : String → OrderHash → ℤ → List (String × ℤ) → Db → Type 0
Holds id order cost items db =
    (lookup id db.orders ≡ some (record order { total_cost = some cost }))
    × (parse_lines (lines_of id db) ≡ some items)

module _ (id : String) (order : OrderHash) where
  abbrev appended : String → ℕ → ℤ → ℤ → Db → Db
  appended item quantity price cost db = record db {
    items = insert id (lines_of id db ++ line item (pos quantity) ∷ []) db.items;
    orders =
        insert id (record order { total_cost = some (cost +ℤ pos quantity *ℤ price) }) db.orders;
  }

  script_adds :
      (raw : String) (cost more : ℤ) (db : Db)
      → lookup id db.orders ≡ some (record order { total_cost = some cost })
      → add_item_script id raw more db
        ≡ some (record db {
          items = insert id (lines_of id db ++ raw ∷ []) db.items;
          orders = insert id (record order { total_cost = some (cost +ℤ more) }) db.orders;
        })
  unfolding add_item_script
  script_adds raw cost more db e = rw (e, add_to_order) refl

  one_added :
      (item : String) (quantity : ℕ) (price cost : ℤ) (items : List (String × ℤ)) (db : Db)
      → 0 < quantity
      → Holds id order cost items db
      → (add_item id item (pos quantity) (Price.found_at price) (some db)).1
        ≡ some (appended item quantity price cost db)
  unfolding add_item
  one_added item quantity price cost items db positive h =
      let asked : ltb_ℤ (pos 0) (pos quantity) ≡ true = ground (arith, positive) in
      rw (asked, script_adds (line item (pos quantity)) cost (pos quantity *ℤ price) db h.0) refl

  appended-Holds :
      (item : String) (quantity : ℕ) (price cost : ℤ) (items : List (String × ℤ)) (db : Db)
      → Lacks ":" item
      → Holds id order cost items db
      → Holds id order
          (cost +ℤ pos quantity *ℤ price)
          (items ++ (item, pos quantity) ∷ [])
          (appended item quantity price cost db)
  unfolding lines_of
  appended-Holds item quantity price cost items db ok h = (
    lookup_same id _ db.orders,
    rw (lookup_same id (lines_of id db ++ line item (pos quantity) ∷ []) db.items) (
        parse-append (lines_of id db) _
        ∙ rw (h.1) (ap (both (some items)) (parse-line item quantity ok))),
  )

  all_added :
      (adds : List Addition) (cost : ℤ) (items : List (String × ℤ)) (db : Db)
      → All IsAddition adds
      → Holds id order cost items db
      → (db' : Db) × (add_all id adds (some db) ≡ some db')
        × Holds id order (grown cost adds) (items ++ map pair_of adds) db'
  unfolding add_all grown
  all_added [] cost items db ok h = (db, refl, rw (append-nil items) h)
  all_added ((item, quantity, price) ∷ rest) cost items db ok h =
      let db' = appended item quantity price cost db in
      let (end, ran, holds) =
        all_added rest (cost +ℤ pos quantity *ℤ price) (items ++ (item, pos quantity) ∷ []) db' ok.1
          (appended-Holds item quantity price cost items db ok.0.0 h) in
      (
        end,
        rw (one_added item quantity price cost items db ok.0.1 h) ran,
        (
          holds.0,
          holds.1 ∙ ap some (append_assoc items ((item, pos quantity) ∷ []) (map pair_of rest)),
        ),
      )

-- A new order to which items are added, whose names have no colon, one or more of each, holds those items
-- with their quantities in the order in which they were added, and its cost is what all of them cost.
pub order_holds_what_was_added :
    (id user : String) (adds : List Addition) (db : Db)
    → lookup id db.items ≡ none
    → All IsAddition adds
    → load_order id (add_all id adds (create_order id user (some db)).1)
      ≡ Answer.ok
          (record (new_order user) { total_cost = some (grown (pos 0) adds) }, map pair_of adds)
unfolding create_order load_order
order_holds_what_was_added id user adds db fresh ok =
    let created = record db { orders = insert id (new_order user) db.orders } in
    let (end, ran, holds) =
      all_added id (new_order user) adds (pos 0) [] created ok
        (lookup_same id (new_order user) db.orders, unfold lines_of parse_lines in rw fresh refl) in
    rw (ran, holds.0, holds.1) refl
