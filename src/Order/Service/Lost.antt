-- ===== src/Order/Service/Lost.antt =====
-- What becomes of an order when the instance that checks it out dies.
use dds.Base.{
  ℕ, ◌+◌, String, ◌≡◌, refl, ap, ◌∙◌, false, true, none, some, List, ◌∷◌, arith, ltb, leb, eq_refl,
  Bool-cases, inl, inr, if◌then◌else◌,
}
use dds.Base.Int.{ℤ}
use dds.Base.Dict.{lookup, lookup_same}
use dds.Order.Store.{
  OrderHash, Claim, load_found, load_and_claim, lines_of, claim_of, is_open, set_claim,
}
use dds.Order.Checkout.{parse_lines, begin}
use dds.Order.Service.{Work, Service, arrive, crash, find_task, drop_task}
use dds.Order.Service.Invariant.{is_paid}

module _ (o first : String) (t : ℕ) (s : Service) where
  -- The checkout `first` has arrived, its instance has died, and time has passed.
  abbrev pub left_alone : Service
  left_alone =
      let crashed = crash o first (arrive o first s) in record crashed { now = crashed.now + t }

  module _ (user : String) (cost : ℤ) (line : String × ℤ) (lines : List (String × ℤ)) where
    abbrev pub unpaid_order : OrderHash
    unpaid_order = record { user_id = some user; paid = some "false"; total_cost = some cost }

    module _ (found : lookup o s.db.orders ≡ some unpaid_order)
        (holds : parse_lines (lines_of o s.db) ≡ some (line ∷ lines))
        (free : is_open (claim_of o s.now s.db) ≡ true) where
      first_runs : find_task o first (arrive o first s).tasks ≡ some Work.executing
      unfolding arrive begin load_and_claim find_task
      first_runs = rw (found, load_found, free, holds, eq_refl o, eq_refl first) refl

      -- nothing is left of the first checkout but its claim
      abbrev claimed : Service
      claimed = record s {
        now = s.now + t;
        db = set_claim o (Claim.processing first) 300 s.now s.db;
      }

      left_is : left_alone ≡ claimed
      unfolding arrive begin load_and_claim crash drop_task
      left_is = rw (found, load_found, free, holds, eq_refl o, eq_refl first) refl

      second_waits :
          (second : String)
          → find_task o second s.tasks ≡ none
          → find_task o second (arrive o second claimed).tasks
            ≡ (if leb 300 t then some Work.executing else none)
      unfolding arrive begin load_and_claim claim_of set_claim find_task lines_of
      second_waits second new =
          let own = lookup_same o (Claim.processing first, s.now + 300) s.db.claims in
          elim (Bool-cases (leb 300 t)) [
            | inl late ↦
                let expired : ltb (s.now + t) (s.now + 300) ≡ false = ground (arith, late) in
                rw (found, load_found, own, expired, late, holds, eq_refl o, eq_refl second) refl
            | inr early ↦
                let live : ltb (s.now + t) (s.now + 300) ≡ true = ground (arith, early) in
                rw (found, load_found, own, live, early, holds) new
          ]

    -- The first checkout of an unpaid order with items, whose claim is free, executes its saga. When its
    -- instance dies at it, the order is still unpaid, and the claim keeps the next request, under whatever saga
    -- id with no task of the order, from executing a saga for 300 seconds and no longer: from then on that
    -- request executes the order again.
    pub lost_checkout_runs_again :
        (second : String)
        → lookup o s.db.orders ≡ some unpaid_order
        → parse_lines (lines_of o s.db) ≡ some (line ∷ lines)
        → is_open (claim_of o s.now s.db) ≡ true
        → find_task o second s.tasks ≡ none
        → (find_task o first (arrive o first s).tasks ≡ some Work.executing)
          × (is_paid o left_alone.db ≡ false)
          × (find_task o second (arrive o second left_alone).tasks
              ≡ (if leb 300 t then some Work.executing else none))
    unfolding set_claim
    lost_checkout_runs_again second found holds free new =
        let left = left_is found holds free in
        (
          first_runs found holds free,
          ap (λ (u : Service). is_paid o u.db) left ∙ rw found refl,
          ap (λ u. find_task o second (arrive o second u).tasks) left
              ∙ second_waits found holds free second new,
        )
