-- ===== src/Order/Service/Arrivals.antt =====
-- A request for a checkout keeps the invariant.
use dds.Base.{
  ◌+◌, String, ◌==◌, eq_iff, ◌≡◌, refl, sym, true, false, Option, none, some, All, arith, eq_refl,
  Bool-cases, Option-cases, inl, inr,
}
use mathlib.Core.Path.{subst}
use dds.Base.Dict.{lookup, lookup-insert}
use dds.Order.Store.{
  OrderHash, Claim, claim_of, is_open, set_claim, load_found, load_and_claim, lines_of,
}
use dds.Order.Checkout.{plan, planned, parse_lines, begin}
use dds.Order.Service.{Work, Service, work_of, with_work, arrive}
use dds.Order.Service.Tasks.{
  tasks_of, running-le, Held, none_held, open_is_free, tasks-with_work, running-with_work,
}
use dds.Order.Service.Invariant.{Inv, no_work, unpaid_work}

module _ (o saga_id : String) (s : Service) (v : Inv o s) where
  module _ (order : OrderHash) (e : lookup o s.db.orders ≡ some order) where
    abbrev new_work : Option Work
    new_work =
        work_of
          (plan o true (parse_lines (lines_of o s.db)) order.total_cost order.user_id order.paid)

    abbrev claimed : Service
    claimed = record s {
      db = set_claim o (Claim.processing saga_id) 300 s.now s.db;
      tasks = with_work new_work o saga_id (s.now + 300) s.tasks;
    }

    held_with :
        (w : Option Work)
        → tasks_of o s.tasks ≡ 0
        → All
            (Held o (some (Claim.processing saga_id, s.now + 300)) s.now)
            (with_work w o saga_id (s.now + 300) s.tasks)
    held_with none free = none_held o _ s.now s.tasks free
    held_with (some w) free = (rw (eq_refl o) (refl, omega arith), none_held o _ s.now s.tasks free)

    claimed-Inv : is_open (claim_of o s.now s.db) ≡ true → Inv o claimed
    unfolding claim_of set_claim
    claimed-Inv free =
        let none_there = open_is_free o _ s.now s.tasks v.held free in
        let no_runner = running-le o s.tasks in
        let fresh =
          unpaid_work o (parse_lines (lines_of o s.db)) order.total_cost order.user_id order.paid in
        record {
          one_task =
              rw (tasks-with_work o o saga_id new_work (s.now + 300) s.tasks, eq_refl)
                (ground (arith, none_there, new_work));
          held = rw (lookup-insert, eq_refl) (held_with new_work none_there);
          unpaid =
              rw (running-with_work o o saga_id new_work (s.now + 300) s.tasks, eq_refl, e)
                (omega (arith, none_there, no_runner, fresh));
          counted = v.counted;
        }

  -- a request for the order itself
  arrive_here : Inv o (arrive o saga_id s)
  unfolding arrive begin load_and_claim
  arrive_here = elim (Option-cases (lookup o s.db.orders)) [
    | inl e ↦ rw (e, load_found, planned, work_of, with_work) v
    | inr (order, e) ↦ elim (Bool-cases (is_open (claim_of o s.now s.db))) [
      | inl free ↦ rw (e, load_found, free) (claimed-Inv order e free)
      | inr taken ↦ rw (e, load_found, taken, planned, no_work) v
    ]
  ]

  -- a request for another order
  module _ (id : String) (apart : (id == o) ≡ false) where
    held_apart :
        (w : Option Work)
        → All (Held o (lookup o s.db.claims) s.now) (with_work w id saga_id (s.now + 300) s.tasks)
    held_apart none = v.held
    held_apart (some w) = (rw apart tt, v.held)

    arrive_apart : Inv o (arrive id saga_id s)
    unfolding arrive begin load_and_claim set_claim
    arrive_apart = elim (Option-cases (lookup id s.db.orders)) [
      | inl e ↦ rw (e, load_found, planned, work_of, with_work) v
      | inr (order, e) ↦ elim (Bool-cases (is_open (claim_of id s.now s.db))) [
        | inl free ↦
            rw (e, load_found, free)
              (record {
                one_task = rw (tasks-with_work o id saga_id, apart) (omega (arith, v.one_task));
                held = rw (lookup-insert, apart) (held_apart _);
                unpaid = rw (running-with_work o id saga_id, apart) (omega (arith, v.unpaid));
                counted = v.counted;
              })
        | inr taken ↦ rw (e, load_found, taken, planned, no_work) v
      ]
    ]

pub arrive-Inv : (o id saga_id : String) (s : Service) → Inv o s → Inv o (arrive id saga_id s)
arrive-Inv o id saga_id s v = elim (Bool-cases (id == o)) [
  | inl same ↦
      subst (λ k. Inv o (arrive k saga_id s)) (sym ((eq_iff id o).0 same))
        (arrive_here o saga_id s v)
  | inr apart ↦ arrive_apart o saga_id s v id apart
]
