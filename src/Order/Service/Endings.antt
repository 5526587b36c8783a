-- ===== src/Order/Service/Endings.antt =====
-- The end of a checkout keeps the invariant.
use dds.Base.{
  ℕ, ◌+◌, ◌≤◌, String, ◌==◌, ◌≡◌, refl, true, false, Option, none, some, List, All, arith,
  Bool-cases, Option-cases, inl, inr, if◌then◌else◌,
}
use dds.Base.Dict.{lookup, insert, lookup-insert, lookup-erase}
use dds.Orchestrator.Executor.{Outcome, success, failure}
use dds.Order.Store.{Claim, Db, set_claim, drop_claim, mark_paid}
use dds.Order.Checkout.{finish_release, finish_refuse, persist}
use dds.Order.Service.{Work, Task, Service, find_task, drop_task, settle}
use dds.Order.Service.Tasks.{
  one_if, tasks_of, running, Held, none_held, All-drop, tasks-drop, running-drop,
}
use dds.Order.Service.Invariant.{is_paid, times, Inv}

paid_after :
    (o id : String) (db : Db)
    → is_paid o (mark_paid id db) ≡ (if id == o then true else is_paid o db)
unfolding mark_paid
paid_after o id db = elim (Bool-cases (id == o)) [
  | inl same ↦
      rw (lookup-insert, same)
        (elim (Option-cases (lookup id db.orders)) [
          | inl e ↦ rw e refl
          | inr (order, e) ↦ rw e refl
        ])
  | inr apart ↦ rw (lookup-insert, apart) refl
]

module _ (o id saga_id : String) (s : Service) (v : Inv o s) (w : Work)
    (found : find_task id saga_id s.tasks ≡ some w) where
  abbrev left : List Task
  left = drop_task id saga_id s.tasks

  -- what the claims may be after a task of the order has ended
  held_after :
      (c : Option (Claim × ℕ))
      → ((id == o) ≡ false → c ≡ lookup o s.db.claims)
      → All (Held o c s.now) left
  held_after c same = elim (Bool-cases (id == o)) [
    | inl own ↦
        let fewer : tasks_of o left + one_if (id == o) ≡ tasks_of o s.tasks =
          tasks-drop o id saga_id s.tasks found in
        none_held o c s.now left (omega (arith, rw own at fewer, v.one_task))
    | inr apart ↦ rw (same apart) (All-drop _ id saga_id s.tasks v.held)
  ]

  fewer_tasks : tasks_of o left ≤ 1
  fewer_tasks = omega (arith, tasks-drop o id saga_id s.tasks found, v.one_task)

  claims_apart :
      (claim : Claim) (until : ℕ)
      → (id == o) ≡ false
      → lookup o (insert id (claim, until) s.db.claims) ≡ lookup o s.db.claims
  claims_apart claim until apart = rw (lookup-insert, apart) refl

module _ (o id saga_id : String) (s : Service) (v : Inv o s)
    (found : find_task id saga_id s.tasks ≡ some Work.executing) where
  abbrev persisted : Db
  persisted = mark_paid id (set_claim id (Claim.success saga_id) 86400 s.now s.db)

  fewer_running :
      running o (drop_task id saga_id s.tasks) + (if id == o then 1 else 0) ≡ running o s.tasks
  fewer_running = running-drop o id saga_id s.tasks Work.executing found

  paid_persisted : is_paid o persisted ≡ (if id == o then true else is_paid o s.db)
  unfolding set_claim
  paid_persisted = paid_after o id (set_claim id (Claim.success saga_id) 86400 s.now s.db)

  now_paid : running o (drop_task id saga_id s.tasks) + one_if (is_paid o persisted) ≤ 1
  now_paid = rw paid_persisted (elim (Bool-cases (id == o)) [
    | inl own ↦ rw own (omega (arith, rw own at fewer_running, v.unpaid))
    | inr apart ↦ rw apart (omega (arith, rw apart at fewer_running, v.unpaid))
  ])

  now_counted : one_if (id == o) + times o s.charged ≤ one_if (is_paid o persisted)
  now_counted = rw paid_persisted (elim (Bool-cases (id == o)) [
    | inl own ↦ rw own (omega (arith, rw own at fewer_running, v.unpaid, v.counted))
    | inr apart ↦ rw apart (omega (arith, v.counted))
  ])

persist-Inv :
    (o id saga_id : String) (outcome : Outcome) (s : Service)
    → Inv o s
    → find_task id saga_id s.tasks ≡ some Work.executing
    → Inv o (settle (some Work.executing) id saga_id outcome s)
unfolding persist set_claim times mark_paid
persist-Inv o id saga_id success s v found = record {
  one_task = fewer_tasks o id saga_id s v Work.executing found;
  held =
      held_after o id saga_id s v Work.executing found _
        (claims_apart o id saga_id s v Work.executing found _ _);
  unpaid = now_paid o id saga_id s v found;
  counted = now_counted o id saga_id s v found;
}
persist-Inv o id saga_id (failure error) s v found = record {
  one_task = fewer_tasks o id saga_id s v Work.executing found;
  held =
      held_after o id saga_id s v Work.executing found _
        (claims_apart o id saga_id s v Work.executing found _ _);
  unpaid = omega (arith, running-drop o id saga_id s.tasks Work.executing found, v.unpaid);
  counted = v.counted;
}

pub finish-Inv :
    (o id saga_id : String) (outcome : Outcome) (s : Service) (found : Option Work)
    → find_task id saga_id s.tasks ≡ found
    → Inv o s
    → Inv o (settle found id saga_id outcome s)
unfolding finish_release finish_refuse set_claim drop_claim
finish-Inv o id saga_id outcome s none e v = v
finish-Inv o id saga_id outcome s (some Work.executing) e v = persist-Inv o id saga_id outcome s v e
finish-Inv o id saga_id outcome s (some Work.releasing) e v = record {
  one_task = fewer_tasks o id saga_id s v Work.releasing e;
  held = held_after o id saga_id s v Work.releasing e _ (λ apart. rw (lookup-erase, apart) refl);
  unpaid = omega (arith, running-drop o id saga_id s.tasks Work.releasing e, v.unpaid);
  counted = v.counted;
}
finish-Inv o id saga_id outcome s (some Work.refusing) e v = record {
  one_task = fewer_tasks o id saga_id s v Work.refusing e;
  held =
      held_after o id saga_id s v Work.refusing e _
        (claims_apart o id saga_id s v Work.refusing e _ _);
  unpaid = omega (arith, running-drop o id saga_id s.tasks Work.refusing e, v.unpaid);
  counted = v.counted;
}
