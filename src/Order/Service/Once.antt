-- ===== src/Order/Service/Once.antt =====
-- How often an order is charged when its checkouts interleave.
use dds.Base.{
  ℕ, ◌+◌, ◌≤◌, ◌<◌, String, ◌==◌, eq_iff, ◌≡◌, refl, sym, ap, ◌∙◌, Option, none, some, List, [],
  ◌∷◌, All, arith, Bool-cases, inl, inr,
}
use dds.Base.Int.{ℤ}
use dds.Base.Dict.{lookup, insert, lookup-insert}
use dds.Order.Store.{OrderHash, Claim, Db, add_item_script, add_to_order}
use dds.Order.Endpoints.{new_order}
use dds.Order.Service.{
  Task, Service, find_task, finish, or_else, add_line, create, Step, arrives, finishes, adds,
  creates, passes, Reach, here, next, idle,
}
use dds.Order.Service.Tasks.{one_if, tasks_of, running, HeldBy, Held}
use dds.Order.Service.Invariant.{paid_in, is_paid, times, Inv}
use dds.Order.Service.Arrivals.{arrive-Inv}
use dds.Order.Service.Endings.{finish-Inv}

paid-add :
    (o id line : String) (cost : ℤ) (db : Db) (found : Option OrderHash)
    → lookup id db.orders ≡ found
    → is_paid o (or_else db (add_to_order found id line cost db)) ≡ is_paid o db
paid-add o id line cost db none e = refl
paid-add o id line cost db (some order) e = elim (Bool-cases (id == o)) [
  | inl same ↦
      let here : lookup o db.orders ≡ some order =
        ap (λ k. lookup k db.orders) (sym ((eq_iff id o).0 same)) ∙ e in
      rw (lookup-insert, same, here) refl
  | inr apart ↦ rw (lookup-insert, apart) refl
]

claims-add :
    (id line : String) (cost : ℤ) (db : Db) (found : Option OrderHash)
    → (or_else db (add_to_order found id line cost db)).claims ≡ db.claims
claims-add id line cost db none = refl
claims-add id line cost db (some order) = refl

paid-create :
    (o id user : String) (db : Db)
    → lookup id db.orders ≡ none
    → paid_in (lookup o (insert id (new_order user) db.orders)) ≡ is_paid o db
paid-create o id user db fresh = elim (Bool-cases (id == o)) [
  | inl same ↦
      let nothing : lookup o db.orders ≡ none =
        ap (λ k. lookup k db.orders) (sym ((eq_iff id o).0 same)) ∙ fresh in
      rw (lookup-insert, same, nothing) refl
  | inr apart ↦ rw (lookup-insert, apart) refl
]

later_held :
    (o : String) (c : Option (Claim × ℕ)) (now later : ℕ) (ts : List Task)
    → All (λ (t : Task). later < t.until) ts
    → All (Held o c now) ts
    → All (Held o c later) ts
later_held o c now later [] timely h = tt
later_held o c now later (t ∷ ts) timely h = elim (Bool-cases (t.order == o)) [
  | inl own ↦
      let mine : HeldBy c now t = rw own at h.0 in
      (rw own (mine.0, timely.0), later_held o c now later ts timely.1 h.1)
  | inr elsewhere ↦ (rw elsewhere tt, later_held o c now later ts timely.1 h.1)
]

-- Every step of the service keeps the invariant.
Step-Inv : (o : String) {s t : Service} → Step s t → Inv o s → Inv o t
unfolding finish add_line add_item_script create
Step-Inv o (arrives id saga_id s) v = arrive-Inv o id saga_id s v
Step-Inv o (finishes id saga_id outcome s) v =
    finish-Inv o id saga_id outcome s (find_task id saga_id s.tasks) refl v
Step-Inv o (adds id line cost s) v = record {
  one_task = v.one_task;
  held = rw (claims-add id line cost s.db (lookup id s.db.orders)) v.held;
  unpaid = rw (paid-add o id line cost s.db (lookup id s.db.orders) refl) v.unpaid;
  counted = rw (paid-add o id line cost s.db (lookup id s.db.orders) refl) v.counted;
}
Step-Inv o (creates id user s fresh) v = record {
  one_task = v.one_task;
  held = v.held;
  unpaid = rw (paid-create o id user s.db fresh) v.unpaid;
  counted = rw (paid-create o id user s.db fresh) v.counted;
}
Step-Inv o (passes t s timely) v = record {
  one_task = v.one_task;
  held = later_held o _ s.now (s.now + t) s.tasks timely v.held;
  unpaid = v.unpaid;
  counted = v.counted;
}

Reach-Inv : (o : String) {s t : Service} → Inv o s → Reach s t → Inv o t
Reach-Inv o v here = v
Reach-Inv o v (next r st) = Step-Inv o st (Reach-Inv o v r)

idle-Inv : (o : String) (now : ℕ) (db : Db) → Inv o (idle now db)
unfolding tasks_of running times
idle-Inv o now db = record {
  one_task = omega arith;
  held = tt;
  unpaid = ground (arith, is_paid o db);
  counted = omega arith;
}

-- From a service with no checkout under way, as long as no checkout outlives its claim and no instance
-- dies: an order has at most one checkout that acts under its claim, a paid order has none that executes a saga,
-- and an order is charged at most once, and only if it is paid in the end.
pub charged_once :
    (o : String) (now : ℕ) (db : Db) {s : Service}
    → Reach (idle now db) s
    → (tasks_of o s.tasks ≤ 1)
      × (running o s.tasks + one_if (is_paid o s.db) ≤ 1)
      × (times o s.charged ≤ one_if (is_paid o s.db))
charged_once o now db r =
    let v = Reach-Inv o (idle-Inv o now db) r in (v.one_task, v.unpaid, v.counted)
