-- ===== src/Order/Service.antt =====
-- order/app.py, at work: checkouts of several instances at once, between items that are added and time that
-- passes. Each step is what one request does between two awaits, on the one database.
pub mod Tasks
pub mod Invariant
pub mod Arrivals
pub mod Endings
pub mod Once
pub mod Lost
use dds.Base.{
  ℕ, ◌+◌, ◌<◌, String, ◌==◌, ◌≡◌, Bool, true, false, ◌&&◌, Option, none, some, List, [], ◌∷◌, All,
  if◌then◌else◌,
}
use dds.Base.Int.{ℤ, pos}
use dds.Base.Dict.{lookup, insert}
use dds.Orchestrator.Executor.{Outcome, success, failure}
use dds.Order.Store.{Db, OrderHash, add_item_script}
use dds.Order.Endpoints.{new_order}
use dds.Order.Checkout.{Next, begin, finish_release, finish_refuse, persist}

-- What a checkout that has acquired the claim still has to do.
pub data Work : Type 0 where
  executing releasing refusing : Work

-- `until` is the time at which the claim of the checkout expires.
pub record Task : Type 0 where
  pub order : String
  pub saga_id : String
  pub work : Work
  pub until : ℕ

-- `charged` is for the proofs: the orders whose sagas were executed with success and persisted.
pub record Service : Type 0 where
  pub now : ℕ
  pub db : Db
  pub tasks : List Task
  pub charged : List String

abbrev pub work_of : Next → Option Work
work_of (Next.run context) = some Work.executing
work_of Next.release = some Work.releasing
work_of Next.refuse = some Work.refusing
work_of _ = none

abbrev pub with_work : Option Work → String → String → ℕ → List Task → List Task
with_work none id saga_id until tasks = tasks
with_work (some work) id saga_id until tasks =
    record { order = id; saga_id = saga_id; work = work; until = until } ∷ tasks

-- a request for a checkout arrives
unfoldable pub arrive : String → String → Service → Service
arrive id saga_id s =
    let (next, db) = begin id saga_id s.now s.db in
    record s { db = db; tasks = with_work (work_of next) id saga_id (s.now + 300) s.tasks }

abbrev is_task : String → String → Task → Bool
is_task id saga_id t = t.order == id && t.saga_id == saga_id

unfoldable pub find_task : String → String → List Task → Option Work
find_task id saga_id [] = none
find_task id saga_id (t ∷ ts) =
    let later = find_task id saga_id ts in if is_task id saga_id t then some t.work else later

unfoldable pub drop_task : String → String → List Task → List Task
drop_task id saga_id [] = []
drop_task id saga_id (t ∷ ts) =
    let later = drop_task id saga_id ts in if is_task id saga_id t then ts else t ∷ later

abbrev pub charge : Outcome → String → List String → List String
charge success id ids = id ∷ ids
charge (failure error) id ids = ids

abbrev pub settle : Option Work → String → String → Outcome → Service → Service
settle none id saga_id outcome s = s
settle (some Work.executing) id saga_id outcome s = record s {
  db = (persist id saga_id outcome s.now s.db).1;
  tasks = drop_task id saga_id s.tasks;
  charged = charge outcome id s.charged;
}
settle (some Work.releasing) id saga_id outcome s = record s {
  db = (finish_release id s.db).1;
  tasks = drop_task id saga_id s.tasks;
}
settle (some Work.refusing) id saga_id outcome s = record s {
  db = (finish_refuse id s.now s.db).1;
  tasks = drop_task id saga_id s.tasks;
}

-- a checkout does what it has left, where the outcome is that of its saga
unfoldable pub finish : String → String → Outcome → Service → Service
finish id saga_id outcome s = settle (find_task id saga_id s.tasks) id saga_id outcome s

-- the instance of a checkout dies
unfoldable pub crash : String → String → Service → Service
crash id saga_id s = record s { tasks = drop_task id saga_id s.tasks }

abbrev pub or_else : Db → Option Db → Db
or_else db none = db
or_else db (some db') = db'

-- an item is added, if the order is there
unfoldable pub add_line : String → String → ℤ → Service → Service
add_line id line cost s = record s { db = or_else s.db (add_item_script id line cost s.db) }

-- create_order
unfoldable pub create : String → String → Service → Service
create id user s = record s {
  db = record (s.db) { orders = insert id (new_order user) s.db.orders };
}

-- A step of the service, where no checkout outlives its claim and no instance dies. A new order has a key
-- that is not in use.
pub data Step : Service → Service → Type 0 where
  arrives : (id saga_id : String) (s : Service) → Step s (arrive id saga_id s)
  finishes :
      (id saga_id : String) (outcome : Outcome) (s : Service) → Step s (finish id saga_id outcome s)
  adds : (id line : String) (cost : ℤ) (s : Service) → Step s (add_line id line cost s)
  creates :
      (id user : String) (s : Service) → lookup id s.db.orders ≡ none → Step s (create id user s)
  passes :
      (t : ℕ) (s : Service)
      → All (λ (task : Task). s.now + t < task.until) s.tasks
      → Step s (record s { now = s.now + t })

pub data Reach (s : Service) : Service → Type 0 where
  here : Reach s s
  next : {t u : Service} → Reach s t → Step t u → Reach s u

-- no checkout is under way, and none was persisted
abbrev pub idle : ℕ → Db → Service
idle now db = record { now = now; db = db; tasks = []; charged = [] }
