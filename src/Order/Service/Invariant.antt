-- ===== src/Order/Service/Invariant.antt =====
-- The invariant of one order under the checkouts, and what a checkout plans after its claim.
use dds.Base.{
  ℕ, ◌+◌, ◌≤◌, String, ◌==◌, ◌≡◌, refl, Bool, true, false, Option, none, some, List, [], ◌∷◌, All,
  arith,
}
use dds.Base.Int.{ℤ}
use dds.Base.Dict.{lookup}
use dds.Order.Store.{OrderHash, Db}
use dds.Order.Checkout.{plan}
use dds.Order.Service.{Service, work_of}
use dds.Order.Service.Tasks.{one_if, tasks_of, is_executing, running, Held}

abbrev pub flag_of : Option String → Bool
flag_of none = false
flag_of (some text) = text == "true"

abbrev pub paid_in : Option OrderHash → Bool
paid_in none = false
paid_in (some order) = flag_of order.paid

-- whether the order is paid
abbrev pub is_paid : String → Db → Bool
is_paid o db = paid_in (lookup o db.orders)

-- how often an order stands in the list
unfoldable pub times : String → List String → ℕ
times o [] = 0
times o (id ∷ ids) = one_if (id == o) + times o ids

pub record Inv (o : String) (s : Service) : Type 0 where
  pub one_task : tasks_of o s.tasks ≤ 1
  pub held : All (Held o (lookup o s.db.claims) s.now) s.tasks
  pub unpaid : running o s.tasks + one_if (is_paid o s.db) ≤ 1
  pub counted : times o s.charged ≤ one_if (is_paid o s.db)

-- A plan with no claim has no work.
pub no_work :
    (id : String) (lines : Option (List (String × ℤ))) (cost : Option ℤ) (user paid : Option String)
    → work_of (plan id false lines cost user paid) ≡ none
no_work id none cost user paid = refl
no_work id (some lines) none user paid = refl
no_work id (some lines) (some cost) none paid = refl
no_work id (some lines) (some cost) (some user) none = refl
no_work id (some []) (some cost) (some user) (some paid) = ground (arith, paid == "true")
no_work id (some (l ∷ ls)) (some cost) (some user) (some paid) = ground (arith, paid == "true")

-- Only an order that is not paid is executed.
pub unpaid_work :
    (id : String) (lines : Option (List (String × ℤ))) (cost : Option ℤ) (user paid : Option String)
    → is_executing (work_of (plan id true lines cost user paid)) + one_if (flag_of paid) ≤ 1
unpaid_work id none cost user paid = ground arith
unpaid_work id (some lines) none user paid = ground arith
unpaid_work id (some lines) (some cost) none paid = ground arith
unpaid_work id (some lines) (some cost) (some user) none = omega arith
unpaid_work id (some []) (some cost) (some user) (some paid) = ground (arith, paid == "true")
unpaid_work id (some (l ∷ ls)) (some cost) (some user) (some paid) = ground (arith, paid == "true")
