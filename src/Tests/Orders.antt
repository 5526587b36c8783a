-- ===== src/Tests/Orders.antt =====
-- The order service at concrete inputs.
use dds.Base.{String, ◌+◌, ◌≤◌, ◌≡◌, refl, false, none, some, List, [], ◌∷◌, arith}
use dds.Base.Int.{pos, ◌+ℤ◌, ◌*ℤ◌}
use dds.Base.Split.{split_once, strip, strip_left, strip_right}
use dds.Base.Decimal.{int, signed, scan}
use dds.Base.Dict.{lookup}
use dds.Orchestrator.Executor.{success}
use dds.Orchestrator.Leader.{Cluster, acquire}
use dds.Order.Store.{OrderHash, Db, claim_of, lines_of}
use dds.Order.Checkout.{parse_lines}
use dds.Order.Endpoints.{Answer, create_order, load_order, new_order}
use dds.Order.Endpoints.Added.{grown, Addition, add_all, order_holds_what_was_added}
use dds.Order.Service.{
  Work, Service, arrive, finish, find_task, Reach, here, next, arrives, finishes, idle,
}
use dds.Order.Service.Tasks.{one_if, tasks_of, running}
use dds.Order.Service.Invariant.{is_paid, times}
use dds.Order.Service.Once.{charged_once}
use dds.Order.Service.Lost.{left_alone, lost_checkout_runs_again}
use dds.Order.Monitoring.{dlq_status, first_of}
use dds.Orchestrator.System.{DlqEntry}
use dds.Order.Leadership.{turn, idle_loop}
use dds.Order.Leadership.Stuck.{rounds, Round, failed_recovery_stops_maintenance}

abbrev order : OrderHash
order = record { user_id = some "ann"; paid = some "false"; total_cost = some (pos 6) }

abbrev db : Db
db = record {
  orders = ("order-7", order) ∷ [];
  items = ("order-7", "bolt:2" ∷ []) ∷ [];
  claims = [];
}

-- two requests for the same order, and the end of the first one's saga
abbrev served : Service
served =
    finish "order-7" "saga-1" success
      (arrive "order-7" "saga-2" (arrive "order-7" "saga-1" (idle 0 db)))

served-Reach : Reach (idle 0 db) served
served-Reach =
    next (next (next here (arrives "order-7" "saga-1" _)) (arrives "order-7" "saga-2" _))
      (finishes "order-7" "saga-1" success _)

charged_once_example :
    (tasks_of "order-7" served.tasks ≤ 1)
    × (running "order-7" served.tasks + one_if (is_paid "order-7" served.db) ≤ 1)
    × (times "order-7" served.charged ≤ one_if (is_paid "order-7" served.db))
charged_once_example = charged_once "order-7" 0 db served-Reach

-- the instance that executes saga-1 dies, and the next request comes after 301 seconds
lost_checkout_runs_again_example :
    (find_task "order-7" "saga-1" (arrive "order-7" "saga-1" (idle 0 db)).tasks
      ≡ some Work.executing)
    × (is_paid "order-7" (left_alone "order-7" "saga-1" 301 (idle 0 db)).db ≡ false)
    × (find_task "order-7" "saga-2"
          (arrive "order-7" "saga-2" (left_alone "order-7" "saga-1" 301 (idle 0 db))).tasks
        ≡ some Work.executing)
unfolding lookup lines_of claim_of parse_lines find_task split_once int signed strip strip_right
    strip_left scan
lost_checkout_runs_again_example =
    lost_checkout_runs_again "order-7" "saga-1" 301 (idle 0 db) "ann" (pos 6) ("bolt", pos 2) []
      "saga-2" refl refl refl refl

abbrev adds : List Addition
adds = ("bolt", 2, pos 3) ∷ ("nut", 1, pos 1) ∷ ("bolt", 1, pos 3) ∷ []

order_holds_what_was_added_example :
    load_order "order-8" (add_all "order-8" adds (create_order "order-8" "ann" (some db)).1)
    ≡ Answer.ok (
      record (new_order "ann") { total_cost = some (pos 10) },
      ("bolt", pos 2) ∷ ("nut", pos 1) ∷ ("bolt", pos 1) ∷ [],
    )
unfolding grown ◌+ℤ◌ ◌*ℤ◌
order_holds_what_was_added_example =
    order_holds_what_was_added "order-8" "ann" adds db (unfold lookup in refl) (
      ((refl, (refl, (refl, (refl, tt)))), omega arith),
      (
        ((refl, (refl, (refl, tt))), omega arith),
        (((refl, (refl, (refl, (refl, tt)))), omega arith), tt),
      ),
    )

abbrev cluster : Cluster
cluster = record { now = 0; lock = none; instances = [] }

abbrev beats : List Round
beats = (1000, none) ∷ (1000, none) ∷ (4000, none) ∷ []

failed_recovery_stops_maintenance_example :
    let l = rounds "order-1" beats (turn "order-1" (some "ConnectionError") (idle_loop cluster)) in
    (l.maintenance ≡ false) × (acquire "order-2" l.cluster ≡ (false, l.cluster))
failed_recovery_stops_maintenance_example =
    failed_recovery_stops_maintenance "order-1" "ConnectionError" "order-2" cluster beats refl
      (omega arith, (omega arith, (omega arith, tt)))

abbrev letter : String → DlqEntry
letter id = record {
  saga_id = id;
  action = "commit";
  step = "reserve_stock";
  reason = "max_retries_exhausted";
  attempts = 15;
  context = [];
  timestamp = 0;
}

latest_first :
    dlq_status (letter "saga-1" ∷ letter "saga-2" ∷ [])
    ≡ (2, letter "saga-2" ∷ letter "saga-1" ∷ [])
unfolding dlq_status first_of
latest_first = refl
