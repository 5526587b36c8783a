-- ===== src/Stock/Commands/Delivery.antt =====
-- Messages that NATS delivers more than once.
use Prim.Native.String.{◌++◌ as concat}
use dds.Base.{ℕ, String, ◌≡◌, refl, sym, ap, ◌∙◌, Bool, true, Option, none, some, List}
use dds.Base.Int.{ℤ, pos, ltb_ℤ}
use dds.Base.Dict.{Dict}
use dds.Orchestrator.Value.{Context, get_text}
use dds.Faults.{FaultRule, Injected, maybe_inject}
use dds.Stock.{Stock, Action, run}
use dds.Stock.Expiry.{run_for, run_for-run}
use dds.Stock.Replay.{run-run}
use dds.Stock.Commands.{
  Service, Handled, record_metric, parse_items, action_of, outcome_of, dispatch, handle_command,
  response_to, handle_nats_message, answered, perform, after, before, parse_ttl, ttl_for,
}

-- The answer and the stock, without the metrics.
abbrev Agrees : Handled × Service → Handled × Service → Type 0
Agrees (h, s) (h', s') = (h ≡ h') × (s.stock ≡ s'.stock)

metric_keeps :
    (name : String) (ok : Bool) (ms : ℕ) (s : Service)
    → (record_metric name ok ms s).stock ≡ s.stock
unfolding record_metric
metric_keeps name ok ms s = refl

after_keeps :
    (j : Injected) (name outcome : String) (ms : ℕ) (s : Service)
    → (after j name outcome ms s).1.stock ≡ s.stock
after_keeps Injected.crash name outcome ms s = refl
after_keeps (Injected.raise e) name outcome ms s = refl
after_keeps Injected.carry_on name outcome ms s = metric_keeps name _ ms s
after_keeps (Injected.delay n) name outcome ms s = metric_keeps name _ ms s

after_again :
    (j : Injected) (name outcome : String) (ms ms' : ℕ) (s t : Service)
    → s.stock ≡ t.stock
    → Agrees (after j name outcome ms s) (after j name outcome ms' t)
after_again Injected.crash name outcome ms ms' s t e = (refl, e)
after_again (Injected.raise x) name outcome ms ms' s t e = (refl, e)
after_again Injected.carry_on name outcome ms ms' s t e =
    (refl, metric_keeps name _ ms s ∙ e ∙ sym (metric_keeps name _ ms' t))
after_again (Injected.delay n) name outcome ms ms' s t e =
    (refl, metric_keeps name _ ms s ∙ e ∙ sym (metric_keeps name _ ms' t))

-- a time to live, where it is read, that SETEX takes
abbrev IsPositive : Option ℤ → Type 0
IsPositive none = Unit
IsPositive (some ttl) = ltb_ℤ (pos 0) ttl ≡ true

run_for-run_for :
    (id : String) (items : List (String × ℤ)) (ttl : ℤ) (action : Action) (s : Stock)
    → (action ≡ Action.prepare → ltb_ℤ (pos 0) ttl ≡ true)
    → run_for id items ttl action (run_for id items ttl action s).1 ≡ run_for id items ttl action s
run_for-run_for id items ttl action s h =
    let same = λ (t : Stock). run_for-run id items ttl action t h in
    rw (same s, same (run id items action s).1) (run-run id items action s)

module _ (rules : Dict FaultRule) (name id : String) (ms ms' : ℕ) (ttl : ℤ) where
  answered_again :
      (action : Action) (items : List (String × ℤ)) (r : Option Bool × Stock) (s : Service)
      → run_for id items ttl action r.1 ≡ r
      → let (h, s') = answered rules name action ms r s in
        Agrees (answered rules name action ms' (run_for id items ttl action s'.stock) s') (h, s')
  answered_again action items (none, stock) s h = rw h (refl, refl)
  answered_again action items (some ok, stock) s h =
      let j = maybe_inject (concat "after_" name) rules in
      let s0 : Service = record s { stock = stock } in
      let kept = after_keeps j name (outcome_of action ok) ms s0 in
      let (same, stays) =
        after_again j name (outcome_of action ok) ms' ms
          (record ((after j name (outcome_of action ok) ms s0).1) { stock = stock }) s0 refl in
      rw (kept, h) (same, stays ∙ kept)

perform_again :
    (rules : Dict FaultRule) (name id : String) (ms ms' : ℕ) (action : Action)
    (items : Option (List (String × ℤ))) (ttl : Option ℤ) (s : Service)
    → (action ≡ Action.prepare → IsPositive ttl)
    → let (h, s') = perform rules name action id ms items ttl s in
      Agrees (perform rules name action id ms' items ttl s') (h, s')
perform_again rules name id ms ms' action none ttl s h = (refl, refl)
perform_again rules name id ms ms' action (some items) none s h = (refl, refl)
perform_again rules name id ms ms' action (some items) (some ttl) s h =
    answered_again rules name id ms ms' ttl action items (run_for id items ttl action s.stock) s
      (run_for-run_for id items ttl action s.stock h)

-- the hypothesis on the message passes to the time to live that the action reads
ttl_for-IsPositive :
    (action : Action) (ttl : Option ℤ)
    → (some action ≡ some Action.prepare → IsPositive ttl)
    → action ≡ Action.prepare
    → IsPositive (ttl_for action ttl)
ttl_for-IsPositive Action.prepare ttl h e = h refl
ttl_for-IsPositive Action.commit ttl h e = refl
ttl_for-IsPositive Action.abort ttl h e = refl
ttl_for-IsPositive Action.execute ttl h e = refl
ttl_for-IsPositive Action.compensate ttl h e = refl

dispatch_again :
    (rules : Dict FaultRule) (name : String) (action : Option Action) (d : Context) (ms ms' : ℕ)
    (s : Service)
    → (action ≡ some Action.prepare → IsPositive (parse_ttl d))
    → let (h, s') = dispatch rules name action d ms s in
      Agrees (dispatch rules name action d ms' s') (h, s')
dispatch_again rules name none d ms ms' s h = (refl, refl)
dispatch_again rules name (some action) d ms ms' s h =
    perform_again rules name (get_text "saga_id" "" d) ms ms' action (parse_items d)
      (ttl_for action (parse_ttl d)) s (ttl_for-IsPositive action (parse_ttl d) h)

before_again :
    (j : Injected) (again : Service → Handled × Service) (done : Handled × Service) (s : Service)
    → Agrees (again done.1) done
    → let (h, s') = before j done s in Agrees (before j (again s') s') (h, s')
before_again Injected.crash again done s h = (refl, refl)
before_again (Injected.raise e) again done s h = (refl, refl)
before_again Injected.carry_on again done s h = h
before_again (Injected.delay n) again done s h = h

-- A message that is delivered twice, under the same faults, is answered the second time as the first and
-- leaves the stock as the first left it, whatever the message says and however long each takes: only the time
-- to live of a prepare, if it is a number, must be positive.
pub redelivery_changes_nothing :
    (rules : Dict FaultRule) (d : Context) (ms ms' : ℕ) (s : Service)
    → (action_of (get_text "action" "" d) ≡ some Action.prepare → IsPositive (parse_ttl d))
    → let (response, s') = handle_nats_message rules d ms s in
      let (response', s'') = handle_nats_message rules d ms' s' in
      (response' ≡ response) × (s''.stock ≡ s'.stock)
unfolding handle_nats_message handle_command
redelivery_changes_nothing rules d ms ms' s h =
    let name = get_text "action" "" d in
    let (same, kept) =
      before_again (maybe_inject (concat "before_" name) rules)
        (dispatch rules name (action_of name) d ms') (dispatch rules name (action_of name) d ms s) s
        (dispatch_again rules name (action_of name) d ms ms' s h) in
    (ap response_to same, kept)
