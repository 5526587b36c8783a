-- ===== src/Shop/Executed.antt =====
-- What the stock and the payment service have after each way in which a saga can go.
use dds.Base.{
  String, Bool, ◌==◌, ◌≡◌, refl, sym, ap, ◌∙◌, true, false, none, some, List, [], if◌then◌else◌,
}
use dds.Base.Int.{ℤ, pos, ◌+ℤ◌}
use dds.Base.Dict.{lookup, lookup_same}
use dds.Orchestrator.Transport.{Reply, is_event, has_reason}
use dds.Stock
use dds.Stock.{Stock, Status, SagaKey, Action, enough}
use dds.Stock.Levels.{level, demand, level-take_all}
use dds.Stock.Stored.{Fresh}
use dds.Stock.Undo.{execute_then_compensate}
use dds.Payment
use dds.Payment.{Payment, affords, available}
use dds.Payment.Undo.{credit, compensate_gives_back}
use dds.Shop.Deliveries.{event, failed}
use dds.Shop.Settlement.{credit-held}

-- the answers of the services to the executes
abbrev pub stock_reply : Bool → Reply
stock_reply true = event "executed"
stock_reply false = failed "insufficient_stock"

abbrev pub payment_reply : Bool → Reply
payment_reply true = event "executed"
payment_reply false = failed "insufficient_credit"

pub stock_in_time : (b : Bool) → has_reason "timeout" (stock_reply b) ≡ false
unfolding has_reason is_event
stock_in_time true = refl
stock_in_time false = refl

pub payment_in_time : (b : Bool) → has_reason "timeout" (payment_reply b) ≡ false
unfolding has_reason is_event
payment_in_time true = refl
payment_in_time false = refl

pub stock_says : (b : Bool) → is_event "executed" (stock_reply b) ≡ b
unfolding is_event
stock_says true = refl
stock_says false = refl

pub payment_says : (b : Bool) → is_event "executed" (payment_reply b) ≡ b
unfolding is_event
payment_says true = refl
payment_says false = refl

module _ (id : String) (items : List (String × ℤ)) (s : Stock)
    (new : lookup id s.sagas ≡ none) where
  abbrev pub taken : Stock
  taken = Stock.deducted id items s

  pub stock_taken :
      enough items s.items ≡ true → Stock.run id items Action.execute s ≡ (some true, taken)
  unfolding Stock.run
  stock_taken fits = rw (new, fits) refl

  pub stock_untaken :
      enough items s.items ≡ false → Stock.run id items Action.execute s ≡ (some false, s)
  unfolding Stock.run
  stock_untaken short = rw (new, short) refl

  pub level-taken : (j : String) → level j taken.items +ℤ demand j items ≡ level j s.items
  level-taken j = level-take_all j items s.items

  pub stock_returned :
      Stock.run id items Action.compensate taken
      ≡ (some true, (Stock.run id items Action.compensate taken).1)
  unfolding Stock.run
  stock_returned = rw (lookup_same id (SagaKey.string Status.executed) s.sagas) refl

  pub level-returned :
      (j : String)
      → lookup id s.amounts ≡ none
      → Fresh [] items
      → enough items s.items ≡ true
      → level j (Stock.run id items Action.compensate taken).1.items ≡ level j s.items
  level-returned j unstored apart fits =
      ap (λ r. level j (Stock.run id items Action.compensate r.1).1.items) (sym (stock_taken fits))
      ∙ execute_then_compensate id items s j new unstored apart

module _ (id user : String) (cost : ℤ) (p : Payment) (new : lookup id p.sagas ≡ none) where
  abbrev pub charged : Payment
  charged = Payment.deducted id user cost p

  pub payment_charged :
      affords cost (available user p.users) ≡ true
      → Payment.run id user cost Action.execute p ≡ (some true, charged)
  unfolding Payment.run
  payment_charged fits = rw (new, fits) refl

  pub payment_uncharged :
      affords cost (available user p.users) ≡ false
      → Payment.run id user cost Action.execute p ≡ (some false, p)
  unfolding Payment.run
  payment_uncharged short = rw (new, short) refl

  pub credit-charged :
      (j : String)
      → credit j charged.users +ℤ (if user == j then cost else pos 0) ≡ credit j p.users
  credit-charged j = credit-held id user cost p new j

  module _ (somebody : (user == "") ≡ false) where
    pub payment_refunded :
        Payment.run id user (pos 0) Action.compensate charged
        ≡ (some true, (Payment.run id user cost Action.compensate charged).1)
    unfolding Payment.run
    payment_refunded =
        rw (somebody, lookup_same id (Payment.SagaKey.string Status.executed) p.sagas) refl

    pub credit-refunded :
        (j : String)
        → lookup id p.amounts ≡ none
        → affords cost (available user p.users) ≡ true
        → credit j (Payment.run id user cost Action.compensate charged).1.users ≡ credit j p.users
    credit-refunded j unstored fits =
        ap (λ r. credit j (Payment.run id user cost Action.compensate r.1).1.users)
          (sym (payment_charged fits))
        ∙ compensate_gives_back id user cost p j somebody new unstored
