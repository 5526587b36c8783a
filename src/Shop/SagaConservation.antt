-- ===== src/Shop/SagaConservation.antt =====
-- What a checkout by a saga does to stock and credit, across the services.
use dds.Base.{
  String, ◌==◌, ◌≡◌, refl, true, false, ◌&&◌, none, List, [], ◌∷◌, Bool, Bool-cases, inl, inr,
}
use dds.Base.Int.{ℤ}
use dds.Base.Dict.{lookup}
use dds.Orchestrator.Value.{Context}
use dds.Orchestrator.Transport.{is_event}
use dds.Orchestrator.System.{Sys}
use dds.Orchestrator.Executor.{Outcome, check_circuit_breakers}
use dds.Orchestrator.Saga
use dds.Orchestrator.Saga.Answered.{Undone, Ends, saga_answered}
use dds.Orchestrator.Executor.Answered.{Answers}
use dds.Order.{checkout_tx}
use dds.Stock
use dds.Stock.{Stock, Action, enough}
use dds.Stock.Stored.{Fresh}
use dds.Stock.Commands as StockCommands
use dds.Payment
use dds.Payment.{Payment, affords, available}
use dds.Payment.Commands as PaymentCommands
use dds.Shop.{Shop, env}
use dds.Shop.Deliveries.{context, stock_step, payment_step, after_stock, after_payment, event}
use dds.Shop.Deliveries.Executing.{
  stock_executed, stock_unexecuted, stock_compensated, payment_executed, payment_unexecuted,
  payment_compensated,
}
use dds.Shop.Executed.{
  stock_reply, payment_reply, stock_in_time, payment_in_time, stock_says, payment_says, taken,
  stock_taken, stock_untaken, level-taken, stock_returned, level-returned, charged, payment_charged,
  payment_uncharged, credit-charged, payment_refunded, credit-refunded,
}
use dds.Shop.Contract.{Conserved}

module _ (id order user : String) (line : String × ℤ) (lines : List (String × ℤ)) (cost : ℤ)
    (tx_name : String) (s : Sys Shop)
    (free : (check_circuit_breakers env checkout_tx.steps s).0 ≡ none)
    (unknown : lookup id s.world.stock.stock.sagas ≡ none)
    (unpaid : lookup id s.world.payment.payment.sagas ≡ none)
    (unstored : lookup id s.world.stock.stock.amounts ≡ none)
    (uncharged : lookup id s.world.payment.payment.amounts ≡ none) where
  abbrev items : List (String × ℤ)
  items = line ∷ lines

  abbrev st : Stock
  st = s.world.stock.stock

  abbrev pay : Payment
  pay = s.world.payment.payment

  abbrev mine : Context
  mine = context id order user line lines cost

  abbrev result : Outcome × Sys Shop
  result = Saga.execute env checkout_tx id mine tx_name s

  module _ (j : String) (apart : Fresh [] items) (somebody : (user == "") ≡ false) where
    abbrev Kept : Bool → Type 0
    Kept b = Conserved user line lines cost j b result.0 s.world result.1.world

    -- the run, from the answers of both services
    module _ (b₁ b₂ : Bool) (w₁ w₂ w' : Shop)
        (a₁ : Answers env stock_step id "execute" mine s.world (stock_reply b₁) w₁)
        (a₂ : Answers env payment_step id "execute" mine w₁ (payment_reply b₂) w₂)
        (undone : Undone env stock_step payment_step id mine b₁ b₂ w₂ w') where
      answered : Ends env stock_step payment_step id mine (b₁ && b₂) w' result
      answered =
          saga_answered env stock_step payment_step id mine (stock_reply b₁) (payment_reply b₂)
            (stock_in_time b₁) (payment_in_time b₂) b₁ b₂ w₁ w₂ w' (stock_says b₁) (payment_says b₂)
            undone "checkout" tx_name s free a₁ a₂

    both_serve :
        enough items st.items ≡ true → affords cost (available user pay.users) ≡ true → Kept true
    unfolding StockCommands.record_metric PaymentCommands.record_metric
    both_serve fits rich =
        let w₁ = after_stock "execute" true (taken id items st unknown) s.world in
        let w₂ = after_payment "execute" true (charged id user cost pay unpaid) w₁ in
        let (succeeded, end) =
          answered true true w₁ w₂ w₂
            (stock_executed id order user line lines cost s.world _
              (stock_taken id items st unknown fits))
            (payment_executed id order user line lines cost w₁ _
              (payment_charged id user cost pay unpaid rich))
            refl in
        (
          succeeded,
          rw end (level-taken id items st unknown j),
          rw end (credit-charged id user cost pay unpaid j),
        )

    stock_short :
        enough items st.items ≡ false → affords cost (available user pay.users) ≡ true → Kept false
    unfolding StockCommands.record_metric PaymentCommands.record_metric is_event
    stock_short short rich =
        let w₁ = after_stock "execute" false st s.world in
        let w₂ = after_payment "execute" true (charged id user cost pay unpaid) w₁ in
        let w₃ =
          after_payment "compensate" true
            (Payment.run id user cost Action.compensate (charged id user cost pay unpaid)).1 w₂ in
        let (refused, end) =
          answered false true w₁ w₂ w₃
            (stock_unexecuted id order user line lines cost s.world _
              (stock_untaken id items st unknown short))
            (payment_executed id order user line lines cost w₁ _
              (payment_charged id user cost pay unpaid rich))
            (
              event "compensated",
              refl,
              payment_compensated id order user line lines cost w₂ _
                  (payment_refunded id user cost pay unpaid somebody),
            ) in
        (
          refused,
          rw end refl,
          rw end (credit-refunded id user cost pay unpaid somebody j uncharged rich),
        )

    credit_short :
        enough items st.items ≡ true → affords cost (available user pay.users) ≡ false → Kept false
    unfolding StockCommands.record_metric PaymentCommands.record_metric is_event
    credit_short fits poor =
        let w₁ = after_stock "execute" true (taken id items st unknown) s.world in
        let w₂ = after_payment "execute" false pay w₁ in
        let w₃ =
          after_stock "compensate" true
            (Stock.run id items Action.compensate (taken id items st unknown)).1 w₂ in
        let (refused, end) =
          answered true false w₁ w₂ w₃
            (stock_executed id order user line lines cost s.world _
              (stock_taken id items st unknown fits))
            (payment_unexecuted id order user line lines cost w₁ _
              (payment_uncharged id user cost pay unpaid poor))
            (
              event "compensated",
              refl,
              stock_compensated id order user line lines cost w₂ _
                  (stock_returned id items st unknown),
            ) in
        (refused, rw end (level-returned id items st unknown j unstored apart fits), rw end refl)

    neither_serves :
        enough items st.items ≡ false → affords cost (available user pay.users) ≡ false → Kept false
    unfolding StockCommands.record_metric PaymentCommands.record_metric
    neither_serves short poor =
        let w₁ = after_stock "execute" false st s.world in
        let w₂ = after_payment "execute" false pay w₁ in
        let (refused, end) =
          answered false false w₁ w₂ w₂
            (stock_unexecuted id order user line lines cost s.world _
              (stock_untaken id items st unknown short))
            (payment_unexecuted id order user line lines cost w₁ _
              (payment_uncharged id user cost pay unpaid poor))
            refl in
        (refused, rw end refl, rw end refl)

    -- A checkout by a saga, with a saga id of which neither service has anything, of one or more items with
    -- different names by a user with a name, where no circuit breaker refuses and every command is
    -- answered: if there is enough of each item and the user can pay, it succeeds, every item goes down by
    -- what the checkout lists of it and the user's credit by the cost, and nobody else's changes;
    -- otherwise it fails and every level and every credit is as before.
    pub saga_conserves : Kept (enough items st.items && affords cost (available user pay.users))
    saga_conserves = elim (Bool-cases (enough items st.items)) [
      | inl fits ↦ elim (Bool-cases (affords cost (available user pay.users))) [
        | inl rich ↦ rw (fits, rich) (both_serve fits rich)
        | inr poor ↦ rw (fits, poor) (credit_short fits poor)
      ]
      | inr short ↦ elim (Bool-cases (affords cost (available user pay.users))) [
        | inl rich ↦ rw short (stock_short short rich)
        | inr poor ↦ rw short (neither_serves short poor)
      ]
    ]
