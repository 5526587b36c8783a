-- ===== src/Shop/Deliveries/Executing.antt =====
-- The commands of a checkout by a saga.
use dds.Base.{String, ◌≡◌, refl, ap, ◌∙◌, true, false, some, List, ◌∷◌}
use dds.Base.Int.{ℤ, pos}
use dds.Base.Dict.{lookup, insert}
use dds.Orchestrator.Value.{Context, get_text}
use dds.Orchestrator.Transport.{payload_of}
use dds.Orchestrator.Executor.Answered.{Answers}
use dds.Order.{stock_payload, payment_payload}
use dds.Stock
use dds.Stock.{Action, Stock}
use dds.Faults.{maybe_inject}
use dds.Payment
use dds.Payment.{Payment}
use dds.Stock.Commands as StockCommands
use dds.Payment.Commands as PaymentCommands
use dds.Stock.Expiry as StockExpiry
use dds.Payment.Expiry as PaymentExpiry
use dds.Shop.{Shop, env, deliver}
use dds.Shop.Deliveries.{
  stock_step, payment_step, context, send_answered, stock_result, payment_result, stock_msg,
  payment_msg, after_stock, after_payment, event, failed,
}

module _ (id order user : String) (line : String × ℤ) (lines : List (String × ℤ)) (cost : ℤ) where
  abbrev mine : Context
  mine = context id order user line lines cost

  abbrev to_stock : String → Context
  to_stock = stock_msg id order user line lines cost

  abbrev to_payment : String → Context
  to_payment = payment_msg id order user line lines cost

  stock_execute_runs :
      (w : Shop)
      → deliver "svc.stock.execute" (to_stock "execute") w
        ≡ stock_result "execute" Action.execute
            (Stock.run id (line ∷ lines) Action.execute w.stock.stock)
            w
  unfolding deliver payload_of stock_payload insert lookup StockCommands.handle_nats_message
      StockCommands.handle_command StockCommands.action_of StockCommands.parse_items
      StockCommands.parse_ttl StockExpiry.run_for maybe_inject get_text
  stock_execute_runs w = refl

  stock_compensate_runs :
      (w : Shop)
      → deliver "svc.stock.compensate" (to_stock "compensate") w
        ≡ stock_result "compensate" Action.compensate
            (Stock.run id (line ∷ lines) Action.compensate w.stock.stock)
            w
  unfolding deliver payload_of stock_payload insert lookup StockCommands.handle_nats_message
      StockCommands.handle_command StockCommands.action_of StockCommands.parse_items
      StockCommands.parse_ttl StockExpiry.run_for maybe_inject get_text
  stock_compensate_runs w = refl

  payment_execute_runs :
      (w : Shop)
      → deliver "svc.payment.execute" (to_payment "execute") w
        ≡ payment_result "execute" Action.execute
            (Payment.run id user cost Action.execute w.payment.payment)
            w
  unfolding deliver payload_of payment_payload insert lookup PaymentCommands.handle_nats_message
      PaymentCommands.handle_command StockCommands.action_of PaymentCommands.parse_amount
      StockCommands.parse_ttl PaymentExpiry.run_for maybe_inject get_text
  payment_execute_runs w = refl

  payment_compensate_runs :
      (w : Shop)
      → deliver "svc.payment.compensate" (to_payment "compensate") w
        ≡ payment_result "compensate" Action.compensate
            (Payment.run id user (pos 0) Action.compensate w.payment.payment)
            w
  unfolding deliver payload_of payment_payload insert lookup PaymentCommands.handle_nats_message
      PaymentCommands.handle_command StockCommands.action_of PaymentCommands.parse_amount
      StockCommands.parse_ttl PaymentExpiry.run_for maybe_inject get_text
  payment_compensate_runs w = refl

  pub stock_executed :
      (w : Shop) (left : Stock)
      → Stock.run id (line ∷ lines) Action.execute w.stock.stock ≡ (some true, left)
      → Answers env stock_step id "execute" mine w
          (event "executed")
          (after_stock "execute" true left w)
  unfolding maybe_inject lookup
  stock_executed w left e =
      send_answered stock_step id "execute" mine w _ _
        (stock_execute_runs w ∙ ap (λ r. stock_result "execute" Action.execute r w) e)

  pub stock_unexecuted :
      (w : Shop) (left : Stock)
      → Stock.run id (line ∷ lines) Action.execute w.stock.stock ≡ (some false, left)
      → Answers env stock_step id "execute" mine w
          (failed "insufficient_stock")
          (after_stock "execute" false left w)
  unfolding maybe_inject lookup
  stock_unexecuted w left e =
      send_answered stock_step id "execute" mine w _ _
        (stock_execute_runs w ∙ ap (λ r. stock_result "execute" Action.execute r w) e)

  pub stock_compensated :
      (w : Shop) (left : Stock)
      → Stock.run id (line ∷ lines) Action.compensate w.stock.stock ≡ (some true, left)
      → Answers env stock_step id "compensate" mine w
          (event "compensated")
          (after_stock "compensate" true left w)
  unfolding maybe_inject lookup
  stock_compensated w left e =
      send_answered stock_step id "compensate" mine w _ _
        (stock_compensate_runs w ∙ ap (λ r. stock_result "compensate" Action.compensate r w) e)

  pub payment_executed :
      (w : Shop) (left : Payment)
      → Payment.run id user cost Action.execute w.payment.payment ≡ (some true, left)
      → Answers env payment_step id "execute" mine w
          (event "executed")
          (after_payment "execute" true left w)
  unfolding maybe_inject lookup
  payment_executed w left e =
      send_answered payment_step id "execute" mine w _ _
        (payment_execute_runs w ∙ ap (λ r. payment_result "execute" Action.execute r w) e)

  pub payment_unexecuted :
      (w : Shop) (left : Payment)
      → Payment.run id user cost Action.execute w.payment.payment ≡ (some false, left)
      → Answers env payment_step id "execute" mine w
          (failed "insufficient_credit")
          (after_payment "execute" false left w)
  unfolding maybe_inject lookup
  payment_unexecuted w left e =
      send_answered payment_step id "execute" mine w _ _
        (payment_execute_runs w ∙ ap (λ r. payment_result "execute" Action.execute r w) e)

  pub payment_compensated :
      (w : Shop) (left : Payment)
      → Payment.run id user (pos 0) Action.compensate w.payment.payment ≡ (some true, left)
      → Answers env payment_step id "compensate" mine w
          (event "compensated")
          (after_payment "compensate" true left w)
  unfolding maybe_inject lookup
  payment_compensated w left e =
      send_answered payment_step id "compensate" mine w _ _
        (payment_compensate_runs w ∙ ap (λ r. payment_result "compensate" Action.compensate r w) e)
