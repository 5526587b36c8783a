-- ===== src/Shop/Deliveries/Voting.antt =====
-- The commands of a checkout by two-phase commit.
use dds.Base.{String, ◌≡◌, refl, ap, ◌∙◌, true, false, some, List, ◌∷◌}
use dds.Base.Int.{ℤ, pos}
use dds.Base.Dict.{lookup, insert}
use dds.Orchestrator.Value.{Context, get_text}
use dds.Orchestrator.Transport.{payload_of}
use dds.Orchestrator.Executor.Answered.{Answers}
use dds.Order.{stock_payload, payment_payload}
use dds.Stock
use dds.Stock.{Action, Stock}
use dds.Faults.{maybe_inject}
use dds.Payment
use dds.Payment.{Payment}
use dds.Stock.Commands as StockCommands
use dds.Payment.Commands as PaymentCommands
use dds.Stock.Expiry as StockExpiry
use dds.Payment.Expiry as PaymentExpiry
use dds.Shop.{Shop, env, deliver}
use dds.Shop.Deliveries.{
  stock_step, payment_step, context, send_answered, stock_result, payment_result, stock_msg,
  payment_msg, after_stock, after_payment, event, failed,
}

module _ (id order user : String) (line : String × ℤ) (lines : List (String × ℤ)) (cost : ℤ) where
  abbrev mine : Context
  mine = context id order user line lines cost

  abbrev to_stock : String → Context
  to_stock = stock_msg id order user line lines cost

  abbrev to_payment : String → Context
  to_payment = payment_msg id order user line lines cost

  stock_prepare_runs :
      (w : Shop)
      → deliver "svc.stock.prepare" (to_stock "prepare") w
        ≡ stock_result "prepare" Action.prepare
            (Stock.run id (line ∷ lines) Action.prepare w.stock.stock)
            w
  unfolding deliver payload_of stock_payload insert lookup StockCommands.handle_nats_message
      StockCommands.handle_command StockCommands.action_of StockCommands.parse_items
      StockCommands.parse_ttl StockExpiry.run_for maybe_inject get_text
  stock_prepare_runs w = refl

  stock_commit_runs :
      (w : Shop)
      → deliver "svc.stock.commit" (to_stock "commit") w
        ≡ stock_result "commit" Action.commit
            (Stock.run id (line ∷ lines) Action.commit w.stock.stock)
            w
  unfolding deliver payload_of stock_payload insert lookup StockCommands.handle_nats_message
      StockCommands.handle_command StockCommands.action_of StockCommands.parse_items
      StockCommands.parse_ttl StockExpiry.run_for maybe_inject get_text
  stock_commit_runs w = refl

  stock_abort_runs :
      (w : Shop)
      → deliver "svc.stock.abort" (to_stock "abort") w
        ≡ stock_result "abort" Action.abort
            (Stock.run id (line ∷ lines) Action.abort w.stock.stock)
            w
  unfolding deliver payload_of stock_payload insert lookup StockCommands.handle_nats_message
      StockCommands.handle_command StockCommands.action_of StockCommands.parse_items
      StockCommands.parse_ttl StockExpiry.run_for maybe_inject get_text
  stock_abort_runs w = refl

  payment_prepare_runs :
      (w : Shop)
      → deliver "svc.payment.prepare" (to_payment "prepare") w
        ≡ payment_result "prepare" Action.prepare
            (Payment.run id user cost Action.prepare w.payment.payment)
            w
  unfolding deliver payload_of payment_payload insert lookup PaymentCommands.handle_nats_message
      PaymentCommands.handle_command StockCommands.action_of PaymentCommands.parse_amount
      StockCommands.parse_ttl PaymentExpiry.run_for maybe_inject get_text
  payment_prepare_runs w = refl

  payment_commit_runs :
      (w : Shop)
      → deliver "svc.payment.commit" (to_payment "commit") w
        ≡ payment_result "commit" Action.commit
            (Payment.run id user cost Action.commit w.payment.payment)
            w
  unfolding deliver payload_of payment_payload insert lookup PaymentCommands.handle_nats_message
      PaymentCommands.handle_command StockCommands.action_of PaymentCommands.parse_amount
      StockCommands.parse_ttl PaymentExpiry.run_for maybe_inject get_text
  payment_commit_runs w = refl

  payment_abort_runs :
      (w : Shop)
      → deliver "svc.payment.abort" (to_payment "abort") w
        ≡ payment_result "abort" Action.abort
            (Payment.run id user (pos 0) Action.abort w.payment.payment)
            w
  unfolding deliver payload_of payment_payload insert lookup PaymentCommands.handle_nats_message
      PaymentCommands.handle_command StockCommands.action_of PaymentCommands.parse_amount
      StockCommands.parse_ttl PaymentExpiry.run_for maybe_inject get_text
  payment_abort_runs w = refl

  pub stock_prepared :
      (w : Shop) (left : Stock)
      → Stock.run id (line ∷ lines) Action.prepare w.stock.stock ≡ (some true, left)
      → Answers env stock_step id "prepare" mine w
          (event "prepared")
          (after_stock "prepare" true left w)
  unfolding maybe_inject lookup
  stock_prepared w left e =
      send_answered stock_step id "prepare" mine w _ _
        (stock_prepare_runs w ∙ ap (λ r. stock_result "prepare" Action.prepare r w) e)

  pub stock_refused :
      (w : Shop) (left : Stock)
      → Stock.run id (line ∷ lines) Action.prepare w.stock.stock ≡ (some false, left)
      → Answers env stock_step id "prepare" mine w
          (failed "insufficient_stock")
          (after_stock "prepare" false left w)
  unfolding maybe_inject lookup
  stock_refused w left e =
      send_answered stock_step id "prepare" mine w _ _
        (stock_prepare_runs w ∙ ap (λ r. stock_result "prepare" Action.prepare r w) e)

  pub stock_committed :
      (w : Shop) (left : Stock)
      → Stock.run id (line ∷ lines) Action.commit w.stock.stock ≡ (some true, left)
      → Answers env stock_step id "commit" mine w
          (event "committed")
          (after_stock "commit" true left w)
  unfolding maybe_inject lookup
  stock_committed w left e =
      send_answered stock_step id "commit" mine w _ _
        (stock_commit_runs w ∙ ap (λ r. stock_result "commit" Action.commit r w) e)

  pub stock_aborted :
      (w : Shop) (left : Stock)
      → Stock.run id (line ∷ lines) Action.abort w.stock.stock ≡ (some true, left)
      → Answers env stock_step id "abort" mine w (event "aborted") (after_stock "abort" true left w)
  unfolding maybe_inject lookup
  stock_aborted w left e =
      send_answered stock_step id "abort" mine w _ _
        (stock_abort_runs w ∙ ap (λ r. stock_result "abort" Action.abort r w) e)

  pub payment_prepared :
      (w : Shop) (left : Payment)
      → Payment.run id user cost Action.prepare w.payment.payment ≡ (some true, left)
      → Answers env payment_step id "prepare" mine w
          (event "prepared")
          (after_payment "prepare" true left w)
  unfolding maybe_inject lookup
  payment_prepared w left e =
      send_answered payment_step id "prepare" mine w _ _
        (payment_prepare_runs w ∙ ap (λ r. payment_result "prepare" Action.prepare r w) e)

  pub payment_refused :
      (w : Shop) (left : Payment)
      → Payment.run id user cost Action.prepare w.payment.payment ≡ (some false, left)
      → Answers env payment_step id "prepare" mine w
          (failed "insufficient_credit")
          (after_payment "prepare" false left w)
  unfolding maybe_inject lookup
  payment_refused w left e =
      send_answered payment_step id "prepare" mine w _ _
        (payment_prepare_runs w ∙ ap (λ r. payment_result "prepare" Action.prepare r w) e)

  pub payment_committed :
      (w : Shop) (left : Payment)
      → Payment.run id user cost Action.commit w.payment.payment ≡ (some true, left)
      → Answers env payment_step id "commit" mine w
          (event "committed")
          (after_payment "commit" true left w)
  unfolding maybe_inject lookup
  payment_committed w left e =
      send_answered payment_step id "commit" mine w _ _
        (payment_commit_runs w ∙ ap (λ r. payment_result "commit" Action.commit r w) e)

  pub payment_aborted :
      (w : Shop) (left : Payment)
      → Payment.run id user (pos 0) Action.abort w.payment.payment ≡ (some true, left)
      → Answers env payment_step id "abort" mine w
          (event "aborted")
          (after_payment "abort" true left w)
  unfolding maybe_inject lookup
  payment_aborted w left e =
      send_answered payment_step id "abort" mine w _ _
        (payment_abort_runs w ∙ ap (λ r. payment_result "abort" Action.abort r w) e)
