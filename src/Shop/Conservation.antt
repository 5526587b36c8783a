-- ===== src/Shop/Conservation.antt =====
-- What a checkout by two-phase commit does to stock and credit, across the services.
use dds.Base.{
  String, ◌==◌, ◌≡◌, refl, Bool, true, false, ◌&&◌, none, List, [], ◌∷◌, Bool-cases, inl, inr,
}
use dds.Base.Int.{ℤ}
use dds.Base.Dict.{lookup}
use dds.Orchestrator.Transport.{is_event}
use dds.Orchestrator.System.{Sys}
use dds.Orchestrator.Executor.{Outcome, check_circuit_breakers}
use dds.Orchestrator.TwoPhase
use dds.Orchestrator.TwoPhase.{all_prepared}
use dds.Orchestrator.TwoPhase.Answered.{two_phase_answered}
use dds.Order.{checkout_tx}
use dds.Stock
use dds.Stock.{Stock, Status, SagaKey, Action, enough, take_all, record_all}
use dds.Stock.Stored.{Fresh}
use dds.Stock.Commands as StockCommands
use dds.Payment
use dds.Payment.{Payment, affords, available}
use dds.Payment.Commands as PaymentCommands
use dds.Shop.{Shop, env}
use dds.Shop.Contract.{Conserved}
use dds.Orchestrator.Value.{Context}
use dds.Shop.Deliveries.{
  context, stock_step, payment_step, after_stock, after_payment, event, failed,
}
use dds.Shop.Deliveries.Voting.{
  stock_prepared, stock_refused, stock_committed, stock_aborted, payment_prepared, payment_refused,
  payment_committed, payment_aborted,
}
use dds.Shop.Settlement.{
  kept, stock_kept, stock_unkept, sold, stock_sold, level-sold, stock_kept_undone,
  stock_unkept_undone, level-kept_undone, level-unkept_undone, held, payment_held, payment_unheld,
  paid, payment_paid, credit-paid, payment_held_undone, payment_unheld_undone, credit-held_undone,
  credit-unheld_undone,
}

module _ (id order user : String) (line : String × ℤ) (lines : List (String × ℤ)) (cost : ℤ)
    (tx_name : String) (s : Sys Shop)
    (free : (check_circuit_breakers env checkout_tx.steps s).0 ≡ none)
    (unknown : lookup id s.world.stock.stock.sagas ≡ none)
    (unpaid : lookup id s.world.payment.payment.sagas ≡ none) where
  abbrev items : List (String × ℤ)
  items = line ∷ lines

  abbrev mine : Context
  mine = context id order user line lines cost

  abbrev st : Stock
  st = s.world.stock.stock

  abbrev pay : Payment
  pay = s.world.payment.payment

  abbrev result : Outcome × Sys Shop
  result = TwoPhase.execute env checkout_tx id mine tx_name s

  module _ (j : String) where
    abbrev Kept : Bool → Type 0
    Kept b = Conserved user line lines cost j b result.0 s.world result.1.world

    both_serve :
        enough items st.items ≡ true → affords cost (available user pay.users) ≡ true → Kept true
    unfolding StockCommands.record_metric PaymentCommands.record_metric all_prepared is_event
    both_serve fits rich =
        let w₁ = after_stock "prepare" true (kept id items st unknown) s.world in
        let w₂ = after_payment "prepare" true (held id user cost pay unpaid) w₁ in
        let w₃ = after_stock "commit" true (sold id items st unknown) w₂ in
        let w₄ = after_payment "commit" true (paid id user cost pay unpaid) w₃ in
        let (succeeded, end) =
          two_phase_answered env stock_step payment_step id mine (event "prepared")
            (event "prepared") (event "committed") (event "committed") w₃ w₄ true "checkout" tx_name
            w₁ w₂ refl
            (
              stock_committed id order user line lines cost w₂ _ (stock_sold id items st unknown),
              payment_committed id order user line lines cost w₃ _
                  (payment_paid id user cost pay unpaid),
              refl,
              refl,
            )
            s free
            (stock_prepared id order user line lines cost s.world _
              (stock_kept id items st unknown fits))
            (payment_prepared id order user line lines cost w₁ _
              (payment_held id user cost pay unpaid rich)) in
        (
          succeeded,
          rw end (level-sold id items st unknown j),
          rw end (credit-paid id user cost pay unpaid j),
        )

    module _ (apart : Fresh [] items) (somebody : (user == "") ≡ false) where
      stock_short :
          enough items st.items ≡ false
          → affords cost (available user pay.users) ≡ true
          → Kept false
      unfolding StockCommands.record_metric PaymentCommands.record_metric all_prepared is_event
      stock_short fits rich =
          let w₁ = after_stock "prepare" false (st) s.world in
          let w₂ = after_payment "prepare" true (held id user cost pay unpaid) w₁ in
          let w₃ = after_stock "abort" true (Stock.run id items Action.abort st).1 w₂ in
          let w₄ =
            after_payment "abort" true
              (Payment.run id user cost Action.abort (held id user cost pay unpaid)).1 w₃ in
          let (refused, end) =
            two_phase_answered env stock_step payment_step id mine (failed "insufficient_stock")
              (event "prepared") (event "aborted") (event "aborted") w₃ w₄ false "checkout" tx_name
              w₁ w₂ refl
              (
                stock_aborted id order user line lines cost w₂ _
                    (stock_unkept_undone id items st unknown),
                payment_aborted id order user line lines cost w₃ _
                    (payment_held_undone id user cost pay unpaid somebody),
                refl,
                refl,
              )
              s free
              (stock_refused id order user line lines cost s.world _
                (stock_unkept id items st unknown fits))
              (payment_prepared id order user line lines cost w₁ _
                (payment_held id user cost pay unpaid rich)) in
          (
            refused,
            rw end (level-unkept_undone id items st unknown apart j fits),
            rw end (credit-held_undone id user cost pay unpaid somebody j rich),
          )

      credit_short :
          enough items st.items ≡ true
          → affords cost (available user pay.users) ≡ false
          → Kept false
      unfolding StockCommands.record_metric PaymentCommands.record_metric all_prepared is_event
      credit_short fits rich =
          let w₁ = after_stock "prepare" true (kept id items st unknown) s.world in
          let w₂ = after_payment "prepare" false (pay) w₁ in
          let w₃ =
            after_stock "abort" true (Stock.run id items Action.abort (kept id items st unknown)).1
              w₂ in
          let w₄ = after_payment "abort" true (Payment.run id user cost Action.abort pay).1 w₃ in
          let (refused, end) =
            two_phase_answered env stock_step payment_step id mine (event "prepared")
              (failed "insufficient_credit") (event "aborted") (event "aborted") w₃ w₄ false
              "checkout" tx_name w₁ w₂ refl
              (
                stock_aborted id order user line lines cost w₂ _
                    (stock_kept_undone id items st unknown),
                payment_aborted id order user line lines cost w₃ _
                    (payment_unheld_undone id user cost pay unpaid somebody),
                refl,
                refl,
              )
              s free
              (stock_prepared id order user line lines cost s.world _
                (stock_kept id items st unknown fits))
              (payment_refused id order user line lines cost w₁ _
                (payment_unheld id user cost pay unpaid rich)) in
          (
            refused,
            rw end (level-kept_undone id items st unknown apart j fits),
            rw end (credit-unheld_undone id user cost pay unpaid somebody j rich),
          )

      neither_serves :
          enough items st.items ≡ false
          → affords cost (available user pay.users) ≡ false
          → Kept false
      unfolding StockCommands.record_metric PaymentCommands.record_metric all_prepared is_event
      neither_serves fits rich =
          let w₁ = after_stock "prepare" false (st) s.world in
          let w₂ = after_payment "prepare" false (pay) w₁ in
          let w₃ = after_stock "abort" true (Stock.run id items Action.abort st).1 w₂ in
          let w₄ = after_payment "abort" true (Payment.run id user cost Action.abort pay).1 w₃ in
          let (refused, end) =
            two_phase_answered env stock_step payment_step id mine (failed "insufficient_stock")
              (failed "insufficient_credit") (event "aborted") (event "aborted") w₃ w₄ false
              "checkout" tx_name w₁ w₂ refl
              (
                stock_aborted id order user line lines cost w₂ _
                    (stock_unkept_undone id items st unknown),
                payment_aborted id order user line lines cost w₃ _
                    (payment_unheld_undone id user cost pay unpaid somebody),
                refl,
                refl,
              )
              s free
              (stock_refused id order user line lines cost s.world _
                (stock_unkept id items st unknown fits))
              (payment_refused id order user line lines cost w₁ _
                (payment_unheld id user cost pay unpaid rich)) in
          (
            refused,
            rw end (level-unkept_undone id items st unknown apart j fits),
            rw end (credit-unheld_undone id user cost pay unpaid somebody j rich),
          )

      -- A checkout by two-phase commit, with a saga id that neither service knows, of one or more items with
      -- different names by a user with a name, where no circuit breaker refuses and every command is
      -- answered: if there is enough of each item and the user can pay, it succeeds, every item goes
      -- down by what the checkout lists of it and the user's credit by the cost, and nobody else's changes;
      -- otherwise it fails and every level and every credit is as before.
      pub checkout_conserves :
          Kept (enough items st.items && affords cost (available user pay.users))
      checkout_conserves = elim (Bool-cases (enough items st.items)) [
        | inl fits ↦ elim (Bool-cases (affords cost (available user pay.users))) [
          | inl rich ↦ rw (fits, rich) (both_serve fits rich)
          | inr poor ↦ rw (fits, poor) (credit_short fits poor)
        ]
        | inr short ↦ elim (Bool-cases (affords cost (available user pay.users))) [
          | inl rich ↦ rw short (stock_short short rich)
          | inr poor ↦ rw short (neither_serves short poor)
        ]
      ]
