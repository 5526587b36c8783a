-- ===== src/Shop/Agreement.antt =====
-- Both protocols of a checkout against each other, across the services.
use dds.Base.{String, ◌==◌, ◌≡◌, sym, ap, ◌∙◌, Bool, true, false, none, List, [], ◌∷◌}
use dds.Base.Int.{ℤ, +ℤ_cancel}
use dds.Base.Dict.{lookup}
use dds.Orchestrator.Value.{Context}
use dds.Orchestrator.System.{Sys}
use dds.Orchestrator.Executor.{Outcome, success, failure, check_circuit_breakers}
use dds.Orchestrator.TwoPhase
use dds.Orchestrator.Saga
use dds.Order.{checkout_tx}
use dds.Stock.Levels.{level}
use dds.Stock.Stored.{Fresh}
use dds.Payment.Undo.{credit}
use dds.Shop.{Shop, env}
use dds.Shop.Deliveries.{context}
use dds.Shop.Contract.{Conserved}
use dds.Shop.Conservation.{checkout_conserves}
use dds.Shop.SagaConservation.{saga_conserves}

abbrev pub succeeds : Outcome → Bool
succeeds success = true
succeeds (failure error) = false

-- What two runs leave, as everybody sees it.
abbrev pub Agree : String → Outcome × Sys Shop → Outcome × Sys Shop → Type 0
Agree j (outcome, s) (outcome', s') =
    (succeeds outcome ≡ succeeds outcome')
    × (level j s.world.stock.stock.items ≡ level j s'.world.stock.stock.items)
    × (credit j s.world.payment.payment.users ≡ credit j s'.world.payment.payment.users)

module _ (user : String) (line : String × ℤ) (lines : List (String × ℤ)) (cost : ℤ) (j : String)
    (w : Shop) where
  agreed :
      (b : Bool) (r r' : Outcome × Sys Shop)
      → Conserved user line lines cost j b r.0 w r.1.world
      → Conserved user line lines cost j b r'.0 w r'.1.world
      → Agree j r r'
  agreed true (outcome, s) (outcome', s') (o, l, c) (o', l', c') =
      (ap succeeds (o ∙ sym o'), +ℤ_cancel _ _ _ (l ∙ sym l'), +ℤ_cancel _ _ _ (c ∙ sym c'))
  agreed false (outcome, s) (outcome', s') ((why, o), l, c) ((why', o'), l', c') =
      (ap succeeds o ∙ sym (ap succeeds o'), l ∙ sym l', c ∙ sym c')

module _ (id order user : String) (line : String × ℤ) (lines : List (String × ℤ)) (cost : ℤ) where
  abbrev mine : Context
  mine = context id order user line lines cost

  -- From the same state, with a saga id of which neither service has anything, one or more items with
  -- different names and a user with a name, where no circuit breaker refuses and every command is answered,
  -- a two-phase commit and a saga both succeed or both fail, and they leave every level and every credit
  -- alike.
  pub protocols_agree :
      (tx_name j : String) (s : Sys Shop)
      → (check_circuit_breakers env checkout_tx.steps s).0 ≡ none
      → lookup id s.world.stock.stock.sagas ≡ none
      → lookup id s.world.payment.payment.sagas ≡ none
      → lookup id s.world.stock.stock.amounts ≡ none
      → lookup id s.world.payment.payment.amounts ≡ none
      → Fresh [] (line ∷ lines)
      → (user == "") ≡ false
      → Agree j
          (TwoPhase.execute env checkout_tx id mine tx_name s)
          (Saga.execute env checkout_tx id mine tx_name s)
  protocols_agree tx_name j s free unknown unpaid unstored uncharged apart somebody =
      agreed user line lines cost j s.world _ (TwoPhase.execute env checkout_tx id mine tx_name s)
        (Saga.execute env checkout_tx id mine tx_name s)
        (checkout_conserves id order user line lines cost tx_name s free unknown unpaid j apart
          somebody)
        (saga_conserves id order user line lines cost tx_name s free unknown unpaid unstored
          uncharged j apart somebody)
