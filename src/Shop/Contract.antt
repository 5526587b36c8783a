-- ===== src/Shop/Contract.antt =====
-- What a checkout promises, whatever its protocol.
use dds.Base.{String, ◌==◌, ◌≡◌, Bool, true, false, List, ◌∷◌, if◌then◌else◌}
use dds.Base.Int.{ℤ, pos, ◌+ℤ◌}
use dds.Orchestrator.Executor.{Outcome, success, failure}
use dds.Stock.Levels.{level, demand}
use dds.Payment.Undo.{credit}
use dds.Shop.{Shop}

module _ (user : String) (line : String × ℤ) (lines : List (String × ℤ)) (cost : ℤ) where
  -- A sale, or nothing at all, from one state of the services to another.
  abbrev pub Conserved : String → Bool → Outcome → Shop → Shop → Type 0
  Conserved j true outcome w w' =
      (outcome ≡ success)
      × (level j w'.stock.stock.items +ℤ demand j (line ∷ lines) ≡ level j w.stock.stock.items)
      × (credit j w'.payment.payment.users +ℤ (if user == j then cost else pos 0)
          ≡ credit j w.payment.payment.users)
  Conserved j false outcome w w' =
      ((reason : String) × (outcome ≡ failure reason))
      × (level j w'.stock.stock.items ≡ level j w.stock.stock.items)
      × (credit j w'.payment.payment.users ≡ credit j w.payment.payment.users)
