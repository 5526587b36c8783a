-- ===== src/Shop/Settlement.antt =====
-- What the stock and the payment service have after each way in which a two-phase commit can go.
use dds.Base.{
  String, ◌==◌, ◌≡◌, refl, sym, ap, ◌∙◌, true, false, none, some, List, [], Bool-cases, inl, inr,
  if◌then◌else◌, arith,
}
use dds.Base.Int.{ℤ, pos, ◌+ℤ◌, ◌-ℤ◌, +ℤ_parts, -ℤ_parts, eq_of_parts, +ℤ_zero}
use dds.Base.Dict.{lookup, lookup_same}
use dds.Stock
use dds.Stock.{Stock, Status, SagaKey, Action, enough, take_all, record_all}
use dds.Stock.Levels.{level, demand, level-take_all}
use dds.Stock.Stored.{Fresh}
use dds.Stock.Undo.{prepare_then_abort}
use dds.Payment
use dds.Payment.{Payment, affords, available}
use dds.Payment.Undo.{credit, credit-hincrby, abort_gives_back}

module _ (id : String) (items : List (String × ℤ)) (s : Stock)
    (new : lookup id s.sagas ≡ none) where
  abbrev pub kept : Stock
  kept = Stock.reserved id items [] s

  pub stock_kept :
      enough items s.items ≡ true → Stock.run id items Action.prepare s ≡ (some true, kept)
  unfolding Stock.run
  stock_kept fits = rw (new, fits) refl

  pub stock_unkept :
      enough items s.items ≡ false → Stock.run id items Action.prepare s ≡ (some false, s)
  unfolding Stock.run
  stock_unkept short = rw (new, short) refl

  abbrev pub sold : Stock
  sold = (Stock.committed_with id items (record_all items []) kept.items kept).1

  pub stock_sold : Stock.run id items Action.commit kept ≡ (some true, sold)
  unfolding Stock.run
  stock_sold = rw (lookup_same id (SagaKey.hash Status.prepared (record_all items [])) s.sagas) refl

  pub level-sold : (j : String) → level j sold.items +ℤ demand j items ≡ level j s.items
  level-sold j = level-take_all j items s.items

  pub stock_kept_undone :
      Stock.run id items Action.abort kept ≡ (some true, (Stock.run id items Action.abort kept).1)
  unfolding Stock.run
  stock_kept_undone =
      rw (lookup_same id (SagaKey.hash Status.prepared (record_all items [])) s.sagas) refl

  pub stock_unkept_undone :
      Stock.run id items Action.abort s ≡ (some true, (Stock.run id items Action.abort s).1)
  unfolding Stock.run
  stock_unkept_undone = rw new refl

  module _ (apart : Fresh [] items) (j : String) where
    pub level-kept_undone :
        enough items s.items ≡ true
        → level j (Stock.run id items Action.abort kept).1.items ≡ level j s.items
    level-kept_undone fits =
        ap (λ r. level j (Stock.run id items Action.abort r.1).1.items) (sym (stock_kept fits))
        ∙ prepare_then_abort id items s j new apart

    pub level-unkept_undone :
        enough items s.items ≡ false
        → level j (Stock.run id items Action.abort s).1.items ≡ level j s.items
    level-unkept_undone short =
        ap (λ r. level j (Stock.run id items Action.abort r.1).1.items) (sym (stock_unkept short))
        ∙ prepare_then_abort id items s j new apart

module _ (id user : String) (cost : ℤ) (p : Payment) (new : lookup id p.sagas ≡ none) where
  abbrev pub held : Payment
  held = Payment.reserved id user cost p

  pub payment_held :
      affords cost (available user p.users) ≡ true
      → Payment.run id user cost Action.prepare p ≡ (some true, held)
  unfolding Payment.run
  payment_held fits = rw (new, fits) refl

  pub payment_unheld :
      affords cost (available user p.users) ≡ false
      → Payment.run id user cost Action.prepare p ≡ (some false, p)
  unfolding Payment.run
  payment_unheld short = rw (new, short) refl

  abbrev pub paid : Payment
  paid = (Payment.committed_with id user cost (some cost) held.users held).1

  pub payment_paid : Payment.run id user cost Action.commit held ≡ (some true, paid)
  unfolding Payment.run
  payment_paid = rw (lookup_same id (Payment.SagaKey.hash Status.prepared (some cost)) p.sagas) refl

  -- what the user pays, as every user sees it
  abbrev pub charge_for : String → ℤ
  charge_for j = if user == j then cost else pos 0

  less : (c : ℤ) → (c +ℤ (pos 0 -ℤ cost)) +ℤ cost ≡ c
  less c = eq_of_parts _ _ (
      omega (
        arith,
        -ℤ_parts (pos 0) cost,
        +ℤ_parts c (pos 0 -ℤ cost),
        +ℤ_parts (c +ℤ (pos 0 -ℤ cost)) cost,
      ))

  pub credit-held : (j : String) → credit j held.users +ℤ charge_for j ≡ credit j p.users
  credit-held j =
      let charged = credit-hincrby user j (pos 0 -ℤ cost) p.users in
      elim (Bool-cases (user == j)) [
        | inl own ↦ rw own (ap (λ c. c +ℤ cost) (rw own at charged) ∙ less (credit j p.users))
        | inr apart ↦ rw apart (ap (λ c. c +ℤ pos 0) (rw apart at charged) ∙ +ℤ_zero _)
      ]

  pub credit-paid : (j : String) → credit j paid.users +ℤ charge_for j ≡ credit j p.users
  credit-paid j = credit-held j

  module _ (somebody : (user == "") ≡ false) where
    pub payment_held_undone :
        Payment.run id user (pos 0) Action.abort held
        ≡ (some true, (Payment.run id user cost Action.abort held).1)
    unfolding Payment.run
    payment_held_undone =
        rw (somebody, lookup_same id (Payment.SagaKey.hash Status.prepared (some cost)) p.sagas)
          refl

    pub payment_unheld_undone :
        Payment.run id user (pos 0) Action.abort p
        ≡ (some true, (Payment.run id user cost Action.abort p).1)
    unfolding Payment.run
    payment_unheld_undone = rw (somebody, new) refl

    pub credit-held_undone :
        (j : String)
        → affords cost (available user p.users) ≡ true
        → credit j (Payment.run id user cost Action.abort held).1.users ≡ credit j p.users
    credit-held_undone j fits =
        ap (λ r. credit j (Payment.run id user cost Action.abort r.1).1.users)
          (sym (payment_held fits))
        ∙ abort_gives_back id user cost p j somebody new

    pub credit-unheld_undone :
        (j : String)
        → affords cost (available user p.users) ≡ false
        → credit j (Payment.run id user cost Action.abort p).1.users ≡ credit j p.users
    credit-unheld_undone j short =
        ap (λ r. credit j (Payment.run id user cost Action.abort r.1).1.users)
          (sym (payment_unheld short))
        ∙ abort_gives_back id user cost p j somebody new
