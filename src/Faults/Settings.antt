-- ===== src/Faults/Settings.antt =====
-- common/fault_injection.py and the endpoints of stock/app.py and payment/app.py that set faults: where the
-- rules come from, and how they are shown.
use dds.Base.{
  ℕ, String, ◌==◌, eq_refl, ◌≡◌, refl, false, Option, none, some, List, [], ◌∷◌, Bool-cases, inl,
  inr, if◌then◌else◌,
}
use dds.Base.Int.{ℤ, pos, negsuc}
use dds.Base.Dict.{Dict, lookup, insert, lookup-insert, lookup-erase, lookup_same}
use dds.Base.Split.{split}
use dds.Base.Decimal.{int}
use dds.Faults.{FaultRule, Injected, set_fault, clear_fault, maybe_inject}

-- a delay below zero does not wait
abbrev delay_of : ℤ → ℕ
delay_of (pos n) = n
delay_of (negsuc n) = 0

abbrev with_value : String → String → Option ℤ → Option (Dict FaultRule)
with_value point action none = none
with_value point action (some value) = some (set_fault point action (delay_of value) [])

abbrev parts_rule : List String → Option (Dict FaultRule)
parts_rule (point ∷ action ∷ value ∷ rest) = with_value point action (int value)
parts_rule (point ∷ action ∷ []) = some (set_fault point action 0 [])
parts_rule _ = some []

-- `_load_from_env`, with the value of FAULT_INJECT: none is a ValueError
unfoldable pub load_from_env : String → Option (Dict FaultRule)
load_from_env raw = if raw == "" then some [] else parts_rule (split ":" raw)

-- get_faults: the rules as they are shown
unfoldable pub get_faults : Dict FaultRule → Dict (String × ℕ)
get_faults [] = []
get_faults ((point, rule) ∷ rest) = (point, (rule.action, rule.value)) ∷ get_faults rest

lookup-get_faults :
    (point : String) (rules : Dict FaultRule) (rule : FaultRule)
    → lookup point rules ≡ some rule
    → lookup point (get_faults rules) ≡ some (rule.action, rule.value)
unfolding lookup get_faults
lookup-get_faults point [] rule e = cc
lookup-get_faults point ((p, r) ∷ rest) rule e = elim (Bool-cases (p == point)) [
  | inl same ↦ let own : some r ≡ some rule = rw same at e in rw same (cc)
  | inr apart ↦ rw apart (lookup-get_faults point rest rule (rw apart at e))
]

-- A fault that is set is shown with its action and its value; every other point injects what it did before;
-- and once the fault is cleared, its point, which has a name, injects nothing.
pub fault_is_set_and_cleared :
    (point other action : String) (value : ℕ) (rules : Dict FaultRule)
    → (point == "") ≡ false
    → (point == other) ≡ false
    → let rules' = set_fault point action value rules in
      (lookup point (get_faults rules') ≡ some (action, value))
      × (maybe_inject other rules' ≡ maybe_inject other rules)
      × (maybe_inject point (clear_fault (some point) rules') ≡ Injected.carry_on)
      × (maybe_inject other (clear_fault (some point) rules') ≡ maybe_inject other rules)
unfolding set_fault clear_fault maybe_inject
fault_is_set_and_cleared point other action value rules named apart =
    let rule : FaultRule = record { point = point; action = action; value = value } in
    (
      lookup-get_faults point (insert point rule rules) rule (lookup_same point rule rules),
      rw (lookup-insert, apart) refl,
      rw (named, lookup-erase, eq_refl point) refl,
      rw (named, lookup-erase, apart, lookup-insert, apart) refl,
    )
