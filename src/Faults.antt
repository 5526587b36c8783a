-- ===== src/Faults.antt =====
-- common/fault_injection.py: the faults that can be set at named points of a service's handlers.
pub mod Settings
use Prim.Native.String.{◌++◌ as concat}
use dds.Base.{ℕ, String, ◌==◌, Option, none, some, [], if◌then◌else◌}
use dds.Base.Dict.{Dict, lookup, insert, erase}

pub record FaultRule : Type 0 where
  pub point : String
  pub action : String
  pub value : ℕ

-- What an injection does: nothing, a wait in milliseconds, an exception, or the end of the process.
pub data Injected : Type 0 where
  carry_on crash : Injected
  delay : ℕ → Injected
  raise : String → Injected

unfoldable pub set_fault : String → String → ℕ → Dict FaultRule → Dict FaultRule
set_fault point action value rules =
    insert point (record { point = point; action = action; value = value }) rules

-- no point, or the empty one, clears all
unfoldable pub clear_fault : Option String → Dict FaultRule → Dict FaultRule
clear_fault none rules = []
clear_fault (some point) rules = if point == "" then [] else erase point rules

abbrev inject : String → Option FaultRule → Injected
inject point none = Injected.carry_on
inject point (some rule) =
    if rule.action == "crash"
    then Injected.crash
    else if rule.action == "delay"
    then Injected.delay rule.value
    else if rule.action == "error"
    then Injected.raise (concat "Injected fault at " point)
    else Injected.carry_on

unfoldable pub maybe_inject : String → Dict FaultRule → Injected
maybe_inject point rules = inject point (lookup point rules)
