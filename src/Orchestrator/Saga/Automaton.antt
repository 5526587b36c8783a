-- ===== src/Orchestrator/Saga/Automaton.antt =====
-- The saga protocol as an automaton over the trace of effects.
use dds.Base.{String, ◌==◌, Bool, true, false, ◌&&◌, ◌||◌, List, [], ◌∷◌, if◌then◌else◌}
use dds.Orchestrator.Transport.{Reply, is_event, has_reason}
use dds.Orchestrator.System.{Effect}
use dds.Orchestrator.Executor.{reply_of}

-- `executing stack ok`: the names of the steps that were carried out or timed out, the latest first,
-- and whether every step was carried out. `compensating stack`: those that are left to undo.
pub data Phase : Type 0 where
  idle wrong : Phase
  executing : List String → Bool → Phase
  compensating : List String → Phase
  finished : Bool → Phase

-- the answer to an execute: the step is to be undone if the saga fails
abbrev pub may_have_run : Reply → Bool
may_have_run reply = is_event "executed" reply || has_reason "timeout" reply

-- The steps to undo are taken from the latest to the first; each is sent compensate until it answers
-- that it is compensated or is given up; the saga ends when none is left.
unfoldable pub advance : Phase → Effect → Phase
advance Phase.idle (Effect.logged step) =
    if step == "EXECUTING"
    then Phase.executing [] true
    else if step == "FAILED"
    then Phase.finished false
    else Phase.wrong
advance (Phase.executing stack ok) (Effect.sent name action a) =
    if action == "execute"
    then Phase.executing (if may_have_run (reply_of a) then name ∷ stack else stack)
        (ok && is_event "executed" (reply_of a))
    else Phase.wrong
advance (Phase.executing stack true) (Effect.logged step) =
    if step == "COMPLETED" then Phase.finished true else Phase.wrong
advance (Phase.executing stack false) (Effect.logged step) =
    if step == "COMPENSATING" then Phase.compensating stack else Phase.wrong
advance (Phase.compensating (top ∷ stack)) (Effect.sent name action a) =
    if action == "compensate" && name == top
    then (if is_event "compensated" (reply_of a)
        then Phase.compensating stack
        else Phase.compensating (top ∷ stack))
    else Phase.wrong
advance (Phase.compensating (top ∷ stack)) (Effect.dead name action written) =
    if action == "compensate" && name == top then Phase.compensating stack else Phase.wrong
advance (Phase.compensating []) (Effect.logged step) =
    if step == "FAILED" then Phase.finished false else Phase.wrong
advance _ _ = Phase.wrong

unfoldable pub phase : List Effect → Phase
phase [] = Phase.idle
phase (e ∷ t) = advance (phase t) e
