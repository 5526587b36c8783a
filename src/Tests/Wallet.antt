-- ===== src/Tests/Wallet.antt =====
-- The payment service at concrete inputs.
use dds.Base.{◌≡◌, refl, some, [], ◌∷◌, arith, none}
use dds.Base.Int.{pos, negsuc, ◌+ℤ◌, ◌-ℤ◌, ◌≤ℤ◌}
use dds.Base.Dict.{lookup, insert}
use dds.Stock.{Action}
use dds.Payment.{Payment, run, hincrby, available}
use dds.Payment.Commands.{Service, handle_nats_message, handle_command, parse_amount}
use dds.Stock.Commands.{action_of, parse_ttl}
use dds.Payment.Expiry.{run_for}
use dds.Faults.{maybe_inject}
use dds.Orchestrator.Value.{Context, Value, get_text}
use dds.Orchestrator.Transport.{fields}
use dds.Payment.Undo.{credit, credit_is_given_back, never_overdraws}

abbrev pub wallet : Payment
wallet = record {
  users = ("ann", record { available_credit = some (pos 30); held_credit = some (pos 0) }) ∷ [];
  sagas = [];
  amounts = [];
  locks = [];
}

charged :
    available "ann" (run "saga-1" "ann" (pos 12) Action.prepare wallet).1.users ≡ some (pos 18)
unfolding run available hincrby lookup insert ◌+ℤ◌ ◌-ℤ◌
charged = refl

-- The commit that finds no prepare charges without looking at the credit.
overdrawn_by_commit :
    available "ann" (run "saga-1" "ann" (pos 40) Action.commit wallet).1.users ≡ some (negsuc 9)
unfolding run available hincrby lookup insert ◌+ℤ◌ ◌-ℤ◌
overdrawn_by_commit = refl

credit_is_given_back_example :
    (credit "ann"
        (run "saga-1" "ann"
          (pos 12)
          Action.abort
          (run "saga-1" "ann" (pos 12) Action.prepare wallet).1).1.users
      ≡ credit "ann" wallet.users)
    × (credit "ann"
          (run "saga-1" "ann"
            (pos 12)
            Action.compensate
            (run "saga-1" "ann" (pos 12) Action.execute wallet).1).1.users
        ≡ credit "ann" wallet.users)
unfolding lookup
credit_is_given_back_example =
    credit_is_given_back "saga-1" "ann" (pos 12) wallet "ann" refl refl refl

never_overdraws_example :
    (pos 0 ≤ℤ credit "ann" (run "saga-1" "ann" (pos 12) Action.prepare wallet).1.users)
    × (pos 0 ≤ℤ credit "ann" (run "saga-1" "ann" (pos 12) Action.execute wallet).1.users)
unfolding credit available lookup
never_overdraws_example = never_overdraws "saga-1" "ann" (pos 12) wallet "ann" (omega arith)

abbrev service : Service
service = record { payment = wallet; action_counts = []; action_latency = [] }

answers_with_the_event :
    (handle_nats_message []
      (("action", Value.text "prepare")
        ∷ ("saga_id", Value.text "saga-1")
        ∷ ("user_id", Value.text "ann")
        ∷ ("amount", Value.number (pos 12))
        ∷ [])
      5
      service).0
    ≡ some (fields (some "prepared") none)
unfolding handle_nats_message handle_command action_of parse_ttl parse_amount run_for maybe_inject
    get_text lookup insert run available
answers_with_the_event = refl

-- A time to live of 0 raises after the charge, and the next delivery charges again.
abbrev unlocked : Context
unlocked =
    ("action", Value.text "prepare")
    ∷ ("saga_id", Value.text "saga-1")
    ∷ ("user_id", Value.text "ann")
    ∷ ("amount", Value.number (pos 12))
    ∷ ("ttl", Value.number (pos 0))
    ∷ []

charged_twice :
    let s = (handle_nats_message [] unlocked 5 service).1 in
    available "ann" (handle_nats_message [] unlocked 5 s).1.payment.users ≡ some (pos 6)
unfolding handle_nats_message handle_command action_of parse_ttl parse_amount run_for maybe_inject
    get_text lookup insert run available hincrby ◌+ℤ◌ ◌-ℤ◌
charged_twice = refl
