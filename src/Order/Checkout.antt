-- ===== src/Order/Checkout.antt =====
-- order/app.py: the checkout of an order. `begin` goes to the first await after the claim, and what is
-- left is done by `resume`, at a later state of the database. The saga id is an argument; the execution of
-- the saga and the wait for another instance's result are steps in between.
use dds.Base.{ℕ, String, ◌==◌, Bool, Option, none, some, List, [], ◌∷◌, if◌then◌else◌}
use dds.Base.Int.{ℤ}
use dds.Base.Split.{split_once}
use dds.Base.Decimal.{int}
use dds.Orchestrator.Value.{Context}
use dds.Orchestrator.Transport.{Env}
use dds.Orchestrator.Executor.{Outcome, success, failure}
use dds.Orchestrator.Core.{Orchestrator, Result, execute}
use dds.Order.{checkout_context}
use dds.Order.Store.{
  OrderHash, Claim, Db, claim_of, set_claim, drop_claim, load_and_claim, mark_paid,
}

abbrev pub with_line : String → Option ℤ → Option (List (String × ℤ)) → Option (List (String × ℤ))
with_line id none rest = none
with_line id (some quantity) none = none
with_line id (some quantity) (some rest) = some ((id, quantity) ∷ rest)

abbrev pub add_line :
    Option (String × String) → Option (List (String × ℤ)) → Option (List (String × ℤ))
add_line none rest = none
add_line (some (id, quantity)) rest = with_line id (int quantity) rest

-- item_id, quantity = raw_item.split(":", 1), and int(quantity); none is a ValueError
unfoldable pub parse_lines : List String → Option (List (String × ℤ))
parse_lines [] = some []
parse_lines (raw ∷ raws) = add_line (split_once ":" raw) (parse_lines raws)

-- The response: "Checkout successful", a 400 with its detail, or an exception that becomes a 500.
pub data Answer : Type 0 where
  successful : Answer
  not_found no_items in_progress server_error : Answer
  checkout_failed : String → Answer

-- What a checkout has to do after its claim: it answers; it drops the claim of a paid order and answers
-- success; it leaves a failed claim for an order with no items; it looks at the claim of another; or it
-- executes the saga.
pub data Next : Type 0 where
  respond : Answer → Next
  release refuse look : Next
  run : Context → Next

abbrev pub proceed : String → Bool → String → List (String × ℤ) → ℤ → Next
proceed id acquired user [] cost = if acquired then Next.refuse else Next.respond Answer.no_items
proceed id acquired user (line ∷ lines) cost =
    if acquired then Next.run (checkout_context id user (line ∷ lines) cost) else Next.look

abbrev pub plan :
    String → Bool → Option (List (String × ℤ)) → Option ℤ → Option String → Option String → Next
plan id acquired none cost user paid = Next.respond Answer.server_error
plan id acquired (some lines) none user paid = Next.respond Answer.server_error
plan id acquired (some lines) (some cost) none paid = Next.respond Answer.server_error
plan id acquired (some lines) (some cost) (some user) none = Next.respond Answer.server_error
plan id acquired (some lines) (some cost) (some user) (some paid) =
    if paid == "true"
    then (if acquired then Next.release else Next.respond Answer.successful)
    else proceed id acquired user lines cost

abbrev pub planned : String → Option (OrderHash × List String × Bool) → Next
planned id none = Next.respond Answer.not_found
planned id (some (order, raws, acquired)) =
    plan id acquired (parse_lines raws) order.total_cost order.user_id order.paid

-- checkout, to the first await after the claim
unfoldable pub begin : String → String → ℕ → Db → Next × Db
begin id saga_id now db =
    let (loaded, db') = load_and_claim id saga_id now db in (planned id loaded, db')

abbrev pub answer_of : Outcome → Answer
answer_of success = Answer.successful
answer_of (failure error) = Answer.checkout_failed error

-- the claim of another checkout: an answer, or the saga to wait for
pub data Seen : Type 0 where
  told : Answer → Seen
  awaits : String → Seen

abbrev pub read_claim : Option Claim → Seen
read_claim none = Seen.told Answer.in_progress
read_claim (some (Claim.success saga_id)) = Seen.told Answer.successful
read_claim (some (Claim.failed error)) = Seen.told (Answer.checkout_failed error)
read_claim (some (Claim.processing saga_id)) =
    if saga_id == "" then Seen.told Answer.in_progress else Seen.awaits saga_id

unfoldable pub look_at : String → ℕ → Db → Seen
look_at id now db = read_claim (claim_of id now db)

-- if acquired: await db.delete(idempotency_key)
unfoldable pub finish_release : String → Db → Answer × Db
finish_release id db = (Answer.successful, drop_claim id db)

unfoldable pub finish_refuse : String → ℕ → Db → Answer × Db
finish_refuse id now db = (Answer.no_items, set_claim id (Claim.failed "no_items") 60 now db)

-- the result is persisted, and answered
unfoldable pub persist : String → String → Outcome → ℕ → Db → Answer × Db
persist id saga_id success now db =
    (Answer.successful, mark_paid id (set_claim id (Claim.success saga_id) 86400 now db))
persist id saga_id (failure error) now db =
    (Answer.checkout_failed error, set_claim id (Claim.failed error) 60 now db)

abbrev outcome_of : Option Result → Outcome
outcome_of none = failure "Unknown transaction: checkout"
outcome_of (some result) = result.outcome

abbrev awaited : (String → Outcome) → Seen → Answer
awaited wait (Seen.told answer) = answer
awaited wait (Seen.awaits saga_id) = answer_of (wait saga_id)

-- The whole handler, with nothing else in between: `now` is the time at its start, `later` that at its end,
-- and `wait` what the wait for a saga brings.
module _ {W : Type 0} (env : Env W) (wait : String → Outcome) (now later : ℕ) where
  abbrev pub resume : String → String → Next × Db → Orchestrator W → Answer × Db × Orchestrator W
  resume id saga_id (Next.respond answer, db) o = (answer, db, o)
  resume id saga_id (Next.release, db) o =
      let (answer, db') = finish_release id db in (answer, db', o)
  resume id saga_id (Next.refuse, db) o =
      let (answer, db') = finish_refuse id later db in (answer, db', o)
  resume id saga_id (Next.look, db) o = (awaited wait (look_at id now db), db, o)
  resume id saga_id (Next.run context, db) o =
      let (result, o') = execute env "checkout" context saga_id o in
      let (answer, db') = persist id saga_id (outcome_of result) later db in (answer, db', o')

  -- checkout
  unfoldable pub checkout : String → String → Db → Orchestrator W → Answer × Db × Orchestrator W
  checkout id saga_id db o = resume id saga_id (begin id saga_id now db) o
