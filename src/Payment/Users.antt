-- ===== src/Payment/Users.antt =====
-- payment/app.py: the users behind the HTTP endpoints, with the scripts payment_add_direct.lua and
-- payment_subtract_direct.lua. A database that does not answer is `none`; the id of a new user is an argument.
pub mod Answers
use dds.Base.{ℕ, String, Bool, true, Option, none, some, if◌then◌else◌}
use dds.Base.Int.{ℤ, pos, ◌+ℤ◌, ◌-ℤ◌, ltb_ℤ}
use dds.Base.Dict.{Dict, lookup, insert}
use dds.Base.Decimal.{str_nat}
use dds.Batches.{Executed, batch_init, chunk_size}
use dds.Payment.{User, hincrby, available}

-- A response with a body, a 400 with its detail, or an exception that becomes a 500.
pub data Answer (A : Type 0) : Type 0 where
  ok : A → Answer A
  user_not_found db_error below_zero : Answer A
  server_error : Answer A

-- create_user
unfoldable pub create_user : String → Option (Dict User) → Answer String × Option (Dict User)
create_user key none = (Answer.db_error, none)
create_user key (some d) = (
  Answer.ok key,
  some (insert key (record { available_credit = some (pos 0); held_credit = some (pos 0) }) d),
)

-- the credit, available and held; a field that is missing is a KeyError
abbrev pub credit : Option ℤ → Option ℤ → Answer ℤ
credit none held = Answer.server_error
credit (some free) none = Answer.server_error
credit (some free) (some held) = Answer.ok (free +ℤ held)

abbrev pub report : Option User → Answer ℤ
report none = Answer.user_not_found
report (some user) = credit user.available_credit user.held_credit

-- find_user: the master, and where it does not answer the replica, if there is one
unfoldable pub find_user : String → Option (Dict User) → Option (Option (Dict User)) → Answer ℤ
find_user id (some d) replica = report (lookup id d)
find_user id none none = Answer.db_error
find_user id none (some none) = Answer.db_error
find_user id none (some (some d)) = report (lookup id d)

abbrev pub add_if : Option User → String → ℤ → Dict User → Answer Bool × Dict User
add_if none id amount d = (Answer.user_not_found, d)
add_if (some user) id amount d = (Answer.ok true, hincrby id amount d)

-- add_credit: {"done": true}
unfoldable pub add_credit : String → ℤ → Option (Dict User) → Answer Bool × Option (Dict User)
add_credit id amount none = (Answer.db_error, none)
add_credit id amount (some d) =
    let (answer, d') = add_if (lookup id d) id amount d in (answer, some d')

abbrev pub subtract : Option ℤ → String → ℤ → Dict User → Answer ℤ × Dict User
subtract none id amount d = (Answer.user_not_found, d)
subtract (some free) id amount d =
    if ltb_ℤ free amount
    then (Answer.below_zero, d)
    else (Answer.ok (free -ℤ amount), hincrby id (pos 0 -ℤ amount) d)

-- remove_credit
unfoldable pub remove_credit : String → ℤ → Option (Dict User) → Answer ℤ × Option (Dict User)
remove_credit id amount none = (Answer.db_error, none)
remove_credit id amount (some d) =
    let (answer, d') = subtract (available id d) id amount d in (answer, some d')

-- what batch_init_users sets for the user `i`
unfoldable pub batch_user : ℤ → ℕ → Dict User → Dict User
batch_user starting_money i d =
    insert (str_nat i)
      (record { available_credit = some starting_money; held_credit = some (pos 0) }) d

-- batch_init_users
unfoldable pub batch_init_users : (ℕ → Executed) → ℕ → ℕ → ℤ → Dict User → Bool × Dict User
batch_init_users pipe n size starting_money d =
    batch_init (batch_user starting_money) pipe n (chunk_size size) d
