-- ===== src/Payment/Users/Answers.antt =====
-- What the payment endpoints answer, against each other.
use dds.Base.{
  ℕ, zero, suc, ◌+◌, ◌≤◌, ◌<◌, String, ◌==◌, eq_iff, ◌≡◌, refl, sym, ap, ◌∙◌, true, none, some,
  arith, leb, Bool-cases, inl, inr, if◌then◌else◌,
}
use dds.Base.Int.{ℤ, pos, ◌+ℤ◌, ◌-ℤ◌, ◌≤ℤ◌, ltb_ℤ, +ℤ_parts, -ℤ_parts, eq_of_parts, +ℤ_zero}
use dds.Base.Dict.{Dict, lookup, lookup_same, lookup-insert}
use dds.Base.Decimal.{str_nat, int, int-str_nat}
use dds.Batches.{Executed, set_keys, chunk_size}
use dds.Batches.Chunks.{batch_sets_each_key}
use dds.Payment.{User, hincrby, available, counted}
use dds.Payment.Users.{Answer, find_user, remove_credit, batch_user, batch_init_users}

abbrev pub user_of : ℤ → ℤ → User
user_of free held = record { available_credit = some free; held_credit = some held }

module _ (id : String) (free held amount : ℤ) (d : Dict User)
    (e : lookup id d ≡ some (user_of free held)) where
  changed : (n : ℤ) → lookup id (hincrby id n d) ≡ some (user_of (free +ℤ n) held)
  unfolding hincrby
  changed n = lookup_same id (counted n (lookup id d)) d ∙ rw e refl

  minus : free +ℤ (pos 0 -ℤ amount) ≡ free -ℤ amount
  minus = eq_of_parts _ _ (
      omega (arith, -ℤ_parts (pos 0) amount, -ℤ_parts free amount, +ℤ_parts free (pos 0 -ℤ amount)))

  -- A payment by a user whose hash is complete either answers that there is less available credit than is
  -- asked for, and changes nothing, or answers with the available credit that is left, which is the old one
  -- less the amount and not below zero; a later find then reports that together with the held credit.
  pub pay_then_find :
      let (answer, d') = remove_credit id amount (some d) in
      if ltb_ℤ free amount
      then ((answer ≡ Answer.below_zero) × (d' ≡ some d))
      else ((answer ≡ Answer.ok (free -ℤ amount))
          × (pos 0 ≤ℤ free -ℤ amount)
          × (find_user id d' none ≡ Answer.ok ((free -ℤ amount) +ℤ held)))
  unfolding remove_credit find_user available
  pay_then_find = elim (Bool-cases (ltb_ℤ free amount)) [
    | inl short ↦ rw (e, short) (refl, refl)
    | inr fits ↦
        rw (e, fits)
          (refl, ground (arith, -ℤ_parts free amount), rw (changed (pos 0 -ℤ amount), minus) refl)
  ]

-- Different numbers are different keys.
same_number : (i j : ℕ) → (str_nat i == str_nat j) ≡ true → i ≡ j
same_number i j h =
    let same : some (pos i) ≡ some (pos j) =
      sym (int-str_nat i) ∙ ap int ((eq_iff (str_nat i) (str_nat j)).0 h) ∙ int-str_nat j in
    cc

module _ (money : ℤ) (j : ℕ) where
  before_all :
      (count start : ℕ) (d : Dict User)
      → j < start
      → lookup (str_nat j) (set_keys (batch_user money) count start d) ≡ lookup (str_nat j) d
  unfolding set_keys batch_user
  before_all zero start d h = refl
  before_all (suc count) start d h =
      before_all count (start + 1) _ (omega arith)
      ∙ rw (lookup-insert) (elim (Bool-cases (str_nat start == str_nat j)) [
        | inl same ↦ absurd (omega (arith, same_number start j same))
        | inr apart ↦ rw apart refl
      ])

  among_all :
      (count start : ℕ) (d : Dict User)
      → start ≤ j
      → j < start + count
      → lookup (str_nat j) (set_keys (batch_user money) count start d)
        ≡ some (user_of money (pos 0))
  unfolding set_keys batch_user
  among_all zero start d low high = absurd (omega arith)
  among_all (suc count) start d low high = elim (Bool-cases (leb j start)) [
    | inl first ↦
        let here : j ≡ start = ground arith in
        before_all count (start + 1) _ (ground arith)
        ∙ rw here (lookup_same (str_nat start) (user_of money (pos 0)) d)
    | inr later ↦ among_all count (start + 1) _ (ground arith) (ground arith)
  ]

-- After a batch of `n` users whose pipelines are all executed, whatever the size of its chunks, each of the
-- users 0 to n - 1 is found, under the decimal text of its number, with exactly the starting money.
pub batch_then_find :
    (pipe : ℕ → Executed) (n size j : ℕ) (money : ℤ) (d : Dict User)
    → ((start : ℕ) → pipe start ≡ Executed.done)
    → j < n
    → find_user (str_nat j) (some (batch_init_users pipe n size money d).1) none ≡ Answer.ok money
unfolding batch_init_users find_user
batch_then_find pipe n size j money d all_done h =
    let positive : 0 < chunk_size size = ground arith in
    let set = batch_sets_each_key (batch_user money) pipe all_done n (chunk_size size) d positive in
    rw (set, among_all money j n 0 d (omega arith) (omega arith)) (ap Answer.ok (+ℤ_zero money))
