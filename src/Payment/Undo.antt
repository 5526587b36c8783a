-- ===== src/Payment/Undo.antt =====
-- What the payment service gives back, and that it lets nobody spend what they do not have.
use dds.Base.{
  String, ◌==◌, eq_iff, ◌≡◌, refl, sym, ap, ◌∙◌, true, false, Option, none, some, [], ◌∷◌, arith,
  Bool-cases, Option-cases, inl, inr, if◌then◌else◌,
}
use dds.Base.Int.{ℤ, pos, ◌+ℤ◌, ◌-ℤ◌, ◌≤ℤ◌, ltb_ℤ, +ℤ_parts, -ℤ_parts, eq_of_parts, zero_+ℤ}
use dds.Base.Dict.{Dict, lookup, insert, lookup-insert, lookup_same}
use dds.Stock.{Status, Action}
use dds.Payment.{
  User, SagaKey, Payment, run, hincrby, counted, available, available_of, affords, charge, give_all,
  reserve, reserved, deduct, deducted, prepare_from, execute_from,
}

abbrev or_zero : Option ℤ → ℤ
or_zero none = pos 0
or_zero (some a) = a

-- The credit of a user, where what is missing counts as none.
unfoldable pub credit : String → Dict User → ℤ
credit id d = or_zero (available id d)

credit_counted :
    (n : ℤ) (o : Option User)
    → or_zero (available_of (some (counted n o))) ≡ or_zero (available_of o) +ℤ n
credit_counted n none = sym (zero_+ℤ n)
credit_counted n (some user) = elim (Option-cases user.available_credit) [
  | inl missing ↦ rw missing (sym (zero_+ℤ n))
  | inr (a, e) ↦ rw e refl
]

pub credit-hincrby :
    (id j : String) (n : ℤ) (d : Dict User)
    → credit j (hincrby id n d) ≡ (if id == j then credit j d +ℤ n else credit j d)
unfolding credit hincrby available
credit-hincrby id j n d = elim (Bool-cases (id == j)) [
  | inl same ↦
      rw (lookup-insert id j (counted n (lookup id d)) d, same)
        (credit_counted n (lookup id d)
          ∙ ap (λ x. or_zero (available_of (lookup x d)) +ℤ n) ((eq_iff id j).0 same))
  | inr apart ↦ rw (lookup-insert id j (counted n (lookup id d)) d, apart) refl
]

paid_back : (a n : ℤ) → (a +ℤ (pos 0 -ℤ n)) +ℤ n ≡ a
paid_back a n =
    let taken = pos 0 -ℤ n in
    eq_of_parts _ _ (omega (arith, -ℤ_parts (pos 0) n, +ℤ_parts a taken, +ℤ_parts (a +ℤ taken) n))

-- A charge that is given back leaves every credit as it was.
credit_given_back :
    (user j : String) (amount : ℤ) (d : Dict User)
    → credit j (hincrby user amount (hincrby user (pos 0 -ℤ amount) d)) ≡ credit j d
credit_given_back user j amount d =
    let before = credit-hincrby user j (pos 0 -ℤ amount) d in
    let after = credit-hincrby user j amount (hincrby user (pos 0 -ℤ amount) d) in
    elim (Bool-cases (user == j)) [
      | inl same ↦
          (rw same at after)
          ∙ ap (λ c. c +ℤ amount) (rw same at before)
          ∙ paid_back (credit j d) amount
      | inr apart ↦ (rw apart at after) ∙ (rw apart at before)
    ]

left_over : (c n : ℤ) → ltb_ℤ c n ≡ false → pos 0 ≤ℤ c +ℤ (pos 0 -ℤ n)
left_over c n h = ground (arith, -ℤ_parts (pos 0) n, +ℤ_parts c (pos 0 -ℤ n))

affords-left : (o : Option ℤ) (n : ℤ) → affords n o ≡ true → pos 0 ≤ℤ or_zero o +ℤ (pos 0 -ℤ n)
affords-left none n h = cc
affords-left (some a) n h = elim (Bool-cases (ltb_ℤ a n)) [
  | inl short ↦ absurd (cc (rw short at h))
  | inr fits ↦ left_over a n fits
]

module _ (id user : String) (amount : ℤ) (s : Payment) where
  pub abort_gives_back :
      (j : String)
      → (user == "") ≡ false
      → lookup id s.sagas ≡ none
      → credit j (run id user amount Action.abort (run id user amount Action.prepare s).1).1.users
        ≡ credit j s.users
  unfolding run
  abort_gives_back j somebody new = elim (Bool-cases (affords amount (available user s.users))) [
    | inl fits ↦
        let ran : prepare_from id user amount (lookup id s.sagas) s
            ≡ (some true, reserved id user amount s) =
          rw (new, fits) refl in
        rw ran (
          rw (somebody, lookup_same id (SagaKey.hash Status.prepared (some amount)) s.sagas)
            (credit_given_back user j amount s.users))
    | inr short ↦
        let ran : prepare_from id user amount (lookup id s.sagas) s ≡ (some false, s) =
          rw (new, short) refl in
        rw ran (rw (somebody, new) refl)
  ]

  pub compensate_gives_back :
      (j : String)
      → (user == "") ≡ false
      → lookup id s.sagas ≡ none
      → lookup id s.amounts ≡ none
      → credit j
          (run id user amount Action.compensate (run id user amount Action.execute s).1).1.users
        ≡ credit j s.users
  unfolding run give_all insert
  compensate_gives_back j somebody new unstored =
      elim (Bool-cases (affords amount (available user s.users))) [
        | inl fits ↦
            let ran : execute_from id user amount (lookup id s.sagas) s
                ≡ (some true, deducted id user amount s) =
              rw (new, fits) refl in
            rw (ran, unstored)
              (rw
                (
                  somebody,
                  lookup_same id (SagaKey.string Status.executed) s.sagas,
                  lookup_same id ((user, amount) ∷ []) s.amounts,
                )
                (credit_given_back user j amount s.users))
        | inr short ↦
            let ran : execute_from id user amount (lookup id s.sagas) s ≡ (some false, s) =
              rw (new, short) refl in
            rw ran (rw (somebody, new, unstored) refl)
      ]

  -- For a saga that is new to the service and a command that names a user, an abort undoes the prepare and a
  -- compensation, with nothing else stored, undoes the execute: every user has the credit from before,
  -- whether the first command succeeded or not.
  pub credit_is_given_back :
      (j : String)
      → (user == "") ≡ false
      → lookup id s.sagas ≡ none
      → lookup id s.amounts ≡ none
      → (credit j (run id user amount Action.abort (run id user amount Action.prepare s).1).1.users
          ≡ credit j s.users)
        × (credit j
              (run id user amount Action.compensate (run id user amount Action.execute s).1).1.users
            ≡ credit j s.users)
  credit_is_given_back j somebody new unstored =
      (abort_gives_back j somebody new, compensate_gives_back j somebody new unstored)

  charge-nonneg :
      (j : String)
      → affords amount (available user s.users) ≡ true
      → pos 0 ≤ℤ credit j s.users
      → pos 0 ≤ℤ credit j (charge id user amount s.users)
  charge-nonneg j fits p =
      let charged = credit-hincrby user j (pos 0 -ℤ amount) s.users in
      elim (Bool-cases (user == j)) [
        | inl same ↦
            let enough : pos 0 ≤ℤ credit j s.users +ℤ (pos 0 -ℤ amount) =
              unfold credit in
              rw (← (eq_iff user j).0 same) (affords-left (available user s.users) amount fits) in
            rw (rw same at charged) enough
        | inr apart ↦ rw (rw apart at charged) p
      ]

  reserve-nonneg :
      (j : String)
      → pos 0 ≤ℤ credit j s.users
      → pos 0 ≤ℤ credit j (reserve id user amount s).1.users
  reserve-nonneg j p = elim (Bool-cases (affords amount (available user s.users))) [
    | inl fits ↦ rw fits (charge-nonneg j fits p)
    | inr short ↦ rw short p
  ]

  deduct-nonneg :
      (j : String) → pos 0 ≤ℤ credit j s.users → pos 0 ≤ℤ credit j (deduct id user amount s).1.users
  deduct-nonneg j p = elim (Bool-cases (affords amount (available user s.users))) [
    | inl fits ↦ rw fits (charge-nonneg j fits p)
    | inr short ↦ rw short p
  ]

  prepare-nonneg :
      (j : String) (k : Option SagaKey)
      → pos 0 ≤ℤ credit j s.users
      → pos 0 ≤ℤ credit j (prepare_from id user amount k s).1.users
  prepare-nonneg j (some (SagaKey.string status)) p = p
  prepare-nonneg j (some (SagaKey.hash Status.prepared stored)) p = p
  prepare-nonneg j (some (SagaKey.hash Status.committed stored)) p = p
  prepare-nonneg j (some (SagaKey.hash Status.aborted stored)) p = p
  prepare-nonneg j (some (SagaKey.hash Status.executed stored)) p = reserve-nonneg j p
  prepare-nonneg j (some (SagaKey.hash Status.compensated stored)) p = reserve-nonneg j p
  prepare-nonneg j none p = reserve-nonneg j p

  execute-nonneg :
      (j : String) (k : Option SagaKey)
      → pos 0 ≤ℤ credit j s.users
      → pos 0 ≤ℤ credit j (execute_from id user amount k s).1.users
  execute-nonneg j none p = deduct-nonneg j p
  execute-nonneg j (some (SagaKey.hash status stored)) p = p
  execute-nonneg j (some (SagaKey.string Status.executed)) p = p
  execute-nonneg j (some (SagaKey.string Status.compensated)) p = p
  execute-nonneg j (some (SagaKey.string Status.prepared)) p = deduct-nonneg j p
  execute-nonneg j (some (SagaKey.string Status.committed)) p = deduct-nonneg j p
  execute-nonneg j (some (SagaKey.string Status.aborted)) p = deduct-nonneg j p

  -- Neither a prepare nor an execute spends credit that is not there: a credit that is not below zero stays
  -- so, whatever the amount and whatever state the command found the saga in.
  pub never_overdraws :
      (j : String)
      → pos 0 ≤ℤ credit j s.users
      → (pos 0 ≤ℤ credit j (run id user amount Action.prepare s).1.users)
        × (pos 0 ≤ℤ credit j (run id user amount Action.execute s).1.users)
  unfolding run
  never_overdraws j p =
      (prepare-nonneg j (lookup id s.sagas) p, execute-nonneg j (lookup id s.sagas) p)
