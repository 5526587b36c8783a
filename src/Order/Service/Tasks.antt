-- ===== src/Order/Service/Tasks.antt =====
-- The checkouts that are under way for one order, counted.
use mathlib.Core.Path.{◌≡⟨◌⟩◌, ◌∎}
use dds.Base.{
  ℕ, ◌+◌, ◌≤◌, ◌<◌, String, ◌==◌, eq_iff, ◌≡◌, refl, sym, ap, Bool, true, false, ◌&&◌, Option, none,
  some, List, [], ◌∷◌, All, arith, Bool-cases, inl, inr, ltb, if◌then◌else◌,
}
use dds.Order.Store.{Claim, live_at, is_open}
use dds.Order.Service.{Work, Task, with_work, find_task, drop_task}

abbrev pub one_if : Bool → ℕ
one_if true = 1
one_if false = 0

-- the tasks of an order
unfoldable pub tasks_of : String → List Task → ℕ
tasks_of o [] = 0
tasks_of o (t ∷ ts) = one_if (t.order == o) + tasks_of o ts

abbrev pub is_executing : Option Work → ℕ
is_executing (some Work.executing) = 1
is_executing _ = 0

abbrev pub is_some : Option Work → ℕ
is_some none = 0
is_some (some w) = 1

-- those that execute the saga
unfoldable pub running : String → List Task → ℕ
running o [] = 0
running o (t ∷ ts) = (if t.order == o then is_executing (some t.work) else 0) + running o ts

pub running-le : (o : String) (ts : List Task) → running o ts ≤ tasks_of o ts
unfolding running tasks_of
running-le o [] = omega arith
running-le o (t ∷ ts) = ground (arith, running-le o ts, t.work)

-- the claim of the order is that of the task, and has not expired
abbrev pub HeldBy : Option (Claim × ℕ) → ℕ → Task → Type 0
HeldBy c now t = (c ≡ some (Claim.processing t.saga_id, t.until)) × (now < t.until)

abbrev pub IfSo : Bool → Type 0 → Type 0
IfSo true P = P
IfSo false P = Unit

abbrev pub Held : String → Option (Claim × ℕ) → ℕ → Task → Type 0
Held o c now t = IfSo (t.order == o) (HeldBy c now t)

pub none_held :
    (o : String) (c : Option (Claim × ℕ)) (now : ℕ) (ts : List Task)
    → tasks_of o ts ≡ 0
    → All (Held o c now) ts
unfolding tasks_of
none_held o c now [] e = tt
none_held o c now (t ∷ ts) e = elim (Bool-cases (t.order == o)) [
  | inl here ↦
      let e' : one_if (t.order == o) + tasks_of o ts ≡ 0 = e in
      absurd (omega (arith, rw here at e'))
  | inr elsewhere ↦
      let e' : one_if (t.order == o) + tasks_of o ts ≡ 0 = e in
      (rw elsewhere tt, none_held o c now ts (omega (arith, rw elsewhere at e')))
]

held_closed :
    (c : Option (Claim × ℕ)) (now : ℕ) (t : Task) → HeldBy c now t → is_open (live_at now c) ≡ false
held_closed c now t h =
    let live : ltb now t.until ≡ true = ground (arith, h.1) in rw (h.0, live) refl

-- While the claim may be taken, the order has no task.
pub open_is_free :
    (o : String) (c : Option (Claim × ℕ)) (now : ℕ) (ts : List Task)
    → All (Held o c now) ts
    → is_open (live_at now c) ≡ true
    → tasks_of o ts ≡ 0
unfolding tasks_of
open_is_free o c now [] h free = refl
open_is_free o c now (t ∷ ts) h free = elim (Bool-cases (t.order == o)) [
  | inl here ↦ let mine : HeldBy c now t = rw here at h.0 in cc (held_closed c now t mine, free)
  | inr elsewhere ↦ rw elsewhere (omega (arith, open_is_free o c now ts h.1 free))
]

pub All-drop {κ} :
    (P : Task → Type κ) (id saga_id : String) (ts : List Task)
    → All P ts
    → All P (drop_task id saga_id ts)
unfolding drop_task
All-drop P id saga_id [] h = tt
All-drop P id saga_id (t ∷ ts) h = elim (Bool-cases (t.order == id && t.saga_id == saga_id)) [
  | inl here ↦ rw here h.1
  | inr elsewhere ↦ rw elsewhere (h.0, All-drop P id saga_id ts h.1)
]

module _ (o id saga_id : String) where
  pub tasks-drop :
      (ts : List Task) {w : Work}
      → find_task id saga_id ts ≡ some w
      → tasks_of o (drop_task id saga_id ts) + one_if (id == o) ≡ tasks_of o ts
  unfolding tasks_of drop_task find_task
  tasks-drop [] e = cc
  tasks-drop (t ∷ ts) e = elim (Bool-cases (t.order == id && t.saga_id == saga_id)) [
    | inl here ↦ rw here (ground (arith, eq_iff t.order id, here))
    | inr elsewhere ↦ rw elsewhere (omega (arith, tasks-drop ts (rw elsewhere at e)))
  ]

  pub running-drop :
      (ts : List Task) (w : Work)
      → find_task id saga_id ts ≡ some w
      → running o (drop_task id saga_id ts) + (if id == o then is_executing (some w) else 0)
        ≡ running o ts
  unfolding running drop_task find_task
  running-drop [] w e = cc
  running-drop (t ∷ ts) w e = elim (Bool-cases (t.order == id && t.saga_id == saga_id)) [
    | inl here ↦
        let found : some t.work ≡ some w = rw here at e in
        let same : t.order ≡ id = ground (arith, eq_iff t.order id, here) in
        rw here (
          running o ts + (if id == o then is_executing (some w) else 0)
          ≡⟨ ap (λ v. running o ts + (if id == o then is_executing v else 0)) (sym found) ⟩
            running o ts + (if id == o then is_executing (some t.work) else 0)
          ≡⟨ ap (λ i. running o ts + (if i == o then is_executing (some t.work) else 0))
              (sym same) ⟩
            running o ts + (if t.order == o then is_executing (some t.work) else 0)
          ≡⟨ omega arith ⟩
            (if t.order == o then is_executing (some t.work) else 0) + running o ts ∎)
    | inr elsewhere ↦ rw elsewhere (omega (arith, running-drop ts w (rw elsewhere at e)))
  ]

  pub tasks-with_work :
      (w : Option Work) (until : ℕ) (ts : List Task)
      → tasks_of o (with_work w id saga_id until ts)
        ≡ (if id == o then is_some w else 0) + tasks_of o ts
  unfolding tasks_of
  tasks-with_work none until ts = ground arith
  tasks-with_work (some w) until ts = ground arith

  pub running-with_work :
      (w : Option Work) (until : ℕ) (ts : List Task)
      → running o (with_work w id saga_id until ts)
        ≡ (if id == o then is_executing w else 0) + running o ts
  unfolding running
  running-with_work none until ts = ground arith
  running-with_work (some w) until ts = ground arith
