-- ===== src/Orchestrator/Recovery/Worker/Orphans.antt =====
-- What a round of the background task does to the sagas that nobody finishes.
use mathlib.Core.Path.{subst}
use dds.Base.{
  ℕ, String, ◌==◌, eq_refl, ◌≡◌, refl, sym, ap, ◌∙◌, Bool, true, false, ◌&&◌, Option, none, some,
  List, [], ◌∷◌, All, contains, arith, eq_iff, Bool-cases, inl, inr, if◌then◌else◌,
}
use dds.Base.Dict.{Dict, lookup, insert}
use dds.Orchestrator.Definition.{TransactionDefinition}
use dds.Orchestrator.Transport.{Env}
use dds.Orchestrator.Wal.{Wal, Entry, Incomplete, incomplete_of, scan, get_incomplete_sagas}
use dds.Orchestrator.Wal.Index.{IsIndexed}
use dds.Orchestrator.Wal.Recoverable.{get_incomplete_sagas-eq-replay, entry_of_member, scan_member}
use dds.Orchestrator.System.{Sys}
use dds.Orchestrator.Recovery.{is_orphan, or_empty, abort_each, abort_orphaned_sagas}
use dds.Orchestrator.Recovery.Worker.{reconcile, reconciliation_round}
use dds.Orchestrator.Recovery.Resolution.{
  has, has-lookup, report-none, abort_all-Resolves, commit_all-Resolves,
}

-- whether a saga with this state in the index is too old
abbrev pub aged : ℕ → Option Entry → Bool
aged now none = false
aged now (some e) = is_orphan now e.timestamp

module _ (now : ℕ) (f : String → Bool) where
  abbrev IsJudged : String × Incomplete → Type 0
  IsJudged (id, state) = is_orphan now state.created_at ≡ f id

  All-insert :
      (id : String) (state : Incomplete) (d : Dict Incomplete)
      → IsJudged (id, state)
      → All IsJudged d
      → All IsJudged (insert id state d)
  unfolding insert
  All-insert id state [] own h = (own, tt)
  All-insert id state ((j, x) ∷ d) own h = elim (Bool-cases (j == id)) [
    | inl same ↦ rw same (rw ((eq_iff j id).0 same) own, h.1)
    | inr apart ↦ rw apart (h.0, All-insert id state d own h.1)
  ]

module _ (now : ℕ) (w : Wal) (h : IsIndexed w) where
  abbrev judged : String → Bool
  judged j = aged now (lookup j w.states)

  scan-IsJudged :
      (ids : List String) (found : Dict Incomplete)
      → ((j : String) → contains j ids ≡ true → contains j w.active ≡ true)
      → All (IsJudged now judged) found
      → All (IsJudged now judged) (scan ids found w).0
  scan-IsJudged [] found members all = unfold scan in all
  scan-IsJudged (id ∷ ids) found members all =
      let (e, p, going) = entry_of_member id w h (members id (rw eq_refl)) in
      rw (scan_member id ids found w e p going) (
        scan-IsJudged ids (insert id (incomplete_of id e) found) (λ j m. members j (ground arith))
          (All-insert now judged id (incomplete_of id e) found (rw p refl) all))

module _ {W : Type 0} (env : Env W) (definitions : Dict TransactionDefinition) where
  module _ (now : ℕ) (f : String → Bool) where
    one-Resolves :
        (id : String) (state : Incomplete) (s : Sys W) (j : String)
        → lookup j (abort_each env definitions now ((id, state) ∷ []) s).wal.states
          ≡ (if is_orphan now state.created_at && id == j then none else lookup j s.wal.states)
    unfolding abort_each
    one-Resolves id state s j = elim (Bool-cases (is_orphan now state.created_at)) [
      | inr young ↦ rw young refl
      | inl old ↦ elim (Bool-cases (state.last_step == "COMMITTING")) [
        | inl decided ↦
            rw (old, decided)
              (commit_all-Resolves env definitions id (or_empty state.data_field) s j)
        | inr undecided ↦
            rw (old, undecided)
              (abort_all-Resolves env definitions id (or_empty state.data_field) s j)
      ]
    ]

    abort_each-resolves :
        (d : Dict Incomplete) (s : Sys W) (j : String)
        → All (IsJudged now f) d
        → lookup j (abort_each env definitions now d s).wal.states
          ≡ (if f j && has j d then none else lookup j s.wal.states)
    unfolding abort_each
    abort_each-resolves [] s j h = ground arith
    abort_each-resolves ((id, state) ∷ rest) s j h =
        abort_each-resolves rest _ j h.1
        ∙ ground (arith, one-Resolves id state s j, h.0, eq_iff id j)

  ends_orphans :
      (ids : List String) (s : Sys W)
      → IsIndexed s.wal
      → ((j : String) → contains j ids ≡ contains j s.wal.active)
      → (j : String)
      → lookup j (abort_orphaned_sagas env definitions ids s).wal.states
        ≡ (if aged (env.wall s.world) (lookup j s.wal.states) then none else lookup j s.wal.states)
  unfolding abort_orphaned_sagas get_incomplete_sagas
  ends_orphans ids s h members j =
      let now = env.wall s.world in
      let found = get_incomplete_sagas-eq-replay s.wal h ids members j in
      let (incomplete, w) = scan ids [] s.wal in
      let kept : lookup j w.states ≡ lookup j s.wal.states =
        ap (λ (v : Wal). lookup j v.states) found.0 in
      abort_each-resolves now (judged now s.wal h) incomplete _ j
        (scan-IsJudged now s.wal h ids [] (λ i m. sym (members i) ∙ m) tt)
      ∙ elim (Bool-cases (has j incomplete)) [
        | inl listed ↦ rw (listed, kept) (ground arith)
        | inr unlisted ↦
            let gone : lookup j s.wal.states ≡ none =
              h.replayed j ∙ report-none j _ (sym found.1 ∙ has-lookup j incomplete unlisted) in
            rw (unlisted, kept, gone) (ground arith)
      ]

  wal-reconcile : (f : Option (W → Option String × W)) (s : Sys W) → (reconcile f s).1.wal ≡ s.wal
  unfolding reconcile
  wal-reconcile none s = refl
  wal-reconcile (some f) s = refl

  -- In a round of the background task whose callback does not raise, over a log whose index agrees with
  -- its stream and with SSCAN returning the members of `active_sagas`, every saga whose last state is older
  -- than ORPHAN_SAGA_TIMEOUT is ended, and every other saga keeps its state.
  pub round_ends_orphans :
      (f : Option (W → Option String × W)) (ids : List String) (s s' : Sys W)
      → reconcile f (record s { world = env.sleep 60000 s.world }) ≡ (none, s')
      → IsIndexed s.wal
      → ((j : String) → contains j ids ≡ contains j s.wal.active)
      → (j : String)
      → lookup j (reconciliation_round env definitions f ids s).1.wal.states
        ≡ (if aged (env.wall s'.world) (lookup j s.wal.states) then none else lookup j s.wal.states)
  unfolding reconciliation_round
  round_ends_orphans f ids s s' quiet h members j =
      let same : s'.wal ≡ s.wal = sym (ap (λ r. r.1.wal) quiet) ∙ wal-reconcile f _ in
      rw quiet (
        subst
          (λ w.
            lookup j (abort_orphaned_sagas env definitions ids s').wal.states
            ≡ (if aged (env.wall s'.world) (lookup j w.states) then none else lookup j w.states))
          same
          (ends_orphans ids s' (subst IsIndexed (sym same) h)
            (λ i. members i ∙ ap (λ (w : Wal). contains i w.active) (sym same)) j))
