-- ===== src/Orchestrator/Core/Recovery.antt =====
-- In the mode "auto" a service that was cut off is never used again.
use dds.Base.{
  ℕ, String, ◌==◌, ◌≡◌, ◌≢◌, refl, ap, ◌∙◌, true, false, Option, none, some, List, [], ◌∷◌, arith,
  Bool-cases, inl, inr, if◌then◌else◌, All,
}
use dds.Base.Dict.{Dict, lookup}
use dds.Orchestrator.Value.{Context}
use dds.Orchestrator.Definition.{TransactionDefinition}
use dds.Orchestrator.Transport.{Env}
use dds.Orchestrator.Breaker.{CircuitBreaker, State, is_open, is_due}
use dds.Orchestrator.Core.{
  Orchestrator, Result, is_success, any_open, select_auto, select_protocol, execute_inner, execute,
  find_and_run,
}
use dds.Orchestrator.Core.Wedge.{IsProbing, uses, inner_refused, lost_probe_blocks}

-- The breaker of the service is open and due for its probe, and every other breaker is closed.
abbrev IsDue : String → ℕ → String × CircuitBreaker → Type 0
IsDue service now (k, b) =
    if k == service
    then (b.state ≡ State.opened) × (is_due now b ≡ true) × (b.probe_in_flight ≡ false)
    else (b.state ≡ State.closed)

abbrev pub IsLoneDue : String → ℕ → Dict CircuitBreaker → Type 0
IsLoneDue service now d = (lookup service d ≢ none) × All (IsDue service now) d

probe_taken :
    (now : ℕ) (b : CircuitBreaker)
    → b.state ≡ State.opened
    → is_due now b ≡ true
    → b.probe_in_flight ≡ false
    → is_open now b ≡ (false, record b { state = State.half_open; probe_in_flight = true })
unfolding is_open
probe_taken now b o d p = ground arith

closed_passes : (now : ℕ) (b : CircuitBreaker) → b.state ≡ State.closed → is_open now b ≡ (false, b)
unfolding is_open
closed_passes now b c = ground arith

any_open_passes :
    (service : String) (now : ℕ) (d : Dict CircuitBreaker)
    → All (IsDue service now) d
    → (any_open now d).0 ≡ false
unfolding any_open
any_open_passes service now [] h = refl
any_open_passes service now ((k, b) ∷ rest) h = elim (Bool-cases (k == service)) [
  | inl here ↦
      let due : (b.state ≡ State.opened) × (is_due now b ≡ true) × (b.probe_in_flight ≡ false) =
        rw here at h.0 in
      rw (probe_taken now b due.0 due.1 due.2) (any_open_passes service now rest h.1)
  | inr elsewhere ↦
      let shut : b.state ≡ State.closed = rw elsewhere at h.0 in
      rw (closed_passes now b shut) (any_open_passes service now rest h.1)
]

any_open_probes :
    (service : String) (now : ℕ) (d : Dict CircuitBreaker)
    → IsLoneDue service now d
    → IsProbing service (any_open now d).1
unfolding any_open lookup
any_open_probes service now [] h = absurd (h.0 refl)
any_open_probes service now ((k, b) ∷ rest) h = elim (Bool-cases (k == service)) [
  | inl here ↦
      let due : (b.state ≡ State.opened) × (is_due now b ≡ true) × (b.probe_in_flight ≡ false) =
        rw here at h.1.0 in
      rw (probe_taken now b due.0 due.1 due.2, here) (refl, refl)
  | inr elsewhere ↦
      let shut : b.state ≡ State.closed = rw elsewhere at h.1.0 in
      let later : lookup service rest ≢ none = λ e. h.0 (rw elsewhere e) in
      rw (closed_passes now b shut, elsewhere) (any_open_probes service now rest (later, h.1.1))
]

-- A call of `execute`: what happens to the world before it, its context and its saga id.
pub record Call (W : Type 0) : Type 0 where
  pub pass : W → W
  pub context : Context
  pub id : String

module _ {W : Type 0} (env : Env W) (service tx_name : String) (tx : TransactionDefinition) where
  abbrev at_call : Call W → Orchestrator W → Orchestrator W
  at_call call o = record o { sys = record (o.sys) { world = call.pass o.sys.world } }

  -- calls of `execute`, one after another
  unfoldable pub run_calls : List (Call W) → Orchestrator W → List (Option Result) × Orchestrator W
  run_calls [] o = ([], o)
  run_calls (call ∷ calls) o =
      let (result, o') = execute env tx_name call.context call.id (at_call call o) in
      let (results, o'') = run_calls calls o' in (result ∷ results, o'')

  -- the world if the calls do nothing to it
  abbrev pub elapse : List (Call W) → W → W
  elapse [] w = w
  elapse (call ∷ calls) w = elapse calls (call.pass w)

  -- the call returned a failure
  abbrev pub Fails : Option Result → Type 0
  Fails none = ⊥
  Fails (some r) = is_success r.outcome ≡ false

  definitions-select_protocol :
      (o : Orchestrator W) → (select_protocol env o).1.definitions ≡ o.definitions
  unfolding select_protocol
  definitions-select_protocol o = elim (Bool-cases (o.protocol_mode == "auto")) [
    | inl auto ↦
        rw auto (elim (Bool-cases (any_open (env.monotonic o.sys.world) o.sys.breakers).0) [
          | inl degraded ↦ rw (degraded, select_auto) refl
          | inr healthy ↦ rw (healthy, select_auto) refl
        ])
    | inr fixed ↦ rw fixed refl
  ]

  definitions-execute_inner :
      (context : Context) (id : String) (o : Orchestrator W)
      → (execute_inner env tx tx_name context id o).1.definitions ≡ o.definitions
  unfolding execute_inner
  definitions-execute_inner context id o = definitions-select_protocol o

  lost_probe_blocks-All :
      (calls : List (Call W)) (o : Orchestrator W)
      → lookup tx_name o.definitions ≡ some tx
      → uses service tx.steps ≡ true
      → IsProbing service o.sys.breakers
      → let (results, o') = run_calls calls o in
        All Fails results × (o'.sys.world ≡ elapse calls o.sys.world)
  unfolding run_calls execute
  lost_probe_blocks-All [] o e u p = (tt, refl)
  lost_probe_blocks-All (call ∷ calls) o e u p =
      let now = at_call call o in
      let (result, o') = execute_inner env tx tx_name call.context call.id now in
      let (failed, q, same) =
        lost_probe_blocks env service tx tx_name call.context call.id now u p in
      let e' = ap (lookup tx_name) (definitions-execute_inner call.context call.id now) ∙ e in
      let (rest, same') = lost_probe_blocks-All calls o' e' u q in
      rw (e, find_and_run) ((failed, rest), same' ∙ ap (elapse calls) same)

  select_takes_probe :
      (o : Orchestrator W)
      → o.protocol_mode ≡ "auto"
      → IsLoneDue service (env.monotonic o.sys.world) o.sys.breakers
      → let o' = (select_protocol env o).1 in
        IsProbing service o'.sys.breakers × (o'.sys.world ≡ o.sys.world)
  unfolding select_protocol
  select_takes_probe o auto due =
      let now = env.monotonic o.sys.world in
      rw auto (
        rw (any_open_passes service now o.sys.breakers due.1)
          (any_open_probes service now o.sys.breakers due, refl))

  -- In the mode "auto", once a call finds the breaker of a service open and due for its probe, the others
  -- being closed, that call and every later one of a known transaction that uses the service fails, whenever
  -- it is made, and none of them sends anything.
  pub auto_never_recovers :
      (call : Call W) (calls : List (Call W)) (o : Orchestrator W)
      → o.protocol_mode ≡ "auto"
      → lookup tx_name o.definitions ≡ some tx
      → uses service tx.steps ≡ true
      → IsLoneDue service (env.monotonic (call.pass o.sys.world)) o.sys.breakers
      → let (results, o') = run_calls (call ∷ calls) o in
        All Fails results × (o'.sys.world ≡ elapse (call ∷ calls) o.sys.world)
  unfolding run_calls execute
  auto_never_recovers call calls o auto e u due =
      let now = at_call call o in
      let (q, same) = select_takes_probe now auto due in
      let (result, o') = execute_inner env tx tx_name call.context call.id now in
      let (failed, q', same') =
        inner_refused env service tx tx_name call.context call.id now u q same in
      let e' = ap (lookup tx_name) (definitions-execute_inner call.context call.id now) ∙ e in
      let (rest, same'') = lost_probe_blocks-All calls o' e' u q' in
      rw (e, find_and_run) ((failed, rest), same'' ∙ ap (elapse calls) same')
