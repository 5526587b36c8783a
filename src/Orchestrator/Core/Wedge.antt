-- ===== src/Orchestrator/Core/Wedge.antt =====
-- A breaker whose probe was given out and never answered refuses every later transaction; and the
-- choice of the protocol gives out a probe that no transaction uses.
use mathlib.Core.Path.{subst}
use dds.Base.{
  ℕ, String, ◌==◌, eq_iff, ◌≡◌, ◌≢◌, refl, sym, ◌∙◌, Bool, true, false, ◌||◌, Option, none, some,
  List, [], ◌∷◌, arith, Bool-cases, Option-cases, inl, inr,
}
use dds.Base.Dict.{Dict, lookup, insert, lookup-insert}
use dds.Orchestrator.Value.{Context}
use dds.Orchestrator.Definition.{Step, TransactionDefinition}
use dds.Orchestrator.Transport.{Env}
use dds.Orchestrator.Breaker.{CircuitBreaker, State, is_open}
use dds.Orchestrator.Breaker.Probes.{probing_refuses}
use dds.Orchestrator.System.{Sys, log_terminal}
use dds.Orchestrator.Executor.{Outcome, check_circuit_breakers}
use dds.Orchestrator.Executor.Traces.{check-SameRecords}
use dds.Orchestrator.Executor.Checks.{check_unknown, check_refused, check_passed}
use dds.Orchestrator.TwoPhase
use dds.Orchestrator.Saga
use dds.Orchestrator.Core.{
  Orchestrator, is_success, any_open, select_auto, select_protocol, run_protocol, execute_inner,
}

abbrev Probing : Option CircuitBreaker → Type 0
Probing none = ⊥
Probing (some b) = (b.state ≡ State.half_open) × (b.probe_in_flight ≡ true)

-- The breaker of the service is half-open and its probe is out.
abbrev pub IsProbing : String → Dict CircuitBreaker → Type 0
IsProbing service d = Probing (lookup service d)

abbrev pub uses : String → List Step → Bool
uses service [] = false
uses service (step ∷ steps) = step.service == service || uses service steps

is_open-Probing : (now : ℕ) (b : CircuitBreaker) → Probing (some b) → is_open now b ≡ (true, b)
is_open-Probing now b p = probing_refuses now b p.0 p.1

insert-IsProbing :
    (service other : String) (b : CircuitBreaker) (d : Dict CircuitBreaker)
    → IsProbing service d
    → (other ≡ service → Probing (some b))
    → IsProbing service (insert other b d)
insert-IsProbing service other b d p q = elim (Bool-cases (other == service)) [
  | inl same ↦ rw (lookup-insert other service b d, same) (q ((eq_iff other service).0 same))
  | inr apart ↦ rw (lookup-insert other service b d, apart) p
]

-- Asking any breaker leaves the one that is probing as it is.
asked-IsProbing :
    (service other : String) (now : ℕ) (b : CircuitBreaker) (d : Dict CircuitBreaker)
    → lookup other d ≡ some b
    → IsProbing service d
    → IsProbing service (insert other (is_open now b).1 d)
asked-IsProbing service other now b d e p =
    insert-IsProbing service other (is_open now b).1 d p (λ same.
      let at_other = subst (λ x. Probing (lookup x d)) (sym same) p in
      let q : Probing (some b) = subst Probing e at_other in rw (is_open-Probing now b q) q)

any_open-IsProbing :
    (service : String) (now : ℕ) (d : Dict CircuitBreaker)
    → IsProbing service d
    → IsProbing service (any_open now d).1
unfolding any_open lookup
any_open-IsProbing service now [] p = p
any_open-IsProbing service now ((k, b) ∷ rest) p =
    ground (arith, any_open-IsProbing service now rest, is_open-Probing now b)

module _ {W : Type 0} (env : Env W) where
  -- With a probing breaker among its services, a transaction is refused before anything is sent.
  check_refuses :
      (service : String) (steps : List Step) (s : Sys W)
      → uses service steps ≡ true
      → IsProbing service s.breakers
      → let (refused, s') = check_circuit_breakers env steps s in
        (refused ≢ none) × IsProbing service s'.breakers
  check_refuses service [] s u p = cc
  check_refuses service (step ∷ steps) s u p =
      let now = env.monotonic s.world in
      elim (Option-cases (lookup step.service s.breakers)) [
        | inl missing ↦
            rw (check_unknown env step steps s missing)
              (check_refuses service steps s (ground (arith, eq_iff step.service service)) p)
        | inr (b, e) ↦ elim (Bool-cases (is_open now b).0) [
          | inl refused ↦
              rw (check_refused env step steps s b e refused)
                (λ q. cc, asked-IsProbing service step.service now b s.breakers e p)
          | inr passed ↦ rw (check_passed env step steps s b e passed) (
              check_refuses service steps _
                (ground (arith, eq_iff step.service service, is_open-Probing now b))
                (asked-IsProbing service step.service now b s.breakers e p))
        ]
      ]

  -- What a refused call leaves: a failure, the breaker as it was, and a world in which nothing happened.
  record Refused (service : String) (s : Sys W) (r : Outcome × Sys W) : Type 0 where
    pub failed : is_success r.0 ≡ false
    pub probing : IsProbing service r.1.breakers
    pub untouched : r.1.world ≡ s.world

  two_phase-Refused :
      (service : String) (tx : TransactionDefinition) (id : String) (context : Context)
      (tx_name : String) (s : Sys W)
      → uses service tx.steps ≡ true
      → IsProbing service s.breakers
      → Refused service s (TwoPhase.execute env tx id context tx_name s)
  unfolding TwoPhase.execute
  two_phase-Refused service tx id context tx_name s u p =
      let (refused, s') = check_circuit_breakers env tx.steps s in
      let (some_refused, q) = check_refuses service tx.steps s u p in
      go refused s' some_refused q (check-SameRecords env tx.steps s).world
    where
      go :
          (refused : Option String) (s' : Sys W)
          → refused ≢ none
          → IsProbing service s'.breakers
          → s'.world ≡ s.world
          → Refused service s (TwoPhase.unless_unavailable env refused tx id context tx_name s')
      go none s' h q w = absurd (h refl)
      go (some x) s' h q w =
          unfold log_terminal in record { failed = refl; probing = q; untouched = w }

  saga-Refused :
      (service : String) (tx : TransactionDefinition) (id : String) (context : Context)
      (tx_name : String) (s : Sys W)
      → uses service tx.steps ≡ true
      → IsProbing service s.breakers
      → Refused service s (Saga.execute env tx id context tx_name s)
  unfolding Saga.execute
  saga-Refused service tx id context tx_name s u p =
      let (refused, s') = check_circuit_breakers env tx.steps s in
      let (some_refused, q) = check_refuses service tx.steps s u p in
      go refused s' some_refused q (check-SameRecords env tx.steps s).world
    where
      go :
          (refused : Option String) (s' : Sys W)
          → refused ≢ none
          → IsProbing service s'.breakers
          → s'.world ≡ s.world
          → Refused service s (Saga.unless_unavailable env refused tx id context tx_name s')
      go none s' h q w = absurd (h refl)
      go (some x) s' h q w =
          unfold log_terminal in record { failed = refl; probing = q; untouched = w }

  run-Refused :
      (service protocol : String) (tx : TransactionDefinition) (id : String) (context : Context)
      (tx_name : String) (s : Sys W)
      → uses service tx.steps ≡ true
      → IsProbing service s.breakers
      → Refused service s (run_protocol env protocol tx id context tx_name s)
  unfolding run_protocol
  run-Refused service protocol tx id context tx_name s u p = elim (Bool-cases (protocol == "2pc")) [
    | inl two_phase ↦ rw two_phase (two_phase-Refused service tx id context tx_name s u p)
    | inr saga ↦ rw saga (saga-Refused service tx id context tx_name s u p)
  ]

  select_keeps :
      (service : String) (o : Orchestrator W)
      → IsProbing service o.sys.breakers
      → let o' = (select_protocol env o).1 in
        IsProbing service o'.sys.breakers × (o'.sys.world ≡ o.sys.world)
  unfolding select_protocol
  select_keeps service o p =
      let q = any_open-IsProbing service (env.monotonic o.sys.world) o.sys.breakers p in
      elim (Bool-cases (o.protocol_mode == "auto")) [
        | inl auto ↦
            rw auto (elim (Bool-cases (any_open (env.monotonic o.sys.world) o.sys.breakers).0) [
              | inl degraded ↦ rw (degraded, select_auto) (q, refl)
              | inr healthy ↦ rw (healthy, select_auto) (q, refl)
            ])
        | inr fixed ↦ rw fixed (p, refl)
      ]

  -- What a call does whose choice of the protocol left the breaker probing.
  pub inner_refused :
      (service : String) (tx : TransactionDefinition) (tx_name : String) (context : Context)
      (id : String) (o : Orchestrator W)
      → uses service tx.steps ≡ true
      → IsProbing service (select_protocol env o).1.sys.breakers
      → (select_protocol env o).1.sys.world ≡ o.sys.world
      → let (result, o') = execute_inner env tx tx_name context id o in
        (is_success result.outcome ≡ false)
        × IsProbing service o'.sys.breakers
        × (o'.sys.world ≡ o.sys.world)
  unfolding execute_inner
  inner_refused service tx tx_name context id o u q same =
      let (protocol, o') = select_protocol env o in
      let r = run-Refused service protocol tx id context tx_name o'.sys u q in
      (r.failed, r.probing, r.untouched ∙ same)

  -- While the probe of one of its services' breakers is out, a transaction fails, in every mode, at every
  -- time: nothing is sent, and the breaker stays as it is, so the next call fails too.
  pub lost_probe_blocks :
      (service : String) (tx : TransactionDefinition) (tx_name : String) (context : Context)
      (id : String) (o : Orchestrator W)
      → uses service tx.steps ≡ true
      → IsProbing service o.sys.breakers
      → let (result, o') = execute_inner env tx tx_name context id o in
        (is_success result.outcome ≡ false)
        × IsProbing service o'.sys.breakers
        × (o'.sys.world ≡ o.sys.world)
  lost_probe_blocks service tx tx_name context id o u p =
      let (q, same) = select_keeps service o p in
      inner_refused service tx tx_name context id o u q same
