-- ===== src/Orchestrator/Wal/Index.antt =====
-- The index of the log (`active_sagas` and the hashes) against a scan of the whole stream.
use dds.Base.{
  ℕ, String, ◌≡◌, refl, inl, inr, Bool, true, false, Option, none, some, List, [], ◌∷◌, ◌++◌, arith,
  ◌==◌, eq_iff, contains, Bool-cases, if◌then◌else◌,
}
use dds.Base.Dict.{lookup, dict_laws, set_laws}
use dds.Orchestrator.Value.{Context}
use dds.Orchestrator.Wal.{Entry, Wal, empty, is_terminal, hset, log, log_terminal}

-- What the whole stream says of a saga: its last entry, with the last data that was logged since
-- its previous end, or nothing if it has ended.
abbrev after_entry : String → Option Entry → Entry → Option Entry
after_entry id acc e =
    if e.saga_id == id then (if is_terminal e.step then none else some (hset acc e)) else acc

pub replay : String → Option Entry → List Entry → Option Entry
replay id acc [] = acc
replay id acc (e ∷ es) = replay id (after_entry id acc e) es

replay-append :
    (id : String) (acc : Option Entry) (es : List Entry) (e : Entry)
    → replay id acc (es ++ e ∷ []) ≡ after_entry id (replay id acc es) e
unfolding replay
replay-append id acc [] e = refl
replay-append id acc (x ∷ es) e = replay-append id (after_entry id acc x) es e

abbrev pub is_some : Option Entry → Bool
is_some none = false
is_some (some e) = true

abbrev pub IsLive : Option Entry → Type 0
IsLive none = Unit
IsLive (some e) = is_terminal e.step ≡ false

-- The index agrees with the stream, and holds the sagas that have not ended and no others.
pub record IsIndexed (w : Wal) : Type 0 where
  pub replayed : (id : String) → lookup id w.states ≡ replay id none w.stream
  pub indexed : (id : String) → contains id w.active ≡ is_some (lookup id w.states)
  pub live : (id : String) → IsLive (lookup id w.states)

pub empty-IsIndexed : IsIndexed empty
unfolding replay lookup
empty-IsIndexed = record { replayed = λ id. refl; indexed = λ id. refl; live = λ id. tt }

module _ (id step : String) (d : Option Context) (now : ℕ) (w : Wal) (h : IsIndexed w) where
  ended-IsIndexed : is_terminal step ≡ true → IsIndexed (log_terminal id step d now w)
  unfolding log_terminal
  ended-IsIndexed ended = record {
    replayed = λ j. rw replay-append (simp dict_laws (ground (arith, h.replayed j, eq_iff id j)));
    indexed = λ j. simp (set_laws, dict_laws) (ground (arith, h.indexed j, eq_iff id j));
    live = λ j. simp dict_laws (ground (arith, h.live j, eq_iff id j));
  }

  -- `log` keeps the index in agreement with the stream, whatever the step.
  pub log-IsIndexed : IsIndexed (log id step d now w)
  unfolding log
  log-IsIndexed = elim (Bool-cases (is_terminal step)) [
    | inl ended ↦ rw ended (unfold log_terminal in ended-IsIndexed ended)
    | inr going ↦ rw going (record {
      replayed = λ j.
          rw replay-append
            (simp dict_laws (ground (arith, h.replayed j, h.replayed id, eq_iff id j)));
      indexed = λ j. simp (set_laws, dict_laws) (ground (arith, h.indexed j, eq_iff id j));
      live = λ j. simp dict_laws (ground (arith, h.live j, h.live id, eq_iff id j));
    })
  ]
