-- ===== src/Orchestrator/Wal/Recoverable.antt =====
-- What a recovering leader finds: `get_incomplete_sagas` against the stream.
use dds.Base.{
  String, ◌≡◌, refl, inl, inr, true, false, Option, none, some, List, [], ◌∷◌, arith, eq_iff,
  eq_refl, contains, Option-cases, if◌then◌else◌, ◌∙◌,
}
use dds.Base.Dict.{Dict, lookup, insert, lookup-insert, lookup-nil}
use dds.Orchestrator.Wal.{
  Entry, Wal, is_terminal, Incomplete, incomplete_of, scan, get_incomplete_sagas,
}
use dds.Orchestrator.Wal.Index.{IsIndexed, replay}

abbrev pub report : String → Option Entry → Option Incomplete
report id none = none
report id (some e) = some (incomplete_of id e)

pub entry_of_member :
    (id : String) (w : Wal)
    → IsIndexed w
    → contains id w.active ≡ true
    → (e : Entry) × (lookup id w.states ≡ some e) × (is_terminal e.step ≡ false)
entry_of_member id w h m = elim (Option-cases (lookup id w.states)) [
  | inl gone ↦ absurd (ground (arith, h.indexed id))
  | inr (e, p) ↦ (e, p, ground (arith, h.live id))
]

pub scan_member :
    (id : String) (ids : List String) (found : Dict Incomplete) (w : Wal) (e : Entry)
    → lookup id w.states ≡ some e
    → is_terminal e.step ≡ false
    → scan (id ∷ ids) found w ≡ scan ids (insert id (incomplete_of id e) found) w
unfolding scan
scan_member id ids found w e p going = ground arith

module _ (w : Wal) (h : IsIndexed w) where
  scan_found :
      (ids : List String) (found : Dict Incomplete)
      → ((j : String) → contains j ids ≡ true → contains j w.active ≡ true)
      → ((scan ids found w).1 ≡ w)
        × ((j : String)
            → lookup j (scan ids found w).0
              ≡ (if contains j ids then report j (lookup j w.states) else lookup j found))
  scan_found [] found members = unfold scan in (refl, λ j. refl)
  scan_found (id ∷ ids) found members =
      let (e, p, going) = entry_of_member id w h (members id (rw eq_refl)) in
      let ih =
        scan_found ids (insert id (incomplete_of id e) found) (λ j m. members j (ground arith)) in
      rw (scan_member id ids found w e p going)
        (ih.0, λ j. ih.1 j ∙ simp lookup-insert (ground (arith, p, eq_iff id j)))

  -- Where the index agrees with the stream and SSCAN returns the members of `active_sagas` (in any
  -- order, any of them twice), the recovering leader gets, for each saga, exactly the last state that a scan of the whole stream
  -- gives, and nothing for a saga that has ended; the log is left as it was.
  pub get_incomplete_sagas-eq-replay :
      (ids : List String)
      → ((j : String) → contains j ids ≡ contains j w.active)
      → (j : String)
      → ((get_incomplete_sagas ids w).1 ≡ w)
        × (lookup j (get_incomplete_sagas ids w).0 ≡ report j (replay j none w.stream))
  unfolding get_incomplete_sagas
  get_incomplete_sagas-eq-replay ids members j =
      let found = scan_found ids [] (λ j m. ground (arith, members j)) in
      (found.0, found.1 j ∙ simp lookup-nil (ground (arith, members j, h.indexed j, h.replayed j)))
