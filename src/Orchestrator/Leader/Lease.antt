-- ===== src/Orchestrator/Leader/Lease.antt =====
-- At most one instance holds the lock.
use dds.Base.{
  ℕ, ◌+◌, ◌<◌, String, ◌==◌, eq_iff, eq_refl, ◌≡◌, refl, sym, ap, ◌∙◌, Bool, true, false, none,
  some, List, [], ◌∷◌, arith, Bool-cases, inl, inr,
}
use dds.Base.Dict.{lookup, lookup-insert}
use dds.Orchestrator.Leader.{
  Instance, Cluster, holder, is_held_by, instance_of, with_instance, hold, is_free, acquire,
  release, beat, lock_ttl,
}

-- What happens to a cluster, one after another.
pub data Event : Type 0 where
  pass : ℕ → Event
  acquires releases : String → Event
  beats : String → Bool → Event

unfoldable pub happen : Event → Cluster → Cluster
happen (Event.pass ms) c = record c { now = c.now + ms }
happen (Event.acquires id) c = (acquire id c).1
happen (Event.releases id) c = release id c
happen (Event.beats id answers) c = beat id answers c

unfoldable pub happen_all : List Event → Cluster → Cluster
happen_all [] c = c
happen_all (e ∷ es) c = happen_all es (happen e c)

-- An instance that set or renewed the lock within its time, and has not released it since, still has it, for
-- that time.
pub record IsLeased (c : Cluster) : Type 0 where
  pub leased :
      (id : String)
      → c.now < (instance_of id c).lease
      → c.lock ≡ some (id, (instance_of id c).lease)

some-injective : {a b : String} → some a ≡ some b → a ≡ b
some-injective e = cc

holder_of_leased :
    (id : String) (c : Cluster)
    → IsLeased c
    → c.now < (instance_of id c).lease
    → holder c.now c.lock ≡ some id
holder_of_leased id c h p = rw (h.leased id p) (ground arith)

hold-IsLeased :
    (id : String) (i : Instance) (c : Cluster)
    → ((j : String) → c.now < (instance_of j c).lease → j ≡ id)
    → IsLeased (hold id i c)
hold-IsLeased id i c alone = record {
  leased = λ j p. elim (Bool-cases (id == j)) [
    | inl same ↦
        rw (lookup-insert id j (record i { lease = c.now + lock_ttl }) c.instances, same)
          (ap (λ x. some (x, c.now + lock_ttl)) ((eq_iff id j).0 same))
    | inr apart ↦
        let q : c.now < (instance_of j c).lease =
          rw (lookup-insert id j (record i { lease = c.now + lock_ttl }) c.instances, apart) at p in
        absurd (cc (rw (alone j q, eq_refl) at apart))
  ];
}

lowered-IsLeased :
    (id : String) (i : Instance) (c : Cluster)
    → i.lease ≡ (instance_of id c).lease
    → IsLeased c
    → IsLeased (with_instance id i c)
lowered-IsLeased id i c e h = record {
  leased = λ j p. elim (Bool-cases (id == j)) [
    | inl same ↦
        let q : c.now < (instance_of id c).lease =
          rw (← e) (rw (lookup-insert id j i c.instances, same) at p) in
        rw (lookup-insert id j i c.instances, same)
          (h.leased id q
            ∙ ap (λ l. some (id, l)) (sym e)
            ∙ ap (λ x. some (x, i.lease)) ((eq_iff id j).0 same))
    | inr apart ↦
        rw (lookup-insert id j i c.instances, apart)
          (h.leased j (rw (lookup-insert id j i c.instances, apart) at p))
  ];
}

free_alone :
    (c : Cluster)
    → IsLeased c
    → is_free (holder c.now c.lock) ≡ true
    → (id j : String) → c.now < (instance_of j c).lease
    → j ≡ id
free_alone c h free id j p = absurd (cc (rw (holder_of_leased j c h p) at free))

held_alone :
    (id : String) (c : Cluster)
    → IsLeased c
    → is_held_by id (holder c.now c.lock) ≡ true
    → (j : String) → c.now < (instance_of j c).lease
    → j ≡ id
held_alone id c h held j p = (eq_iff j id).0 (rw (holder_of_leased j c h p) at held)

acquire-IsLeased : (id : String) (c : Cluster) → IsLeased c → IsLeased (acquire id c).1
unfolding acquire
acquire-IsLeased id c h = elim (Bool-cases (is_free (holder c.now c.lock))) [
  | inl free ↦ rw free (
      hold-IsLeased id (record (instance_of id c) { is_leader = true; heartbeat = true }) c
        (free_alone c h free id))
  | inr held ↦ rw held h
]

deleted-IsLeased :
    (id : String) (i : Instance) (c : Cluster)
    → i.lease ≡ 0
    → ((j : String) → c.now < (instance_of j c).lease → j ≡ id)
    → IsLeased (with_instance id i (record c { lock = none }))
deleted-IsLeased id i c gone alone = record {
  leased = λ j p. elim (Bool-cases (id == j)) [
    | inl same ↦
        let q : c.now < i.lease = rw (lookup-insert id j i c.instances, same) at p in
        absurd (omega (arith, gone, q))
    | inr apart ↦
        let q : c.now < (instance_of j c).lease =
          rw (lookup-insert id j i c.instances, apart) at p in
        absurd (cc (rw (alone j q, eq_refl) at apart))
  ];
}

release-IsLeased : (id : String) (c : Cluster) → IsLeased c → IsLeased (release id c)
unfolding release
release-IsLeased id c h =
    let i = instance_of id c in
    elim (Bool-cases i.is_leader) [
      | inl leader ↦ elim (Bool-cases (is_held_by id (holder c.now c.lock))) [
        | inl held ↦
            rw (leader, held)
              (deleted-IsLeased id (record { is_leader = false; heartbeat = false; lease = 0 }) c
                refl (held_alone id c h held))
        | inr lost ↦
            rw (leader, lost)
              (lowered-IsLeased id (record i { is_leader = false; heartbeat = false }) c refl h)
      ]
      | inr follower ↦ rw follower (
          lowered-IsLeased id (record { is_leader = false; heartbeat = false; lease = i.lease }) c
            refl h)
    ]

beat-IsLeased :
    (id : String) (answers : Bool) (c : Cluster) → IsLeased c → IsLeased (beat id answers c)
unfolding beat
beat-IsLeased id answers c h =
    let i = instance_of id c in
    let lowered =
      lowered-IsLeased id (record i { is_leader = false; heartbeat = false }) c refl h in
    elim (Bool-cases i.heartbeat) [
      | inl running ↦ elim (Bool-cases answers) [
        | inl up ↦ elim (Bool-cases (is_held_by id (holder c.now c.lock))) [
          | inl held ↦
              rw (running, up, held)
                (hold-IsLeased id
                  (record { is_leader = i.is_leader; heartbeat = true; lease = i.lease }) c
                  (held_alone id c h held))
          | inr lost ↦ rw (running, up, lost) lowered
        ]
        | inr down ↦ rw (running, down) lowered
      ]
      | inr stopped ↦ rw stopped h
    ]

happen-IsLeased : (e : Event) (c : Cluster) → IsLeased c → IsLeased (happen e c)
unfolding happen
happen-IsLeased (Event.pass ms) c h = record { leased = λ j p. h.leased j (omega (arith, p)) }
happen-IsLeased (Event.acquires id) c h = acquire-IsLeased id c h
happen-IsLeased (Event.releases id) c h = release-IsLeased id c h
happen-IsLeased (Event.beats id answers) c h = beat-IsLeased id answers c h

happen_all-IsLeased : (es : List Event) (c : Cluster) → IsLeased c → IsLeased (happen_all es c)
unfolding happen_all
happen_all-IsLeased [] c h = h
happen_all-IsLeased (e ∷ es) c h = happen_all-IsLeased es (happen e c) (happen-IsLeased e c h)

-- No instance has ever asked for the lock.
abbrev pub fresh : ℕ → Cluster
fresh now = record { now = now; lock = none; instances = [] }

fresh-IsLeased : (now : ℕ) → IsLeased (fresh now)
unfolding lookup
fresh-IsLeased now = record { leased = λ j p. absurd (omega (arith, p)) }

-- However instances acquire, renew, fail to renew and release the lock, from a start in which none has
-- it, two instances that are both within LOCK_TTL of having set or renewed it, and have not released it
-- since, are the same instance.
pub one_leader :
    (now : ℕ) (es : List Event) (j k : String)
    → let c = happen_all es (fresh now) in
      c.now < (instance_of j c).lease → c.now < (instance_of k c).lease → j ≡ k
one_leader now es j k p q =
    let c = happen_all es (fresh now) in
    let h = happen_all-IsLeased es (fresh now) (fresh-IsLeased now) in
    some-injective (sym (holder_of_leased j c h p) ∙ holder_of_leased k c h q)
