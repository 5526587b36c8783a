-- ===== src/Order/Leadership/Stuck.antt =====
-- A leader whose recovery has failed once.
use dds.Base.{
  ℕ, ◌+◌, ◌<◌, String, eq_refl, ◌≡◌, refl, true, false, Option, some, List, [], ◌∷◌, All, arith,
  ltb,
}
use dds.Base.Dict.{lookup_same}
use dds.Orchestrator.Leader.{Cluster, acquire, beat, instance_of, hold, holder, is_free, lock_ttl}
use dds.Order.Leadership.{Loop, Phase, lead, turn, idle_loop}

-- Some milliseconds pass, the heartbeat task renews the lock, and the loop makes a turn, in which the recovery
-- might raise.
abbrev pub Round : Type 0
Round = ℕ × Option String

unfoldable pub rounds : String → List Round → Loop → Loop
rounds id [] l = l
rounds id ((ms, raised) ∷ rest) l =
    let c = l.cluster in
    let renewed = beat id true (record c { now = c.now + ms }) in
    rounds id rest (turn id raised (record l { cluster = renewed }))

-- The instance has the lock and renews it, but the loop does not know that it leads.
record IsStuck (id : String) (l : Loop) : Type 0 where
  until : ℕ
  locked : l.cluster.lock ≡ some (id, until)
  long : until ≡ l.cluster.now + lock_ttl
  beating : (instance_of id l.cluster).heartbeat ≡ true
  competes : l.phase ≡ Phase.competing
  idle : l.maintenance ≡ false

beat_renews :
    (id : String) (c : Cluster) (until : ℕ)
    → c.lock ≡ some (id, until)
    → c.now < until
    → (instance_of id c).heartbeat ≡ true
    → beat id true c ≡ hold id (instance_of id c) c
unfolding beat
beat_renews id c until e live on =
    let valid : ltb c.now until ≡ true = ground (arith, live) in rw (on, e, valid, eq_refl id) refl

held_is_not_free :
    (id : String) (until now : ℕ) → now < until → is_free (holder now (some (id, until))) ≡ false
held_is_not_free id until now live =
    let valid : ltb now until ≡ true = ground (arith, live) in rw valid refl

acquire_held :
    (me id : String) (until : ℕ) (c : Cluster)
    → c.lock ≡ some (id, until)
    → c.now < until
    → acquire me c ≡ (false, c)
unfolding acquire
acquire_held me id until c e live = rw (e, held_is_not_free id until c.now live) refl

module _ (id : String) (ms : ℕ) (raised : Option String) (l : Loop) (in_time : ms < lock_ttl) where
  abbrev later : Cluster
  later = record (l.cluster) { now = l.cluster.now + ms }

  abbrev held : Cluster
  held = hold id (instance_of id later) later

  abbrev after_round : Loop
  after_round = turn id raised (record l { cluster = beat id true later })

  round_is : IsStuck id l → after_round ≡ record l { cluster = held }
  unfolding turn
  round_is s =
      let locked = s.locked in
      let live : later.now < s.until = omega (arith, s.long) in
      rw
        (
          beat_renews id later s.until s.locked live s.beating,
          s.competes,
          acquire_held id id (later.now + lock_ttl) held refl (omega arith),
        )
        refl

  round-IsStuck : IsStuck id l → IsStuck id after_round
  round-IsStuck s = rw (round_is s) (record {
    until = later.now + lock_ttl;
    locked = refl;
    long = refl;
    beating = rw (lookup_same id _ l.cluster.instances) s.beating;
    competes = s.competes;
    idle = s.idle;
  })

rounds-IsStuck :
    (id : String) (all : List Round) (l : Loop)
    → All (λ (r : Round). r.0 < lock_ttl) all
    → IsStuck id l
    → IsStuck id (rounds id all l)
unfolding rounds
rounds-IsStuck id [] l h s = s
rounds-IsStuck id ((ms, raised) ∷ rest) l h s =
    rounds-IsStuck id rest _ h.1 (round-IsStuck id ms raised l h.0 s)

first_fails :
    (id error : String) (c : Cluster)
    → is_free (holder c.now c.lock) ≡ true
    → IsStuck id (turn id (some error) (idle_loop c))
unfolding turn acquire
first_fails id error c free =
    rw (free, lead)
      (record {
        until = c.now + lock_ttl;
        locked = refl;
        long = refl;
        beating = rw (lookup_same id _ c.instances) refl;
        competes = refl;
        idle = refl;
      })

-- An instance acquires the free lock and its recovery raises. From then on, as long as its heartbeats are
-- answered within the time of the lock, it never runs the maintenance, and no instance, itself included,
-- can acquire the lock.
pub failed_recovery_stops_maintenance :
    (id error other : String) (c : Cluster) (all : List Round)
    → is_free (holder c.now c.lock) ≡ true
    → All (λ (r : Round). r.0 < lock_ttl) all
    → let l = rounds id all (turn id (some error) (idle_loop c)) in
      (l.maintenance ≡ false) × (acquire other l.cluster ≡ (false, l.cluster))
failed_recovery_stops_maintenance id error other c all free h =
    let l = rounds id all (turn id (some error) (idle_loop c)) in
    let s = rounds-IsStuck id all _ h (first_fails id error c free) in
    (s.idle, acquire_held other id s.until l.cluster s.locked (omega (arith, s.long)))
