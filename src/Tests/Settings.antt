-- ===== src/Tests/Settings.antt =====
-- The environment, the connections and the faults at concrete inputs.
use dds.Base.{ℕ, zero, suc, String, ◌≡◌, refl, Option, none, some, List, [], ◌∷◌, length}
use dds.Base.Int.{pos}
use dds.Base.Dict.{lookup}
use dds.Base.Split.{join}
use dds.Base.Decimal.{str_nat, digits}
use dds.Config.{
  Environ, Pools, create_redis_connection, create_replica_connection, get_sentinel_hosts,
}
use dds.Config.Sentinels.{hosts_are_read_back}
use dds.Config.Replica.{map_replica, replica_follows_master}
use dds.Config.Failover.{new_detector, Answer, reconciler}
use dds.Config.Failover.Detection.{switches, each_failover_is_seen, answers_of}
use dds.Faults.{FaultRule}

abbrev environ : Environ
environ = ("SENTINEL_HOSTS", "s1:26379,::1:5000") ∷ ("REDIS_SENTINEL_SERVICE", "order-master") ∷ []

hosts_are_read_back_example :
    get_sentinel_hosts environ ≡ some (some (("s1", pos 26379) ∷ ("::1", pos 5000) ∷ []))
unfolding join str_nat digits
hosts_are_read_back_example =
    hosts_are_read_back ("s1", 26379) (("::1", 5000) ∷ []) environ
      (
        ((refl, (refl, tt)), (refl, (refl, tt))),
        (((refl, (refl, (refl, tt))), (refl, (refl, (refl, tt)))), tt),
      )
      (unfold lookup in refl)

abbrev pools : Pools
pools = record { master = pos 512; replica = pos 256 }

replica_follows_master_example :
    create_replica_connection pools "" environ (some "stock-master") (λ key. none)
    ≡ map_replica pools
        (create_redis_connection pools "" environ (some "stock-master") (λ key. none))
replica_follows_master_example =
    replica_follows_master pools "" environ (some "stock-master") (λ key. none) refl

-- a database that is loading for some time: the world is the time that is left
abbrev ping : ℕ → Option String × ℕ
ping zero = (none, 0)
ping (suc n) = (some "LOADING", suc n)

abbrev elsewhere : List (String × List Answer)
elsewhere = ("10.0.0.1", []) ∷ ("10.0.0.2", Answer.raised "timeout" ∷ []) ∷ ("10.0.0.2", []) ∷ []

each_failover_is_seen_example :
    length
      (reconciler "order-master"
        (answers_of (("10.0.0.1", []) ∷ elsewhere))
        new_detector).invalidations
    ≡ 1
unfolding switches
each_failover_is_seen_example = each_failover_is_seen "order-master" "10.0.0.1" [] elsewhere refl

abbrev slow_prepare : List (String × FaultRule)
slow_prepare =
    ("before_prepare", record { point = "before_prepare"; action = "delay"; value = 50 }) ∷ []
