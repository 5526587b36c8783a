-- ===== src/Config/Replica.antt =====
-- The connection to a replica against that to the master.
use dds.Base.{
  true, false, String, ◌==◌, ◌≡◌, refl, sym, Option, none, some, Option-cases, Bool-cases, inl, inr,
  arith,
}
use Prim.Native.String.{◌++◌ as concat}
use dds.Base.Int.{pos}
use mathlib.Core.Path.{fun_ext}
use dds.Config.{
  ◌>>=◌, Environ, Pools, Options, merge, Hosts, Connection, service_name, get_int, get_redis_config,
  get_sentinel_hosts, sentinel_config, direct_to, redis_connection, create_redis_connection,
  replica_connection, create_replica_connection,
}

merge_idem : (kwargs : Options) → merge (merge kwargs) ≡ merge kwargs
unfolding merge
merge_idem kwargs = fun_ext (λ key. ground (arith, kwargs key))

-- The replicas of the same master group, on connections of their own; a direct connection stays the same.
abbrev pub as_replica : Pools → Connection → Connection
as_replica pools (Connection.master_for name c) =
    Connection.slave_for name (record c { max_connections = pools.replica })
as_replica pools c = c

abbrev pub map_replica : Pools → Option Connection → Option Connection
map_replica pools none = none
map_replica pools (some c) = some (as_replica pools c)

-- The service name is not given, or it is not empty.
abbrev pub IsNamed : Option String → Type 0
IsNamed none = Unit
IsNamed (some name) = (name == "") ≡ false

module _ (pools : Pools) (prefix : String) (env : Environ) where
  map-direct :
      (kwargs : Options)
      → map_replica pools (direct_to pools prefix env kwargs) ≡ direct_to pools prefix env kwargs
  unfolding direct_to
  map-direct kwargs = elim (Option-cases (get_redis_config prefix env)) [
    | inl e ↦ rw e refl
    | inr (config, e) ↦ rw e refl
  ]

  by_sentinel :
      (hosts : Hosts) (name : String) (merged : Options)
      → map_replica pools (
          sentinel_config pools prefix env hosts pools.master merged >>= λ c.
          some (Connection.master_for name c))
        ≡ (sentinel_config pools prefix env hosts pools.replica merged >>= λ c.
            some (Connection.slave_for name c))
  unfolding sentinel_config
  by_sentinel hosts name merged =
      elim (Option-cases (get_int (concat prefix "REDIS_DB") (pos 0) env)) [
        | inl e ↦ rw e refl
        | inr (db, e) ↦ rw e refl
      ]

  -- no name is found, so both connections are to the one Redis
  unnamed :
      (hosts : Hosts) (given : Option String) (kwargs : Options)
      → IsNamed given
      → get_sentinel_hosts env ≡ some (some hosts)
      → (service_name given prefix env == "") ≡ true
      → create_redis_connection pools prefix env none (merge kwargs)
        ≡ map_replica pools (direct_to pools prefix env (merge kwargs))
  unfolding create_redis_connection
  unnamed hosts (some name) kwargs named e unset = absurd (cc (unset, named))
  unnamed hosts none kwargs named e unset =
      rw (e, ◌>>=◌, redis_connection, unset, merge_idem kwargs) (sym (map-direct (merge kwargs)))

  remade :
      (hosts : Option (Option Hosts)) (given : Option String) (kwargs : Options)
      → IsNamed given
      → get_sentinel_hosts env ≡ hosts
      → create_replica_connection pools prefix env given kwargs
        ≡ map_replica pools (create_redis_connection pools prefix env given kwargs)
  unfolding create_replica_connection create_redis_connection
  remade none given kwargs named e = rw e refl
  remade (some none) given kwargs named e =
      rw (e, ◌>>=◌, replica_connection, e, merge_idem kwargs) (sym (map-direct (merge kwargs)))
  remade (some (some hosts)) given kwargs named e =
      let name = service_name given prefix env in
      elim (Bool-cases (name == "")) [
        | inl unset ↦
            rw (e, redis_connection, replica_connection, unset)
              (unnamed hosts given kwargs named e unset)
        | inr set ↦
            rw (e, redis_connection, replica_connection, set)
              (sym (by_sentinel hosts name (merge kwargs)))
      ]

  -- For a service name that is not given, or is given and not empty: the connection for reads fails exactly
  -- where that for writes does; it reaches the replicas of the same master group by the same Sentinels, with
  -- the same password, database and options and the replicas' pool size, and where the writes go to a
  -- Redis directly, the reads go to it with the same settings.
  pub replica_follows_master :
      (given : Option String) (kwargs : Options)
      → IsNamed given
      → create_replica_connection pools prefix env given kwargs
        ≡ map_replica pools (create_redis_connection pools prefix env given kwargs)
  replica_follows_master given kwargs named = remade _ given kwargs named refl
