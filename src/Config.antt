-- ===== src/Config.antt =====
-- common/config.py: the environment, the Redis connections that it asks for, and the parsing of the
-- Sentinel hosts. `none` is a ValueError of `int`. Keyword arguments are a function from names.
pub mod Sentinels
pub mod Replica
pub mod Waiting
pub mod Failover
use Prim.Native.String.{◌++◌ as concat}
use dds.Base.{ℕ, String, ◌==◌, true, false, Option, none, some, List, [], ◌∷◌, if◌then◌else◌}
use dds.Base.Int.{ℤ, pos}
use dds.Base.Dict.{Dict, lookup}
use dds.Base.Split.{strip, split, rsplit_once}
use dds.Base.Decimal.{int}
use dds.Orchestrator.Value.{Value}

infixl 5 ◌>>=◌
abbrev pub ◌>>=◌ {ℓ κ} : {A : Type ℓ} {B : Type κ} → Option A → (A → Option B) → Option B
none >>= f = none
some a >>= f = f a

-- os.environ
abbrev pub Environ : Type 0
Environ = Dict String

abbrev pub or_text : String → Option String → String
or_text d none = d
or_text d (some s) = s

-- os.environ.get(key, d)
unfoldable pub get_var : String → String → Environ → String
get_var key d env = or_text d (lookup key env)

abbrev int_or : ℤ → Option String → Option ℤ
int_or d none = some d
int_or d (some s) = int s

-- int(os.environ.get(key, d))
unfoldable pub get_int : String → ℤ → Environ → Option ℤ
get_int key d env = int_or d (lookup key env)

-- _MASTER_POOL and _REPLICA_POOL
pub record Pools : Type 0 where
  pub master : ℤ
  pub replica : ℤ

unfoldable pub pools_of : Environ → Option Pools
pools_of env = do
  master ← get_int "REDIS_MASTER_POOL_SIZE" (pos 512) env
  replica ← get_int "REDIS_REPLICA_POOL_SIZE" (pos 256) env
  some (record { master = master; replica = replica })

pub record RedisConfig : Type 0 where
  pub host : String
  pub port : ℤ
  pub password : String
  pub db : ℤ

-- get_redis_config
unfoldable pub get_redis_config : String → Environ → Option RedisConfig
get_redis_config prefix env = do
  port ← get_int (concat prefix "REDIS_PORT") (pos 6379) env
  db ← get_int (concat prefix "REDIS_DB") (pos 0) env
  some (record {
    host = get_var (concat prefix "REDIS_HOST") "localhost" env;
    port = port;
    password = get_var (concat prefix "REDIS_PASSWORD") "redis" env;
    db = db;
  })

abbrev pub Hosts : Type 0
Hosts = List (String × ℤ)

abbrev with_host : String → Option ℤ → Option Hosts → Option Hosts
with_host host none rest = none
with_host host (some port) none = none
with_host host (some port) (some hosts) = some ((host, port) ∷ hosts)

abbrev add_host : Option (String × String) → Option Hosts → Option Hosts
add_host none rest = rest
add_host (some (host, port)) rest = with_host host (int port) rest

-- the loop over the entries: one with no colon is left out
unfoldable pub parse_hosts : List String → Option Hosts
parse_hosts [] = some []
parse_hosts (entry ∷ entries) = add_host (rsplit_once ":" (strip entry)) (parse_hosts entries)

-- hosts or None
abbrev pub unless_empty : Hosts → Option Hosts
unless_empty [] = none
unless_empty (h ∷ hs) = some (h ∷ hs)

abbrev pub hosts_in : String → Option (Option Hosts)
hosts_in raw =
    if raw == ""
    then some none
    else (parse_hosts (split "," raw) >>= λ hosts. some (unless_empty hosts))

-- get_sentinel_hosts
unfoldable pub get_sentinel_hosts : Environ → Option (Option Hosts)
get_sentinel_hosts env = hosts_in (get_var "SENTINEL_HOSTS" "" env)

abbrev pub Options : Type 0
Options = String → Option Value

-- default_kwargs
abbrev default_kwargs : Options
default_kwargs key =
    if key == "socket_timeout"
    then some (Value.number (pos 5))
    else if key == "socket_connect_timeout"
    then some (Value.number (pos 5))
    else if key == "health_check_interval"
    then some (Value.number (pos 30))
    else none

abbrev first_of : Option Value → Option Value → Option Value
first_of none d = d
first_of (some v) d = some v

-- {**default_kwargs, **kwargs}
unfoldable pub merge : Options → Options
merge kwargs key = first_of (kwargs key) (default_kwargs key)

-- What a Sentinel client is made of.
pub record SentinelConfig : Type 0 where
  pub hosts : Hosts
  pub password : String
  pub db : ℤ
  pub max_connections : ℤ
  pub options : Options

-- aioredis.Redis(…), sentinel.master_for(name) or sentinel.slave_for(name)
pub data Connection : Type 0 where
  direct : RedisConfig → ℤ → Options → Connection
  master_for slave_for : String → SentinelConfig → Connection

-- the service name: the one that is given, or that of the environment
abbrev pub service_name : Option String → String → Environ → String
service_name none prefix env = get_var (concat prefix "REDIS_SENTINEL_SERVICE") "" env
service_name (some name) prefix env = name

module _ (pools : Pools) (prefix : String) (env : Environ) where
  unfoldable pub direct_to : Options → Option Connection
  direct_to merged = do
    config ← get_redis_config prefix env
    some (Connection.direct config pools.master merged)

  unfoldable pub sentinel_config : Hosts → ℤ → Options → Option SentinelConfig
  sentinel_config hosts max_connections merged = do
    db ← get_int (concat prefix "REDIS_DB") (pos 0) env
    some (record {
      hosts = hosts;
      password = get_var (concat prefix "REDIS_PASSWORD") "redis" env;
      db = db;
      max_connections = max_connections;
      options = merged;
    })

  abbrev pub redis_connection : Option Hosts → String → Options → Option Connection
  redis_connection none name merged = direct_to merged
  redis_connection (some hosts) name merged =
      if name == ""
      then direct_to merged
      else (sentinel_config hosts pools.master merged >>= λ c. some (Connection.master_for name c))

  -- create_redis_connection
  unfoldable pub create_redis_connection : Option String → Options → Option Connection
  create_redis_connection name kwargs = get_sentinel_hosts env >>= λ hosts.
      redis_connection hosts (service_name name prefix env) (merge kwargs)

  abbrev pub replica_connection : Option Hosts → String → Options → Option Connection
  replica_connection none name merged = create_redis_connection none merged
  replica_connection (some hosts) name merged =
      if name == ""
      then create_redis_connection none merged
      else (sentinel_config hosts pools.replica merged >>= λ c. some (Connection.slave_for name c))

  -- create_replica_connection
  unfoldable pub create_replica_connection : Option String → Options → Option Connection
  create_replica_connection name kwargs = get_sentinel_hosts env >>= λ hosts.
      replica_connection hosts (service_name name prefix env) (merge kwargs)
