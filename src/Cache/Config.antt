-- ===== src/Cache/Config.antt =====
-- The configuration of cache/cache.go and its defaults. A map that is nil and one that is empty are
-- both the empty list, which the code does not tell apart.
use chobits.Prelude.{
  Bool, false, ◌||◌, none, some, [], ◌∷◌, Bytes, codes, if◌then◌else◌, Result, ok, err,
}
use chobits.Int64.{ℤ, pos}
use chobits.Text.Case.{equal_fold}
use chobits.Text.Trim.{trim_space}
use chobits.Text.Dict.{Dict, lookup, insert, map_values}
use chobits.Cache.{Error, wrapped, store_not_found}

pub record RedisConfig : Type 0 where
  pub addr : Bytes
  pub username : Bytes
  pub password : Bytes
  pub db : ℤ
  pub prefix : Bytes
  pub required : Bool

pub record DatabaseConfig : Type 0 where
  pub connection : Bytes
  pub driver : Bytes
  pub table : Bytes
  pub auto_migrate : Bool

pub record StoreConfig : Type 0 where
  pub driver : Bytes
  pub prefix : Bytes
  pub required : Bool
  pub redis : RedisConfig
  pub database : DatabaseConfig

pub record Config : Type 0 where
  pub default_store : Bytes
  pub stores : Dict StoreConfig

abbrev pub driver_memory : Bytes
driver_memory = codes "memory"

abbrev pub driver_redis : Bytes
driver_redis = codes "redis"

abbrev pub driver_database : Bytes
driver_database = codes "database"

-- if value == "" { value = fallback }
unfoldable pub or_text : Bytes → Bytes → Bytes
or_text [] fallback = fallback
or_text (a ∷ s) fallback = a ∷ s

-- cfg.Database.ApplyDefaults()
unfoldable pub database_defaults : DatabaseConfig → DatabaseConfig
unfolding or_text
database_defaults c = record c { table = or_text c.table (codes "chobits_cache") }

unfoldable pub set_addr : RedisConfig → RedisConfig
unfolding or_text
set_addr c = record c { addr = or_text c.addr (codes "127.0.0.1:6379") }

unfoldable pub store_defaults : StoreConfig → StoreConfig
unfolding or_text set_addr database_defaults equal_fold
store_defaults c =
    let driver = or_text c.driver driver_memory in
    record c {
      driver = driver;
      redis = if equal_fold driver driver_redis then set_addr c.redis else c.redis;
      database =
          if equal_fold driver driver_database then database_defaults c.database else c.database;
    }

unfoldable pub is_required : StoreConfig → Bool
is_required c = c.required || c.redis.required

-- StoreConfig{Driver: DriverMemory}
abbrev pub memory_store : StoreConfig
memory_store = record {
  driver = driver_memory;
  prefix = [];
  required = false;
  redis = record {
    addr = [];
    username = [];
    password = [];
    db = pos 0;
    prefix = [];
    required = false;
  };
  database = record { connection = []; driver = []; table = []; auto_migrate = false };
}

-- the stores, or one of the default name, if there is none
unfoldable pub some_store : Bytes → Dict StoreConfig → Dict StoreConfig
unfolding insert
some_store name [] = insert name memory_store []
some_store name (s ∷ ss) = s ∷ ss

unfoldable pub apply_defaults : Config → Config
unfolding or_text some_store map_values store_defaults
apply_defaults c =
    let name = or_text c.default_store (codes "default") in
    record { default_store = name; stores = map_values store_defaults (some_store name c.stores) }

-- strings.TrimSpace(name) == "", and then the default
unfoldable pub named_or : Bytes → Bytes → Bytes
unfolding trim_space
named_or name default = elim (trim_space name) [ [] ↦ default | _ ↦ name ]

-- fmt.Errorf("%w: %s", ErrStoreNotFound, name)
unfoldable pub no_store : Bytes → Error
no_store name = wrapped name store_not_found

unfoldable pub store : Config → Bytes → Result Error StoreConfig
unfolding apply_defaults named_or lookup store_defaults no_store
store c name =
    let defaulted = apply_defaults c in
    let chosen = named_or name defaulted.default_store in
    elim (lookup chosen defaulted.stores) [
      | none ↦ err (no_store chosen)
      | some found ↦ ok (store_defaults found)
    ]
