-- ===== src/Cache/Open.antt =====
-- Open, OpenDefault, OpenManager and the manager of cache/cache.go. `Builders` has the constructors
-- of the stores, each over a world; options that are nil are left out of the list of options.
-- Only what Open returned stands in the map of a manager, so no entry is nil.
pub mod Lookup
use chobits.Prelude.{
  Bool, true, false, Option, none, some, List, [], ◌∷◌, Bytes, codes, Result, ok, err,
  if◌then◌else◌, ◌||◌,
}
use chobits.Text.{text_eq}
use chobits.Text.Case.{to_lower}
use chobits.Text.Trim.{trim_space}
use chobits.Text.Dict.{Dict, lookup, insert}
use chobits.Config.Dsn.{is_empty}
use chobits.Cache.{Error, Err, Cache, join, wrapped, unsupported_driver}
use chobits.Cache.Config.{
  Config, StoreConfig, RedisConfig, DatabaseConfig, driver_memory, driver_redis, driver_database,
  or_text, store_defaults, apply_defaults, named_or, no_store, store,
}
use chobits.Cache.Prefix.{with_store_prefix}
use chobits.Registry.{Registry, Manager, open_loop, take_default, close_all}

-- NewMemory, OpenRedis, and OpenDatabase with the resolver of the options.
pub record Builders (W : Type 0) : Type 0 where
  pub new_memory : W → Cache W × W
  pub open_redis : RedisConfig → W → Result Error (Cache W) × W
  pub open_database : DatabaseConfig → W → Result Error (Cache W) × W

pub data Driver : Type 0 where
  memory redis database unknown : Driver

-- The cases of the switch of Open.
unfoldable pub driver_of : Bytes → Driver
unfolding is_empty text_eq
driver_of d =
    if is_empty d || text_eq d driver_memory
    then memory
    else if text_eq d driver_redis
    then redis
    else if text_eq d driver_database
    then database
    else unknown

-- redisCfg
unfoldable pub with_prefix : RedisConfig → Bytes → RedisConfig
unfolding or_text
with_prefix c prefix = record c { prefix = or_text c.prefix prefix }

module _ {W : Type 0} (builders : Builders W) where
  unfoldable pub prefixed : Bytes → Result Error (Cache W) × W → Result Error (Cache W) × W
  unfolding with_store_prefix
  prefixed prefix (ok s, w) = (ok (with_store_prefix s prefix), w)
  prefixed prefix (err e, w) = (err e, w)

  unfoldable pub open_kind : StoreConfig → Driver → W → Result Error (Cache W) × W
  unfolding with_store_prefix with_prefix prefixed
  open_kind c memory w =
      let (s, w') = builders.new_memory w in (ok (with_store_prefix s c.prefix), w')
  open_kind c redis w = builders.open_redis (with_prefix c.redis c.prefix) w
  open_kind c database w = prefixed c.prefix (builders.open_database c.database w)
  open_kind c unknown w = (err (unsupported_driver c.driver), w)

  -- Open
  unfoldable pub open_store : StoreConfig → W → Result Error (Cache W) × W
  unfolding store_defaults open_kind driver_of to_lower trim_space
  open_store c =
      let cfg = store_defaults c in open_kind cfg (driver_of (to_lower (trim_space cfg.driver)))

  unfoldable pub open_found : Result Error StoreConfig → W → Result Error (Cache W) × W
  unfolding open_store
  open_found (ok c) w = open_store c w
  open_found (err e) w = (err e, w)

  unfoldable pub open_default : Config → W → Result Error (Cache W) × W
  unfolding store open_found
  open_default c w = open_found (store c []) w

  unfoldable pub stores : Registry W StoreConfig (Cache W) Error
  unfolding open_store join
  stores = record { enter = open_store; close = λ s. s.close; join = join; label = wrapped }

  -- what follows the loop of OpenManager
  unfoldable pub settle :
      Bytes → Result Error (Dict (Cache W)) × W → Result Error (Manager (Cache W)) × W
  unfolding take_default lookup insert stores no_store
  settle default (err e, w) = (err e, w)
  settle default (ok (s ∷ ss), w) =
      take_default stores default no_store (s ∷ ss) w (lookup default (s ∷ ss))
  settle default (ok [], w) =
      let (s, w') = builders.new_memory w in
      let only = insert (codes "default") s [] in
      take_default stores (codes "default") no_store only w' (lookup (codes "default") only)

  unfoldable pub open_manager : Config → W → Result Error (Manager (Cache W)) × W
  unfolding apply_defaults open_loop settle
  open_manager c w =
      let cfg = apply_defaults c in settle cfg.default_store (open_loop stores cfg.stores [] w)

  -- Close of a manager that is not nil
  unfoldable pub close_manager : Manager (Cache W) → W → Err × W
  unfolding close_all stores
  close_manager m w = close_all stores m.dbs w

-- Cache: nil is `none`
unfoldable pub cache : {W : Type 0} → Manager (Cache W) → Bytes → Option (Cache W)
unfolding named_or lookup
cache m name = lookup (named_or name m.default_name) m.dbs
