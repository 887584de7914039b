-- ===== src/Config/Kept/Defaults.antt =====
-- ApplyDefaults changes no field that is set.
use chobits.Prelude.{
  refl, [], ◌∷◌, ℕ, suc, zero, Bytes, codes, true, false, Bool, ◌&&◌, inl, inr, if◌then◌else◌,
}
use chobits.Int64.{ℤ, pos, negsuc, is_zero}
use chobits.Text.Dict.{Dict, map_values}
use chobits.Cache.Config.{
  or_text, set_addr, StoreConfig, store_defaults, some_store, apply_defaults as cache_defaults,
}
use chobits.Cache.Config as Cache
use chobits.Config.{Server, MySql, SqLite, DatabaseConnection, Common}
use chobits.Config.Dsn.{or_int, is_empty}
use chobits.Config.Defaults.{
  my_sql_defaults, sq_lite_defaults, connection_defaults, some_connection, database_defaults,
  server_defaults, apply_defaults,
}
use chobits.Config.Kept.{
  KeepsText, KeepsInt, KeepsMySql, KeepsSqLite, KeepsConnection, KeepsServer, KeepsRedis,
  KeepsTable, KeepsStore, KeepsEach, no_more, one_more, KeepsMap, Keeps,
}

or_text-KeepsText : (s d : Bytes) → KeepsText s (or_text s d)
unfolding KeepsText or_text
or_text-KeepsText [] d = inl refl
or_text-KeepsText (a ∷ s) d = inr refl

or_int-KeepsInt : (z : ℤ) (n : ℕ) → KeepsInt z (or_int z n)
unfolding KeepsInt or_int is_zero
or_int-KeepsInt (pos zero) n = inl refl
or_int-KeepsInt (pos (suc m)) n = inr refl
or_int-KeepsInt (negsuc m) n = inr refl

my_sql_defaults-KeepsMySql : (c : MySql) → KeepsMySql c (my_sql_defaults c)
unfolding my_sql_defaults
my_sql_defaults-KeepsMySql c = record {
  port = or_int-KeepsInt c.port 3306;
  charset = or_text-KeepsText c.charset (codes "utf8mb4");
  max_open = or_int-KeepsInt c.max_open_conns 25;
  max_idle = or_int-KeepsInt c.max_idle_conns 10;
  lifetime = or_int-KeepsInt c.conn_max_lifetime_seconds 300;
  others = refl;
}

path-KeepsText :
    (p d : Bytes) → KeepsText p (if is_empty p && is_empty d then codes "./data/app.db" else p)
unfolding KeepsText is_empty
path-KeepsText [] d = inl refl
path-KeepsText (a ∷ p) d = inr refl

sq_lite_defaults-KeepsSqLite : (c : SqLite) → KeepsSqLite c (sq_lite_defaults c)
unfolding sq_lite_defaults
sq_lite_defaults-KeepsSqLite c = record {
  path = path-KeepsText c.path c.dsn;
  max_open = or_int-KeepsInt c.max_open_conns 1;
  max_idle = or_int-KeepsInt c.max_idle_conns 1;
  lifetime = or_int-KeepsInt c.conn_max_lifetime_seconds 300;
  others = refl;
}

connection_defaults-KeepsConnection :
    (c : DatabaseConnection) → KeepsConnection c (connection_defaults c)
unfolding connection_defaults
connection_defaults-KeepsConnection c = record {
  driver = or_text-KeepsText c.driver (codes "mysql");
  my_sql = my_sql_defaults-KeepsMySql c.my_sql;
  sq_lite = sq_lite_defaults-KeepsSqLite c.sq_lite;
}

server_defaults-KeepsServer : (s : Server) → KeepsServer s (server_defaults s)
unfolding server_defaults
server_defaults-KeepsServer s = record {
  addr = or_text-KeepsText s.addr (codes ":8080");
  read_header = or_int-KeepsInt s.read_header_timeout_seconds 5;
  shutdown = or_int-KeepsInt s.shutdown_timeout_seconds 10;
  origins = refl;
}

set_addr-KeepsRedis : (c : Cache.RedisConfig) → KeepsRedis c (set_addr c)
unfolding set_addr
set_addr-KeepsRedis c = record {
  addr = or_text-KeepsText c.addr (codes "127.0.0.1:6379");
  others = refl;
}

redis-KeepsRedis : (b : Bool) (c : Cache.RedisConfig) → KeepsRedis c (if b then set_addr c else c)
unfolding KeepsText
redis-KeepsRedis true c = set_addr-KeepsRedis c
redis-KeepsRedis false c = record { addr = inr refl; others = refl }

database-KeepsTable :
    (b : Bool) (c : Cache.DatabaseConfig)
    → KeepsTable c (if b then Cache.database_defaults c else c)
unfolding KeepsText Cache.database_defaults
database-KeepsTable true c = record {
  table = or_text-KeepsText c.table (codes "chobits_cache");
  others = refl;
}
database-KeepsTable false c = record { table = inr refl; others = refl }

store_defaults-KeepsStore : (c : StoreConfig) → KeepsStore c (store_defaults c)
unfolding store_defaults
store_defaults-KeepsStore c = record {
  driver = or_text-KeepsText c.driver _;
  redis = redis-KeepsRedis _ c.redis;
  database = database-KeepsTable _ c.database;
  others = refl;
}

map_values-KeepsEach :
    {V : Type 0} {R : V → V → Type 0} (f : V → V)
    → ((v : V) → R v (f v))
    → (m : Dict V) → KeepsEach R m (map_values f m)
unfolding map_values
map_values-KeepsEach f h [] = no_more
map_values-KeepsEach f h ((k, v) ∷ m) = one_more (h v) (map_values-KeepsEach f h m)

connections-KeepsMap :
    (name : Bytes) (only : DatabaseConnection) (m : Dict DatabaseConnection)
    → KeepsMap KeepsConnection m (map_values connection_defaults (some_connection name only m))
unfolding KeepsMap some_connection
connections-KeepsMap name only [] = inl refl
connections-KeepsMap name only (c ∷ m) =
    inr (map_values-KeepsEach connection_defaults connection_defaults-KeepsConnection (c ∷ m))

stores-KeepsMap :
    (name : Bytes) (m : Dict StoreConfig)
    → KeepsMap KeepsStore m (map_values store_defaults (some_store name m))
unfolding KeepsMap some_store
stores-KeepsMap name [] = inl refl
stores-KeepsMap name (c ∷ m) =
    inr (map_values-KeepsEach store_defaults store_defaults-KeepsStore (c ∷ m))

pub apply_defaults-Keeps : (c : Common) → Keeps c (apply_defaults c)
unfolding apply_defaults database_defaults cache_defaults
apply_defaults-Keeps c = record {
  env = or_text-KeepsText c.app.env (codes "dev");
  server = server_defaults-KeepsServer c.server;
  default_connection = or_text-KeepsText c.database.default (codes "default");
  driver = refl;
  connections = connections-KeepsMap _ _ c.database.connections;
  redis = set_addr-KeepsRedis c.redis;
  default_store = or_text-KeepsText c.cache.default_store (codes "default");
  stores = stores-KeepsMap _ c.cache.stores;
  level = or_text-KeepsText c.log.level (codes "info");
  prefix = or_text-KeepsText c.token.prefix (codes "cbt_");
  ttl = or_int-KeepsInt c.token.ttl_seconds 432000;
  upload = or_int-KeepsInt c.storage.max_upload_size 2097152;
  timeout = or_int-KeepsInt c.kdays_uc.timeout_seconds 10;
  others = refl;
}
