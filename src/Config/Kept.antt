-- ===== src/Config/Kept.antt =====
-- What ApplyDefaults may change: a field that is not set, and no other.
pub mod Defaults
use chobits.Prelude.{◌≡◌, true, [], ◌∷◌, Bytes, ◌⊎◌}
use chobits.Int64.{ℤ, is_zero}
use chobits.Text.Dict.{Dict}
use chobits.Cache.Config.{StoreConfig}
use chobits.Cache.Config as Cache
use chobits.Config.{Server, MySql, SqLite, DatabaseConnection, Common}

-- A text that is set stays.
unfoldable pub KeepsText : Bytes → Bytes → Type 0
KeepsText s t = (s ≡ []) ⊎ (t ≡ s)

-- So does a number that is not zero.
unfoldable pub KeepsInt : ℤ → ℤ → Type 0
KeepsInt z w = (is_zero z ≡ true) ⊎ (w ≡ z)

pub record KeepsMySql (c d : MySql) : Type 0 where
  pub port : KeepsInt c.port d.port
  pub charset : KeepsText c.charset d.charset
  pub max_open : KeepsInt c.max_open_conns d.max_open_conns
  pub max_idle : KeepsInt c.max_idle_conns d.max_idle_conns
  pub lifetime : KeepsInt c.conn_max_lifetime_seconds d.conn_max_lifetime_seconds
  pub others : d ≡ record c {
    port = d.port;
    charset = d.charset;
    max_open_conns = d.max_open_conns;
    max_idle_conns = d.max_idle_conns;
    conn_max_lifetime_seconds = d.conn_max_lifetime_seconds;
  }

pub record KeepsSqLite (c d : SqLite) : Type 0 where
  pub path : KeepsText c.path d.path
  pub max_open : KeepsInt c.max_open_conns d.max_open_conns
  pub max_idle : KeepsInt c.max_idle_conns d.max_idle_conns
  pub lifetime : KeepsInt c.conn_max_lifetime_seconds d.conn_max_lifetime_seconds
  pub others : d ≡ record c {
    path = d.path;
    max_open_conns = d.max_open_conns;
    max_idle_conns = d.max_idle_conns;
    conn_max_lifetime_seconds = d.conn_max_lifetime_seconds;
  }

pub record KeepsConnection (c d : DatabaseConnection) : Type 0 where
  pub driver : KeepsText c.driver d.driver
  pub my_sql : KeepsMySql c.my_sql d.my_sql
  pub sq_lite : KeepsSqLite c.sq_lite d.sq_lite

pub record KeepsServer (c d : Server) : Type 0 where
  pub addr : KeepsText c.addr d.addr
  pub read_header : KeepsInt c.read_header_timeout_seconds d.read_header_timeout_seconds
  pub shutdown : KeepsInt c.shutdown_timeout_seconds d.shutdown_timeout_seconds
  pub origins : d.allowed_origins ≡ c.allowed_origins

pub record KeepsRedis (c d : Cache.RedisConfig) : Type 0 where
  pub addr : KeepsText c.addr d.addr
  pub others : d ≡ record c { addr = d.addr }

pub record KeepsTable (c d : Cache.DatabaseConfig) : Type 0 where
  pub table : KeepsText c.table d.table
  pub others : d ≡ record c { table = d.table }

pub record KeepsStore (c d : StoreConfig) : Type 0 where
  pub driver : KeepsText c.driver d.driver
  pub redis : KeepsRedis c.redis d.redis
  pub database : KeepsTable c.database d.database
  pub others : d ≡ record c { driver = d.driver; redis = d.redis; database = d.database }

-- Two maps with the same names, in the same order, whose values are related one by one.
pub data KeepsEach {V : Type 0} (R : V → V → Type 0) : Dict V → Dict V → Type 0 where
  no_more : KeepsEach R [] []
  one_more :
      {k : Bytes} {v w : V} {m n : Dict V}
      → R v w
      → KeepsEach R m n
      → KeepsEach R ((k, v) ∷ m) ((k, w) ∷ n)

unfoldable pub KeepsMap : {V : Type 0} → (V → V → Type 0) → Dict V → Dict V → Type 0
KeepsMap R m n = (m ≡ []) ⊎ KeepsEach R m n

pub record Keeps (c d : Common) : Type 0 where
  pub env : KeepsText c.app.env d.app.env
  pub server : KeepsServer c.server d.server
  pub default_connection : KeepsText c.database.default d.database.default
  pub driver : d.database.driver ≡ c.database.driver
  pub connections : KeepsMap KeepsConnection c.database.connections d.database.connections
  pub redis : KeepsRedis c.redis d.redis
  pub default_store : KeepsText c.cache.default_store d.cache.default_store
  pub stores : KeepsMap KeepsStore c.cache.stores d.cache.stores
  pub level : KeepsText c.log.level d.log.level
  pub prefix : KeepsText c.token.prefix d.token.prefix
  pub ttl : KeepsInt c.token.ttl_seconds d.token.ttl_seconds
  pub upload : KeepsInt c.storage.max_upload_size d.storage.max_upload_size
  pub timeout : KeepsInt c.kdays_uc.timeout_seconds d.kdays_uc.timeout_seconds
  pub others : d ≡ record c {
    app = record c.app { env = d.app.env };
    server = d.server;
    database = d.database;
    redis = d.redis;
    cache = d.cache;
    log = record c.log { level = d.log.level };
    token = record c.token { prefix = d.token.prefix; ttl_seconds = d.token.ttl_seconds };
    storage = record c.storage { max_upload_size = d.storage.max_upload_size };
    kdays_uc = record c.kdays_uc { timeout_seconds = d.kdays_uc.timeout_seconds };
  }
