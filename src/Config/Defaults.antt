-- ===== src/Config/Defaults.antt =====
-- ApplyDefaults of config/config.go, and what reads the configuration through it.
use chobits.Prelude.{none, some, [], ◌∷◌, Bytes, codes, if◌then◌else◌, Result, ok, err, ◌&&◌}
use chobits.Int64.{ℤ, pos, duration}
use chobits.Text.{text_eq}
use chobits.Text.Case.{to_lower}
use chobits.Text.Trim.{trim_space}
use chobits.Text.Dict.{Dict, lookup, insert, map_values}
use chobits.Cache.Config.{or_text, apply_defaults as cache_defaults, named_or, set_addr}
use chobits.Config.{
  Error, connection_missing, Server, MySql, SqLite, DatabaseConnection, Databases, Token, Common,
}
use chobits.Config.Dsn.{or_int, is_empty}

unfoldable pub my_sql_defaults : MySql → MySql
unfolding or_int or_text
my_sql_defaults c = record c {
  port = or_int c.port 3306;
  charset = or_text c.charset (codes "utf8mb4");
  max_open_conns = or_int c.max_open_conns 25;
  max_idle_conns = or_int c.max_idle_conns 10;
  conn_max_lifetime_seconds = or_int c.conn_max_lifetime_seconds 300;
}

unfoldable pub sq_lite_defaults : SqLite → SqLite
unfolding or_int is_empty
sq_lite_defaults c = record c {
  path = if is_empty c.path && is_empty c.dsn then codes "./data/app.db" else c.path;
  max_open_conns = or_int c.max_open_conns 1;
  max_idle_conns = or_int c.max_idle_conns 1;
  conn_max_lifetime_seconds = or_int c.conn_max_lifetime_seconds 300;
}

-- the body of the loop over the connections
unfoldable pub connection_defaults : DatabaseConnection → DatabaseConnection
unfolding or_text my_sql_defaults sq_lite_defaults
connection_defaults c = record {
  driver = or_text c.driver (codes "mysql");
  my_sql = my_sql_defaults c.my_sql;
  sq_lite = sq_lite_defaults c.sq_lite;
}

-- the connections, or one of the default name, if there is none
unfoldable pub some_connection :
    Bytes → DatabaseConnection → Dict DatabaseConnection → Dict DatabaseConnection
unfolding insert
some_connection name only [] = insert name only []
some_connection name only (c ∷ cs) = c ∷ cs

-- applyDatabaseDefaults
unfoldable pub database_defaults : MySql → SqLite → Databases → Databases
unfolding or_text some_connection map_values connection_defaults
database_defaults my_sql sq_lite d =
    let name = or_text d.default (codes "default") in
    let only : DatabaseConnection = record {
      driver = or_text d.driver (codes "mysql");
      my_sql = my_sql;
      sq_lite = sq_lite;
    } in
    record {
      default = name;
      driver = d.driver;
      connections = map_values connection_defaults (some_connection name only d.connections);
    }

unfoldable pub server_defaults : Server → Server
unfolding or_text or_int
server_defaults s = record s {
  addr = or_text s.addr (codes ":8080");
  read_header_timeout_seconds = or_int s.read_header_timeout_seconds 5;
  shutdown_timeout_seconds = or_int s.shutdown_timeout_seconds 10;
}

-- ApplyDefaults of Common
unfoldable pub apply_defaults : Common → Common
unfolding or_text or_int server_defaults database_defaults set_addr cache_defaults
apply_defaults c = record c {
  app = record c.app { env = or_text c.app.env (codes "dev") };
  server = server_defaults c.server;
  database = database_defaults c.my_sql c.sq_lite c.database;
  redis = set_addr c.redis;
  cache = cache_defaults c.cache;
  log = record c.log { level = or_text c.log.level (codes "info") };
  token = record c.token {
    prefix = or_text c.token.prefix (codes "cbt_");
    ttl_seconds = or_int c.token.ttl_seconds 432000;
  };
  storage = record c.storage { max_upload_size = or_int c.storage.max_upload_size 2097152 };
  kdays_uc = record c.kdays_uc { timeout_seconds = or_int c.kdays_uc.timeout_seconds 10 };
}

-- The zero values of Go's structs.
abbrev pub no_my_sql : MySql
no_my_sql = record {
  dsn = [];
  host = [];
  port = pos 0;
  user = [];
  password = [];
  database = [];
  db_name = [];
  charset = [];
  max_open_conns = pos 0;
  max_idle_conns = pos 0;
  conn_max_lifetime_seconds = pos 0;
}

abbrev pub no_sq_lite : SqLite
no_sq_lite = record {
  dsn = [];
  path = [];
  max_open_conns = pos 0;
  max_idle_conns = pos 0;
  conn_max_lifetime_seconds = pos 0;
}

-- Connection: of Common{Database: cfg} only the part that it reads
unfoldable pub connection : Databases → Bytes → Result Error DatabaseConnection
unfolding database_defaults named_or lookup
connection d name =
    let dbs = database_defaults no_my_sql no_sq_lite d in
    let chosen = named_or name dbs.default in
    elim (lookup chosen dbs.connections) [
      | none ↦ err (connection_missing chosen)
      | some found ↦ ok found
    ]

-- the driver in the words of the program
unfoldable pub normal_driver : Bytes → Bytes
unfolding to_lower trim_space or_text text_eq
normal_driver driver =
    let d = or_text (to_lower (trim_space driver)) (codes "mysql") in
    if text_eq d (codes "sqlite3") then codes "sqlite" else d

unfoldable pub driver_name : Databases → Bytes → Result Error Bytes
unfolding connection normal_driver
driver_name d name = elim (connection d name) [
  | err e ↦ err e
  | ok found ↦ ok (normal_driver found.driver)
]

-- so many seconds, as a time.Duration
unfoldable pub of_seconds : ℤ → ℤ
unfolding duration
of_seconds z = duration 1000000000 z

unfoldable pub read_header_timeout : Server → ℤ
unfolding of_seconds
read_header_timeout s = of_seconds s.read_header_timeout_seconds

unfoldable pub shutdown_timeout : Server → ℤ
unfolding of_seconds
shutdown_timeout s = of_seconds s.shutdown_timeout_seconds

unfoldable pub token_ttl : Token → ℤ
unfolding of_seconds
token_ttl t = of_seconds t.ttl_seconds
