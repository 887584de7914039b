-- ===== src/Database.antt =====
-- Package database: the manager of named connections over database/sql, which is a parameter. A
-- *sql.DB is the number of its handle, and `held` of Database/Handles the handles that are open.
-- Only what Open returned stands in the map of a manager, so no entry is nil. Contexts are not
-- modelled.
pub mod Handles
pub mod Tests
pub mod Lookup
use chobits.Prelude.{
  ℕ, ◌≡◌, refl, Bool, true, false, not, ◌&&◌, ◌||◌, Option, none, some, [], ◌∷◌, Bytes, codes,
  if◌then◌else◌, Result, ok, err, List,
}
use chobits.Int64.{ℤ, pos, is_positive}
use chobits.Text.{text_eq, has_prefix}
use chobits.Text.Case.{to_lower}
use chobits.Text.Trim.{trim_space}
use chobits.Text.Path.{dir}
use chobits.Config.{MySql, SqLite, DatabaseConnection, Databases}
use chobits.Config as Config
use chobits.Config.Dsn.{my_sql_dsn, sq_lite_dsn, or_int, is_empty}
use chobits.Config.Defaults.{of_seconds}
use chobits.Cache.Config.{or_text}
use chobits.Registry.{Registry, Manager, open_all, close_all}
use chobits.Registry as Registry

-- The errors of packages database and gormdb. `failure` is one of database/sql, gorm, a driver or the
-- file system; the driver of `unsupported` is printed quoted.
pub data Error : Type 0 where
  not_found gorm_not_found : Error
  config : Config.Error → Error
  failure : ℕ → Error
  message : Bytes → Error
  unsupported unsupported_gorm : Bytes → Error
  wrapped : Bytes → Error → Error
  joined1 : Error → Error
  joined2 : Error → Error → Error

abbrev pub Err : Type 0
Err = Option Error

-- errors.Join
unfoldable pub join : Err → Err → Err
join none none = none
join (some e) none = some (joined1 e)
join none (some f) = some (joined1 f)
join (some e) (some f) = some (joined2 e f)

-- fmt.Errorf("%w: %s", ErrNotFound, name)
unfoldable pub missing : Bytes → Error
missing name = wrapped name not_found

-- What the package calls of database/sql and of package os.
pub record Sql (W : Type 0) : Type 0 where
  pub open_db : Bytes → Bytes → W → Result Error ℕ × W
  pub set_max_open_conns : ℕ → ℤ → W → W
  pub set_max_idle_conns : ℕ → ℤ → W → W
  pub set_conn_max_lifetime : ℕ → ℤ → W → W
  pub ping : ℕ → W → Err × W
  pub close : ℕ → W → Err × W
  pub mkdir_all : Bytes → W → Err × W

-- if lifetime <= 0 { lifetime = 5 * time.Minute }
unfoldable pub lifetime_of : ℤ → ℤ
unfolding of_seconds
lifetime_of seconds =
    let lifetime = of_seconds seconds in if is_positive lifetime then lifetime else pos 300000000000

-- isInMemorySQLitePath
unfoldable pub is_in_memory : Bytes → Bool
unfolding trim_space text_eq has_prefix
is_in_memory value =
    let v = trim_space value in text_eq v (codes ":memory:") || has_prefix v (codes "file::memory:")

-- The cases of the switch of Open.
pub data Driver : Type 0 where
  my_sql sq_lite unknown : Driver

unfoldable pub driver_of : Bytes → Driver
unfolding text_eq is_empty
driver_of driver =
    if is_empty driver || text_eq driver (codes "mysql")
    then my_sql
    else if text_eq driver (codes "sqlite") || text_eq driver (codes "sqlite3")
    then sq_lite
    else unknown

module _ {W : Type 0} (sql : Sql W) where
  -- the three settings of a new handle
  unfoldable pub configure : ℕ → ℤ → ℤ → ℤ → W → W
  configure db max_open max_idle lifetime w =
      sql.set_conn_max_lifetime db lifetime
        (sql.set_max_idle_conns db max_idle (sql.set_max_open_conns db max_open w))

  -- from PingContext on
  unfoldable pub after_ping : Bytes → ℕ → Err × W → Result Error ℕ × W
  after_ping label db (none, w) = (ok db, w)
  after_ping label db (some e, w) = (err (wrapped label e), (sql.close db w).1)

  -- from the result of sql.Open on
  unfoldable pub after_open : Bytes → Bytes → (ℕ → W → W) → Result Error ℕ × W → Result Error ℕ × W
  unfolding after_ping
  after_open opening pinging settings (ok db, w) =
      after_ping pinging db (sql.ping db (settings db w))
  after_open opening pinging settings (err e, w) = (err (wrapped opening e), w)

  unfoldable pub my_sql_settings : MySql → ℕ → W → W
  unfolding configure or_int lifetime_of
  my_sql_settings c db =
      configure db (or_int c.max_open_conns 25) (or_int c.max_idle_conns 10)
        (lifetime_of c.conn_max_lifetime_seconds)

  -- from the test of the error of DSNString on
  unfoldable pub with_dsn :
      (Bytes → W → Result Error ℕ × W) → Result Config.Error Bytes → W → Result Error ℕ × W
  with_dsn next (ok dsn) w = next dsn w
  with_dsn next (err e) w = (err (config e), w)

  unfoldable pub open_my_sql : MySql → W → Result Error ℕ × W
  unfolding my_sql_dsn my_sql_settings after_open with_dsn
  open_my_sql c =
      with_dsn
        (λ dsn w.
          after_open (codes "open mysql") (codes "ping mysql") (my_sql_settings c)
            (sql.open_db (codes "mysql") dsn w))
        (my_sql_dsn c)

  unfoldable pub sq_lite_settings : SqLite → ℕ → W → W
  unfolding configure or_int lifetime_of
  sq_lite_settings c db =
      configure db (or_int c.max_open_conns 1) (or_int c.max_idle_conns 1)
        (lifetime_of c.conn_max_lifetime_seconds)

  -- from the result of MkdirAll on
  unfoldable pub after_mkdir : SqLite → Bytes → Err × W → Result Error ℕ × W
  unfolding sq_lite_settings after_open
  after_mkdir c dsn (some e, w) = (err (wrapped (codes "create sqlite directory") e), w)
  after_mkdir c dsn (none, w) =
      after_open (codes "open sqlite") (codes "ping sqlite") (sq_lite_settings c)
        (sql.open_db (codes "sqlite") dsn w)

  -- whether the path needs its directory
  unfoldable pub needs_dir : SqLite → Bool
  unfolding is_empty is_in_memory
  needs_dir c = is_empty c.dsn && (not (is_empty c.path) && not (is_in_memory c.path))

  -- OpenSQLite of a build with the tag sqlite
  unfoldable pub open_sq_lite : SqLite → W → Result Error ℕ × W
  unfolding sq_lite_dsn needs_dir dir after_mkdir with_dsn
  open_sq_lite c =
      with_dsn
        (λ dsn w.
          after_mkdir c dsn (if needs_dir c then sql.mkdir_all (dir c.path) w else (none, w)))
        (sq_lite_dsn c)

  -- OpenSQLite of a build without it
  unfoldable pub open_sq_lite_disabled : SqLite → W → Result Error ℕ × W
  open_sq_lite_disabled c w =
      (err (message (codes "sqlite support is disabled; rebuild with -tags sqlite")), w)

  -- `tagged` says which of the two the build has.
  unfoldable pub sq_lite_opener : Bool → SqLite → W → Result Error ℕ × W
  unfolding open_sq_lite open_sq_lite_disabled
  sq_lite_opener true = open_sq_lite
  sq_lite_opener false = open_sq_lite_disabled

  unfoldable pub open_kind : Bool → DatabaseConnection → Driver → W → Result Error ℕ × W
  unfolding open_my_sql sq_lite_opener
  open_kind tagged c my_sql w = open_my_sql c.my_sql w
  open_kind tagged c sq_lite w = sq_lite_opener tagged c.sq_lite w
  open_kind tagged c unknown w = (err (unsupported c.driver), w)

  -- Open
  unfoldable pub open_connection : Bool → DatabaseConnection → W → Result Error ℕ × W
  unfolding open_kind driver_of to_lower trim_space
  open_connection tagged c = open_kind tagged c (driver_of (to_lower (trim_space c.driver)))

  unfoldable pub connections : Bool → Registry W DatabaseConnection ℕ Error
  unfolding open_connection join
  connections tagged = record {
    enter = open_connection tagged;
    close = sql.close;
    join = join;
    label = λ name e. wrapped name e;
  }

  unfoldable pub open_manager : Bool → Databases → W → Result Error (Manager ℕ) × W
  unfolding connections open_all or_text
  open_manager tagged cfg =
      open_all (connections tagged) (or_text cfg.default (codes "default"))
        (message (codes "no database connections configured")) missing cfg.connections

  -- Close of a manager that is not nil
  unfoldable pub close_manager : Bool → Manager ℕ → W → Err × W
  unfolding close_all connections
  close_manager tagged m w = close_all (connections tagged) m.dbs w
