-- ===== src/Gorm.antt =====
-- Package gormdb: the manager of named gorm connections. gorm and its dialects are parameters, and
-- so are the other fields of a gorm.Config than its logger. The handles are those of package
-- database. Contexts are not modelled.
pub mod Handles
use chobits.Prelude.{
  ℕ, ◌≡◌, refl, Bool, true, false, Option, none, some, List, [], ◌∷◌, Bytes, codes, if◌then◌else◌,
  Result, ok, err,
}
use chobits.Text.{text_eq}
use chobits.Text.Case.{to_lower}
use chobits.Text.Trim.{trim_space}
use chobits.Config.{MySql, SqLite, DatabaseConnection, Databases}
use chobits.Config.Dsn.{is_empty}
use chobits.Cache.Config.{or_text}
use chobits.Registry.{Registry, Manager, open_all, close_all}
use chobits.Database.{
  Error, Err, message, unsupported_gorm, wrapped, gorm_not_found, join, Sql, open_my_sql,
  open_sq_lite, Driver, my_sql, sq_lite, unknown,
}

-- A logger: one of gorm's or the program's, or a suppressNotFoundLogger around one.
pub data Logger : Type 0 where
  plain : ℕ → Logger
  suppress_not_found : Logger → Logger

-- Trace: the number of the logger that is told, if one is; `record_not_found` says that the error is
-- gorm.ErrRecordNotFound.
unfoldable pub trace : Logger → Bool → Option ℕ
trace (plain n) record_not_found = some n
trace (suppress_not_found l) true = none
trace (suppress_not_found l) false = trace l false

-- gorm.Config: its logger, if it is set, and the rest.
pub record GormConfig (R : Type 0) : Type 0 where
  pub logger : Option Logger
  pub rest : R

pub record Options (R : Type 0) : Type 0 where
  pub config : Option (GormConfig R)
  pub logger : Option Logger
  pub suppress_record_not_found : Bool

pub data Dialector : Type 0 where
  my_sql_dialector sq_lite_dialector : ℕ → Dialector

-- What the package calls of gorm: Open and DB, its default logger and the zero of the other fields
-- of a Config.
pub record Gorm (W G R : Type 0) : Type 0 where
  pub open_gorm : Dialector → GormConfig R → W → Result Error G × W
  pub sql_db : G → Result Error ℕ
  pub default_logger : ℕ
  pub zero_rest : R

unfoldable pub with_config : {R : Type 0} → Option (GormConfig R) → Options R → Options R
with_config c o = record o { config = c }

unfoldable pub with_logger : {R : Type 0} → Option Logger → Options R → Options R
with_logger l o = record o { logger = l }

unfoldable pub with_suppress_record_not_found : {R : Type 0} → Bool → Options R → Options R
with_suppress_record_not_found b o = record o { suppress_record_not_found = b }

-- for _, opt := range opts { opt(&options) }
unfoldable pub apply_options : {R : Type 0} → List (Options R → Options R) → Options R → Options R
apply_options [] o = o
apply_options (opt ∷ opts) o = apply_options opts (opt o)

unfoldable pub or_logger : Option Logger → Option Logger → Option Logger
or_logger none l = l
or_logger (some k) l = some k

-- the logger of a configuration, or the default one, wrapped
unfoldable pub suppressed : ℕ → Option Logger → Logger
suppressed default none = suppress_not_found (plain default)
suppressed default (some l) = suppress_not_found l

unfoldable pub normalized_driver : Bytes → Bytes
unfolding to_lower trim_space text_eq
normalized_driver driver =
    let d = to_lower (trim_space driver) in
    if text_eq d (codes "sqlite3") then codes "sqlite" else d

-- The cases of the switches on a normalized driver.
unfoldable pub driver_of : Bytes → Driver
unfolding is_empty text_eq
driver_of d =
    if is_empty d
    then my_sql
    else if text_eq d (codes "mysql")
    then my_sql
    else if text_eq d (codes "sqlite")
    then sq_lite
    else unknown

-- fmt.Errorf("%w: %s", ErrNotFound, name)
unfoldable pub missing : Bytes → Error
missing name = wrapped name gorm_not_found

abbrev pub disabled : Error
disabled = message (codes "sqlite support is disabled; rebuild with -tags sqlite")

module _ {W G R : Type 0} (sql : Sql W) (gorm : Gorm W G R) (tagged : Bool) where
  -- cfg, of the options
  unfoldable pub config_of : Option (GormConfig R) → GormConfig R
  config_of none = record { logger = none; rest = gorm.zero_rest }
  config_of (some c) = c

  unfoldable pub build_config : List (Options R → Options R) → GormConfig R
  unfolding apply_options config_of or_logger suppressed
  build_config opts =
      let o =
        apply_options opts
          (record { config = none; logger = none; suppress_record_not_found = false }) in
      let cfg = config_of o.config in
      let logger = or_logger o.logger cfg.logger in
      record cfg {
        logger =
            if o.suppress_record_not_found
            then some (suppressed gorm.default_logger logger)
            else logger;
      }

  -- the dialect of a driver, of the name that was given
  unfoldable pub dialector : Bytes → Driver → ℕ → Result Error Dialector
  dialector name my_sql db = ok (my_sql_dialector db)
  dialector name sq_lite db = if tagged then ok (sq_lite_dialector db) else err disabled
  dialector name unknown db = err (unsupported_gorm name)

  unfoldable pub open_dialector :
      List (Options R → Options R) → Result Error Dialector → W → Result Error G × W
  unfolding build_config
  open_dialector opts (ok d) w = gorm.open_gorm d (build_config opts) w
  open_dialector opts (err e) w = (err e, w)

  -- OpenSQL: a nil *sql.DB is `none`
  unfoldable pub open_sql : Bytes → Option ℕ → List (Options R → Options R) → W → Result Error G × W
  unfolding dialector driver_of normalized_driver open_dialector
  open_sql name none opts w = (err (message (codes "sql db is nil")), w)
  open_sql name (some db) opts w =
      open_dialector opts (dialector name (driver_of (normalized_driver name)) db) w

  -- the handle closed, if gorm did not open
  unfoldable pub or_close : ℕ → Result Error G × W → Result Error G × W
  or_close db (ok g, w) = (ok g, w)
  or_close db (err e, w) = (err e, (sql.close db w).1)

  -- from the result of database.OpenMySQL or database.OpenSQLite on
  unfoldable pub over_sql :
      Bytes → List (Options R → Options R) → Result Error ℕ × W → Result Error G × W
  unfolding open_sql or_close
  over_sql name opts (ok db, w) = or_close db (open_sql name (some db) opts w)
  over_sql name opts (err e, w) = (err e, w)

  unfoldable pub open_gorm_my_sql : List (Options R → Options R) → MySql → W → Result Error G × W
  unfolding open_my_sql over_sql
  open_gorm_my_sql opts c w = over_sql (codes "mysql") opts (open_my_sql sql c w)

  unfoldable pub open_gorm_sq_lite : List (Options R → Options R) → SqLite → W → Result Error G × W
  unfolding open_sq_lite over_sql
  open_gorm_sq_lite opts c w =
      if tagged then over_sql (codes "sqlite") opts (open_sq_lite sql c w) else (err disabled, w)

  unfoldable pub open_kind :
      List (Options R → Options R) → DatabaseConnection → Driver → W → Result Error G × W
  unfolding open_gorm_my_sql open_gorm_sq_lite
  open_kind opts c my_sql w = open_gorm_my_sql opts c.my_sql w
  open_kind opts c sq_lite w = open_gorm_sq_lite opts c.sq_lite w
  open_kind opts c unknown w = (err (unsupported_gorm c.driver), w)

  -- Open
  unfoldable pub open_connection :
      List (Options R → Options R) → DatabaseConnection → W → Result Error G × W
  unfolding open_kind driver_of normalized_driver
  open_connection opts c = open_kind opts c (driver_of (normalized_driver c.driver))

  unfoldable pub close_handle : Result Error ℕ → W → Err × W
  close_handle (ok db) w = sql.close db w
  close_handle (err e) w = (some e, w)

  -- Close
  unfoldable pub close_db : G → W → Err × W
  unfolding close_handle
  close_db g w = close_handle (gorm.sql_db g) w

  unfoldable pub connections : List (Options R → Options R) → Registry W DatabaseConnection G Error
  unfolding open_connection close_db join
  connections opts = record {
    enter = open_connection opts;
    close = close_db;
    join = join;
    label = λ name e. wrapped name e;
  }

  unfoldable pub open_manager :
      List (Options R → Options R) → Databases → W → Result Error (Manager G) × W
  unfolding connections open_all or_text
  open_manager opts cfg =
      open_all (connections opts) (or_text cfg.default (codes "default"))
        (message (codes "no gorm database connections configured")) missing cfg.connections

  -- Close of a manager that is not nil
  unfoldable pub close_manager : List (Options R → Options R) → Manager G → W → Err × W
  unfolding close_all connections
  close_manager opts m w = close_all (connections opts) m.dbs w
