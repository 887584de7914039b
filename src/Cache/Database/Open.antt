-- ===== src/Cache/Database/Open.antt =====
-- OpenDatabase, NewDatabase and Migrate of cache/database.go. A handle that a resolver gives says
-- whether its *sql.DB is not nil.
use chobits.Prelude.{
  Bool, true, false, ◌&&◌, ◌||◌, Option, none, some, [], ◌∷◌, ◌++◌, Bytes, codes, Result, ok, err,
  if◌then◌else◌, leb, ◌==◌,
}
use chobits.Text.{text_eq}
use chobits.Text.Case.{to_lower}
use chobits.Text.Trim.{trim_space}
use chobits.Cache.{Error, Err, wrapped, database_unset, unsupported_driver, bad_identifier}
use chobits.Cache.Config.{DatabaseConfig, database_defaults, or_text}
use chobits.Cache.Database.{Database}
use chobits.Cache.Database.Sql.{Sql}

pub record Handle : Type 0 where
  pub has_db : Bool
  pub driver : Bytes

-- A DatabaseResolver: nil is `none`.
abbrev pub Resolver : Type 0 → Type 0
Resolver W = Option (Bytes → W → Result Error Handle × W)

unfoldable pub is_letter : Bytes → Bool
is_letter [] = false
is_letter (c ∷ s) = (leb b'A' c && leb c b'Z') || (leb b'a' c && leb c b'z') || (c == b'_')

-- [A-Za-z0-9_]*$
unfoldable pub are_word : Bytes → Bool
are_word [] = true
are_word (c ∷ s) =
    ((leb b'A' c && leb c b'Z')
      || (leb b'a' c && leb c b'z')
      || (leb b'0' c && leb c b'9')
      || (c == b'_'))
    && are_word s

-- identifierPattern.MatchString
unfoldable pub is_identifier : Bytes → Bool
unfolding is_letter are_word
is_identifier s = is_letter s && are_word s

unfoldable pub clean_identifier : Bytes → Result Error Bytes
unfolding trim_space or_text is_identifier
clean_identifier value =
    let name = or_text (trim_space value) (codes "chobits_cache") in
    if is_identifier name then ok name else err (bad_identifier name)

unfoldable pub normalize_driver : Bytes → Bytes
unfolding to_lower trim_space text_eq or_text
normalize_driver driver =
    let d = to_lower (trim_space driver) in
    if text_eq d (codes "sqlite3") then codes "sqlite" else or_text d (codes "mysql")

-- if strings.TrimSpace(driver) == "" { driver = "mysql" }
unfoldable pub driver_or : Bytes → Bytes
unfolding trim_space
driver_or driver = elim (trim_space driver) [ [] ↦ codes "mysql" | _ ↦ driver ]

-- the switch of NewDatabase
unfoldable pub with_driver : Bool → Bytes → Bytes → Result Error Database
unfolding text_eq
with_driver has_db table driver =
    if text_eq driver (codes "mysql") || text_eq driver (codes "sqlite")
    then ok (record { connected = has_db; driver = driver; table = table })
    else err (unsupported_driver driver)

-- from the result of cleanIdentifier on
unfoldable pub with_table : Bool → Bytes → Result Error Bytes → Result Error Database
unfolding driver_or normalize_driver with_driver
with_table has_db driver (err e) = err e
with_table has_db driver (ok table) = with_driver has_db table (normalize_driver (driver_or driver))

unfoldable pub new_database : Bool → Bytes → Bytes → Result Error Database
unfolding clean_identifier with_table
new_database has_db driver table =
    if has_db then with_table has_db driver (clean_identifier table) else err database_unset

abbrev pub sqlite_columns : Bytes
sqlite_columns =
    codes
      " (\n\tcache_key TEXT PRIMARY KEY,\n\tcache_value BLOB NOT NULL,\n\texpires_at INTEGER NOT NULL DEFAULT 0\n)"

abbrev pub mysql_columns : Bytes
mysql_columns =
    codes
      " (\n\tcache_key VARCHAR(512) NOT NULL PRIMARY KEY,\n\tcache_value LONGBLOB NOT NULL,\n\texpires_at BIGINT NOT NULL DEFAULT 0\n)"

-- the text that Migrate sends, if there is one for the driver
unfoldable pub create_query : Database → Result Error Bytes
unfolding text_eq
create_query d =
    let create = codes "CREATE TABLE IF NOT EXISTS " ++ d.table in
    if text_eq d.driver (codes "sqlite") || text_eq d.driver (codes "sqlite3")
    then ok (create ++ sqlite_columns)
    else if text_eq d.driver [] || text_eq d.driver (codes "mysql")
    then ok (create ++ mysql_columns)
    else err (unsupported_driver d.driver)

module _ {D : Type 0} (sql : Sql D) where
  unfoldable pub exec_query : Result Error Bytes → D → Err × D
  exec_query (err e) w = (some e, w)
  exec_query (ok query) w =
      let (e, w') = sql.exec query [] w in
      (elim e [ none ↦ none | some x ↦ some (wrapped (codes "migrate database cache") x) ], w')

  unfoldable pub migrate : Database → D → Err × D
  unfolding create_query exec_query
  migrate d w = if d.connected then exec_query (create_query d) w else (some database_unset, w)

  unfoldable pub store_unless : Database → Err × D → Result Error Database × D
  store_unless d (none, w) = (ok d, w)
  store_unless d (some e, w) = (err e, w)

  -- from the result of NewDatabase on
  unfoldable pub after_new : Bool → Result Error Database → D → Result Error Database × D
  unfolding migrate store_unless
  after_new auto_migrate (err e) w = (err e, w)
  after_new auto_migrate (ok d) w = if auto_migrate then store_unless d (migrate d w) else (ok d, w)

  -- from the result of the resolver on
  unfoldable pub after_resolve :
      DatabaseConfig → Result Error Handle × D → Result Error Database × D
  unfolding new_database after_new or_text
  after_resolve c (err e, w) = (err e, w)
  after_resolve c (ok h, w) =
      after_new c.auto_migrate (new_database h.has_db (or_text c.driver h.driver) c.table) w

  unfoldable pub open_database : DatabaseConfig → Resolver D → D → Result Error Database × D
  unfolding database_defaults after_resolve
  open_database c none w = (err database_unset, w)
  open_database c (some resolve) w =
      let cfg = database_defaults c in after_resolve cfg (resolve cfg.connection w)
