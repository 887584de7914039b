-- ===== src/Cache/Database/Identifier.antt =====
-- Which stores OpenDatabase makes: what goes into their SQL texts.
use chobits.Prelude.{
  ◌≡◌, refl, subst, ◌⊎◌, inl, inr, sym, Bool, true, false, Bool-cases, none, some, ◌++◌, Bytes,
  codes, Result, ok, err, if◌then◌else◌,
}
use chobits.Text.{text_eq, text_eq-eq}
use chobits.Text.Trim.{trim_space}
use chobits.Cache.{Error, Err, unsupported_driver, bad_identifier}
use chobits.Cache.Config.{DatabaseConfig, database_defaults, or_text}
use chobits.Cache.Database.{Database}
use chobits.Cache.Database.Sql.{Sql}
use chobits.Cache.Database.Open.{
  Handle, Resolver, is_identifier, clean_identifier, normalize_driver, driver_or, with_driver,
  with_table, new_database, create_query, sqlite_columns, mysql_columns, migrate, store_unless,
  after_new, after_resolve, open_database,
}

-- A store that has a connection, whose table is an identifier of letters, digits and underscores
-- that does not begin with a digit, and whose driver is one of two, each with its own text to
-- create the table.
unfoldable pub IsSound : Database → Type 0
IsSound d =
    (d.connected ≡ true)
    × (is_identifier d.table ≡ true)
    × (((d.driver ≡ codes "mysql")
          × (create_query d ≡ ok (codes "CREATE TABLE IF NOT EXISTS " ++ d.table ++ mysql_columns)))
        ⊎ ((d.driver ≡ codes "sqlite")
            × (create_query d
                ≡ ok (codes "CREATE TABLE IF NOT EXISTS " ++ d.table ++ sqlite_columns))))

unfoldable pub Sound : Result Error Database → Type 0
Sound (ok d) = IsSound d
Sound (err e) = true ≡ true

-- with_driver at its two drivers
at_mysql :
    (table : Bytes) → is_identifier table ≡ true → Sound (with_driver true table (codes "mysql"))
unfolding with_driver Sound IsSound create_query text_eq
at_mysql table h = (refl, h, inl (refl, refl))

at_sqlite :
    (table : Bytes) → is_identifier table ≡ true → Sound (with_driver true table (codes "sqlite"))
unfolding with_driver Sound IsSound create_query text_eq
at_sqlite table h = (refl, h, inr (refl, refl))

with_driver_other :
    (table driver : Bytes)
    → text_eq driver (codes "mysql") ≡ false
    → text_eq driver (codes "sqlite") ≡ false
    → with_driver true table driver ≡ err (unsupported_driver driver)
unfolding with_driver
with_driver_other table driver e f = rw (e, f) refl

with_driver-Sound :
    (table driver : Bytes) → is_identifier table ≡ true → Sound (with_driver true table driver)
unfolding Sound
with_driver-Sound table driver h = elim (Bool-cases (text_eq driver (codes "mysql"))) [
  | inl e ↦
      subst (λ d. Sound (with_driver true table d)) (sym (text_eq-eq driver (codes "mysql") e))
        (at_mysql table h)
  | inr e ↦ elim (Bool-cases (text_eq driver (codes "sqlite"))) [
    | inl f ↦
        subst (λ d. Sound (with_driver true table d)) (sym (text_eq-eq driver (codes "sqlite") f))
          (at_sqlite table h)
    | inr f ↦ subst Sound (sym (with_driver_other table driver e f)) refl
  ]
]

with_table-Sound :
    (driver name : Bytes)
    → Sound
        (with_table true driver (if is_identifier name then ok name else err (bad_identifier name)))
unfolding with_table Sound
with_table-Sound driver name =
    elim (is_identifier name)
        as (λ b.
          is_identifier name ≡ b
          → Sound (with_table true driver (if b then ok name else err (bad_identifier name)))) [
            | true ↦ λ e. with_driver-Sound name (normalize_driver (driver_or driver)) e
            | false ↦ λ e. refl
          ]
      refl

-- NewDatabase makes only stores that are sound.
new_database-Sound : (b : Bool) (driver table : Bytes) → Sound (new_database b driver table)
unfolding new_database clean_identifier Sound
new_database-Sound false driver table = refl
new_database-Sound true driver table =
    with_table-Sound driver (or_text (trim_space table) (codes "chobits_cache"))

module _ {D : Type 0} (sql : Sql D) where
  store_unless-Sound : (d : Database) (r : Err × D) → Sound (ok d) → Sound (store_unless sql d r).0
  unfolding store_unless Sound
  store_unless-Sound d (none, w) h = h
  store_unless-Sound d (some e, w) h = refl

  after_new-Sound :
      (auto : Bool) (r : Result Error Database) (w : D) → Sound r → Sound (after_new sql auto r w).0
  unfolding after_new Sound
  after_new-Sound auto (err e) w h = refl
  after_new-Sound true (ok d) w h = store_unless-Sound d (migrate sql d w) h
  after_new-Sound false (ok d) w h = h

  after_resolve-Sound :
      (c : DatabaseConfig) (r : Result Error Handle × D) → Sound (after_resolve sql c r).0
  unfolding after_resolve Sound
  after_resolve-Sound c (err e, w) = refl
  after_resolve-Sound c (ok h, w) =
      after_new-Sound c.auto_migrate (new_database h.has_db (or_text c.driver h.driver) c.table) w
        (new_database-Sound h.has_db (or_text c.driver h.driver) c.table)

  -- Whatever the configuration and the resolver say, a store that OpenDatabase makes has a
  -- connection, a table that is an identifier of letters, digits and underscores which does not
  -- begin with a digit, and one of the two drivers, for which Migrate has a text that creates it.
  pub open_database-Sound :
      (c : DatabaseConfig) (resolver : Resolver D) (w : D)
      → Sound (open_database sql c resolver w).0
  unfolding open_database Sound
  open_database-Sound c none w = refl
  open_database-Sound c (some resolve) w =
      after_resolve-Sound (database_defaults c) (resolve (database_defaults c).connection w)
