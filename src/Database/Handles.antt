-- ===== src/Database/Handles.antt =====
-- The handles that the manager of package database opens and closes.
use chobits.Prelude.{
  ℕ, ◌≡◌, refl, subst, ◌∷◌, ap, ◌∙◌, Bool, true, false, none, some, Bytes, Result, ok, err,
  if◌then◌else◌, List, codes,
}
use chobits.Int64.{ℤ}
use chobits.Text.Path.{dir}
use chobits.Text.Case.{to_lower}
use chobits.Text.Trim.{trim_space}
use chobits.Config.{MySql, SqLite, DatabaseConnection, Databases}
use chobits.Config.Dsn.{my_sql_dsn, sq_lite_dsn}
use chobits.Config as Config
use chobits.Cache.Config.{or_text}
use chobits.Registry.Handles.{
  Adds, Leases, KeepsAll, has, drop, drop_head, is_map, open_all-KeepsAll,
}
use chobits.Database.{
  Error, Err, message, missing, Driver, driver_of, my_sql, sq_lite, unknown, with_dsn, Sql,
  after_ping, after_open, configure, my_sql_settings, open_my_sql, sq_lite_settings, after_mkdir,
  open_sq_lite, open_sq_lite_disabled, sq_lite_opener, open_kind, open_connection, connections,
  open_manager, needs_dir,
}

-- What database/sql documents of its handles, with `held` the list of those that are open: Open
-- gives one that was not open, or none with an error; Close gives it back; and nothing else that
-- the package calls opens or closes one.
pub record Leasing {W : Type 0} (sql : Sql W) (held : W → List ℕ) : Type 0 where
  pub opens :
      (driver dsn : Bytes) (w : W) → Adds (λ db. db) held (held w) (sql.open_db driver dsn w)
  pub closes : (db : ℕ) (w : W) → held (sql.close db w).1 ≡ drop db (held w)
  pub pings : (db : ℕ) (w : W) → held (sql.ping db w).1 ≡ held w
  pub makes : (path : Bytes) (w : W) → held (sql.mkdir_all path w).1 ≡ held w
  pub sets_open : (db : ℕ) (z : ℤ) (w : W) → held (sql.set_max_open_conns db z w) ≡ held w
  pub sets_idle : (db : ℕ) (z : ℤ) (w : W) → held (sql.set_max_idle_conns db z w) ≡ held w
  pub sets_lifetime : (db : ℕ) (z : ℤ) (w : W) → held (sql.set_conn_max_lifetime db z w) ≡ held w

module _ {W : Type 0} (sql : Sql W) (held : W → List ℕ) (leasing : Leasing sql held) where
  held-configure : (db : ℕ) (a b c : ℤ) (w : W) → held (configure sql db a b c w) ≡ held w
  unfolding configure
  held-configure db a b c w =
      leasing.sets_lifetime db c _ ∙ leasing.sets_idle db b _ ∙ leasing.sets_open db a w

  after_ping-Adds :
      (label : Bytes) (db : ℕ) (base : List ℕ) (r : Err × W)
      → held r.1 ≡ db ∷ base
      → has db base ≡ false
      → Adds (λ db. db) held base (after_ping sql label db r)
  unfolding after_ping Adds
  after_ping-Adds label db base (none, w) h unused = (h, unused)
  after_ping-Adds label db base (some e, w) h unused =
      leasing.closes db w ∙ ap (drop db) h ∙ drop_head db base unused

  after_open-Adds :
      (opening pinging : Bytes) (settings : ℕ → W → W) (base : List ℕ) (r : Result Error ℕ × W)
      → ((db : ℕ) (w : W) → held (settings db w) ≡ held w)
      → Adds (λ db. db) held base r
      → Adds (λ db. db) held base (after_open sql opening pinging settings r)
  unfolding after_open Adds
  after_open-Adds opening pinging settings base (ok db, w) set (h, unused) =
      after_ping-Adds pinging db base (sql.ping db (settings db w))
        (leasing.pings db (settings db w) ∙ set db w ∙ h) unused
  after_open-Adds opening pinging settings base (err e, w) set h = h

  with_dsn-Adds :
      (dsn : Result Config.Error Bytes) (w : W) (next : Bytes → W → Result Error ℕ × W)
      → ((dsn : Bytes) → Adds (λ db. db) held (held w) (next dsn w))
      → Adds (λ db. db) held (held w) (with_dsn sql next dsn w)
  unfolding with_dsn Adds
  with_dsn-Adds (ok dsn) w next h = h dsn
  with_dsn-Adds (err e) w next h = refl

  pub open_my_sql-Adds : (c : MySql) (w : W) → Adds (λ db. db) held (held w) (open_my_sql sql c w)
  unfolding open_my_sql Adds my_sql_settings
  open_my_sql-Adds c w =
      with_dsn-Adds (my_sql_dsn c) w
        (λ dsn w.
          after_open sql (codes "open mysql") (codes "ping mysql") (my_sql_settings sql c)
            (sql.open_db (codes "mysql") dsn w))
        (λ dsn.
          after_open-Adds (codes "open mysql") (codes "ping mysql") (my_sql_settings sql c) (held w)
            (sql.open_db (codes "mysql") dsn w) (λ db w'. held-configure db _ _ _ w')
            (leasing.opens (codes "mysql") dsn w))

  after_mkdir-Adds :
      (c : SqLite) (dsn : Bytes) (base : List ℕ) (r : Err × W)
      → held r.1 ≡ base
      → Adds (λ db. db) held base (after_mkdir sql c dsn r)
  unfolding after_mkdir Adds sq_lite_settings
  after_mkdir-Adds c dsn base (some e, w) h = h
  after_mkdir-Adds c dsn base (none, w) h =
      after_open-Adds (codes "open sqlite") (codes "ping sqlite") (sq_lite_settings sql c) base
        (sql.open_db (codes "sqlite") dsn w) (λ db w'. held-configure db _ _ _ w')
        (subst (λ l. Adds (λ db. db) held l (sql.open_db (codes "sqlite") dsn w)) h
          (leasing.opens (codes "sqlite") dsn w))

  held-mkdir :
      (b : Bool) (path : Bytes) (w : W)
      → held (if b then sql.mkdir_all path w else (none, w)).1 ≡ held w
  held-mkdir true path w = leasing.makes path w
  held-mkdir false path w = refl

  pub open_sq_lite-Adds :
      (c : SqLite) (w : W) → Adds (λ db. db) held (held w) (open_sq_lite sql c w)
  unfolding open_sq_lite Adds
  open_sq_lite-Adds c w =
      with_dsn-Adds (sq_lite_dsn c) w
        (λ dsn w.
          after_mkdir sql c dsn
            (if needs_dir sql c then sql.mkdir_all (dir c.path) w else (none, w)))
        (λ dsn.
          after_mkdir-Adds c dsn (held w)
            (if needs_dir sql c then sql.mkdir_all (dir c.path) w else (none, w))
            (held-mkdir (needs_dir sql c) (dir c.path) w))

  sq_lite_opener-Adds :
      (tagged : Bool) (c : SqLite) (w : W)
      → Adds (λ db. db) held (held w) (sq_lite_opener sql tagged c w)
  unfolding sq_lite_opener open_sq_lite_disabled Adds
  sq_lite_opener-Adds false c w = refl
  sq_lite_opener-Adds true c w = open_sq_lite-Adds c w

  open_kind-Adds :
      (tagged : Bool) (c : DatabaseConnection) (driver : Driver) (w : W)
      → Adds (λ db. db) held (held w) (open_kind sql tagged c driver w)
  unfolding open_kind Adds
  open_kind-Adds tagged c my_sql w = open_my_sql-Adds c.my_sql w
  open_kind-Adds tagged c sq_lite w = sq_lite_opener-Adds tagged c.sq_lite w
  open_kind-Adds tagged c unknown w = refl

  pub connections-Leases : (tagged : Bool) → Leases (connections sql tagged) (λ db. db) held
  unfolding connections open_connection
  connections-Leases tagged = record {
    enters = λ c w. open_kind-Adds tagged c (driver_of (to_lower (trim_space c.driver))) w;
    closes = leasing.closes;
  }

  -- If no name is configured twice: if OpenManager fails, whatever fails in it, no handle that it
  -- opened is left open. If it succeeds, the handles of the manager are open, above those that were
  -- open before, and closing the manager gives back exactly these, whatever each Close replies.
  pub open_manager-KeepsAll :
      (tagged : Bool) (cfg : Databases) (w : W)
      → is_map cfg.connections ≡ true
      → KeepsAll (connections sql tagged) (λ db. db) held (held w) (open_manager sql tagged cfg w)
  unfolding open_manager
  open_manager-KeepsAll tagged cfg w map =
      open_all-KeepsAll (connections sql tagged) (λ db. db) held (connections-Leases tagged)
        (or_text cfg.default (codes "default"))
        (message (codes "no database connections configured")) missing cfg.connections w map
