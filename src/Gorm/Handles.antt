-- ===== src/Gorm/Handles.antt =====
-- The handles that the manager of package gormdb opens and closes.
use chobits.Prelude.{
  ℕ, ◌≡◌, refl, ap, ◌∙◌, sym, Bool, true, false, some, Bytes, Result, ok, err, if◌then◌else◌, List,
  ◌∷◌, codes,
}
use chobits.Config.{DatabaseConnection, Databases}
use chobits.Cache.Config.{or_text}
use chobits.Registry.Handles.{
  Adds, Leases, KeepsAll, has, drop, drop_head, is_map, open_all-KeepsAll,
}
use chobits.Database.{
  Error, Driver, my_sql, sq_lite, unknown, Sql, message, open_my_sql, open_sq_lite,
}
use chobits.Database.Handles.{Leasing, open_my_sql-Adds, open_sq_lite-Adds}
use chobits.Gorm.{
  Gorm, GormConfig, Options, Dialector, my_sql_dialector, sq_lite_dialector, dialector, driver_of,
  normalized_driver, open_dialector, open_sql, or_close, over_sql, open_gorm_my_sql,
  open_gorm_sq_lite, open_kind, open_connection, close_handle, close_db, connections, open_manager,
  missing, disabled, build_config,
}

-- The connection that a dialect was made of.
unfoldable pub conn : Dialector → ℕ
conn (my_sql_dialector db) = db
conn (sq_lite_dialector db) = db

-- gorm opened over a connection, or did not, with the same handles open as before.
unfoldable pub Rests :
    {W G : Type 0} → (G → ℕ) → (W → List ℕ) → ℕ → List ℕ → Result Error G × W → Type 0
Rests handle held db base (ok g, w) = (held w ≡ base) × (handle g ≡ db)
Rests handle held db base (err e, w) = held w ≡ base

-- What gorm documents: Open over a connection neither opens nor closes a handle, and DB gives that
-- connection again.
pub record Resting {W G R : Type 0} (gorm : Gorm W G R) (handle : G → ℕ) (held : W → List ℕ)
    : Type 0 where
  pub rests :
      (d : Dialector) (c : GormConfig R) (w : W)
      → Rests handle held (conn d) (held w) (gorm.open_gorm d c w)
  pub gives : (g : G) → gorm.sql_db g ≡ ok (handle g)

module _ {W G R : Type 0} (sql : Sql W) (gorm : Gorm W G R) (tagged : Bool) (handle : G → ℕ)
    (held : W → List ℕ) (leasing : Leasing sql held) (resting : Resting gorm handle held)
    (opts : List (Options R → Options R)) where
  open_dialector-Rests :
      (name : Bytes) (k : Driver) (db : ℕ) (w : W)
      → Rests handle held db
          (held w)
          (open_dialector sql gorm tagged opts (dialector sql gorm tagged name k db) w)
  unfolding open_dialector dialector Rests conn
  open_dialector-Rests name my_sql db w =
      resting.rests (my_sql_dialector db) (build_config sql gorm tagged opts) w
  open_dialector-Rests name sq_lite db w =
      elim tagged
        as (λ t. Rests handle held db (held w) (
          open_dialector sql gorm tagged opts
            (if t then ok (sq_lite_dialector db) else err disabled) w)) [
              | true ↦ resting.rests (sq_lite_dialector db) (build_config sql gorm tagged opts) w
              | false ↦ refl
            ]
  open_dialector-Rests name unknown db w = refl

  or_close-Adds :
      (db : ℕ) (w : W) (base : List ℕ) (r : Result Error G × W)
      → held w ≡ db ∷ base
      → has db base ≡ false
      → Rests handle held db (held w) r
      → Adds handle held base (or_close sql gorm tagged db r)
  unfolding or_close Adds Rests
  or_close-Adds db w base (ok g, w') h unused (same, conn) =
      (same ∙ h ∙ ap (λ i. i ∷ base) (sym conn), ap (λ i. has i base) conn ∙ unused)
  or_close-Adds db w base (err e, w') h unused same =
      leasing.closes db w' ∙ ap (drop db) (same ∙ h) ∙ drop_head db base unused

  over_sql-Adds :
      (name : Bytes) (base : List ℕ) (r : Result Error ℕ × W)
      → Adds (λ db. db) held base r
      → Adds handle held base (over_sql sql gorm tagged name opts r)
  unfolding over_sql Adds open_sql
  over_sql-Adds name base (ok db, w) (h, unused) =
      or_close-Adds db w base (open_sql sql gorm tagged name (some db) opts w) h unused
        (open_dialector-Rests name (driver_of (normalized_driver name)) db w)
  over_sql-Adds name base (err e, w) h = h

  open_kind-Adds :
      (c : DatabaseConnection) (k : Driver) (w : W)
      → Adds handle held (held w) (open_kind sql gorm tagged opts c k w)
  unfolding open_kind Adds open_gorm_my_sql open_gorm_sq_lite
  open_kind-Adds c my_sql w =
      over_sql-Adds (codes "mysql") (held w) (open_my_sql sql c.my_sql w)
        (open_my_sql-Adds sql held leasing c.my_sql w)
  open_kind-Adds c sq_lite w =
      elim tagged
        as (λ t. Adds handle held (held w) (
          if t
          then over_sql sql gorm tagged (codes "sqlite") opts (open_sq_lite sql c.sq_lite w)
          else (err disabled, w))) [
            | true ↦
                over_sql-Adds (codes "sqlite") (held w) (open_sq_lite sql c.sq_lite w)
                  (open_sq_lite-Adds sql held leasing c.sq_lite w)
            | false ↦ refl
          ]
  open_kind-Adds c unknown w = refl

  held-close_db : (g : G) (w : W) → held (close_db sql gorm tagged g w).1 ≡ drop (handle g) (held w)
  unfolding close_db close_handle
  held-close_db g w = rw (resting.gives g) (leasing.closes (handle g) w)

  connections-Leases : Leases (connections sql gorm tagged opts) handle held
  unfolding connections open_connection
  connections-Leases = record {
    enters = λ c w. open_kind-Adds c (driver_of (normalized_driver c.driver)) w;
    closes = held-close_db;
  }

  -- If no name is configured twice: if OpenManager of package gormdb fails, no handle that it opened
  -- is left open, also when gorm does not open over a connection that did. If it succeeds, the
  -- handles of the manager are open, above those that were open before, and closing the manager
  -- gives back exactly these.
  pub gorm_manager-KeepsAll :
      (cfg : Databases) (w : W)
      → is_map cfg.connections ≡ true
      → KeepsAll
          (connections sql gorm tagged opts)
          handle
          held
          (held w)
          (open_manager sql gorm tagged opts cfg w)
  unfolding open_manager
  gorm_manager-KeepsAll cfg w map =
      open_all-KeepsAll (connections sql gorm tagged opts) handle held connections-Leases
        (or_text cfg.default (codes "default"))
        (message (codes "no gorm database connections configured")) missing cfg.connections w map
