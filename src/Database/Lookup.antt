-- ===== src/Database/Lookup.antt =====
-- Which names the manager of package database answers to, and which driver a name of one stands for.
use chobits.Prelude.{
  ◌≡◌, refl, Bool, true, false, subst, sym, ◌∙◌, [], ◌∷◌, Bytes, codes, arith, if◌then◌else◌,
}
use chobits.Text.{text_eq, text_eq-eq}
use chobits.Text.Case.{to_lower}
use chobits.Text.Trim.{trim_space}
use chobits.Config.{Databases}
use chobits.Config.Defaults.{normal_driver}
use chobits.Config.Dsn.{is_empty}
use chobits.Cache.Config.{or_text}
use chobits.Registry.Handles.{is_named}
use chobits.Registry.Lookup.{Serves, Opens, is_ok, open_all-Serves, is_ok-open_all}
use chobits.Database.{Sql, connections, missing, message, open_manager, driver_of}
use chobits.Gorm as Gorm

module _ {W : Type 0} (sql : Sql W) (tagged : Bool) where
  -- If OpenManager succeeds, then DB finds a connection under the empty name, and under another name
  -- exactly if it is configured.
  open_manager-Serves :
      (cfg : Databases) (w : W)
      → Serves (connections sql tagged) missing cfg.connections (open_manager sql tagged cfg w)
  unfolding open_manager
  open_manager-Serves cfg w =
      open_all-Serves (connections sql tagged) (or_text cfg.default (codes "default"))
        (message (codes "no database connections configured")) missing cfg.connections w

  -- If every configured connection opens, and the default name is one of theirs, or "default" is if
  -- it is empty, then OpenManager succeeds.
  pub is_ok-open_manager :
      (cfg : Databases) (w : W)
      → Opens (connections sql tagged) cfg.connections
      → is_named (or_text cfg.default (codes "default")) cfg.connections ≡ true
      → is_ok (open_manager sql tagged cfg w).0 ≡ true
  unfolding open_manager
  is_ok-open_manager cfg w =
      is_ok-open_all (connections sql tagged) (or_text cfg.default (codes "default"))
        (message (codes "no database connections configured")) missing cfg.connections w

unfoldable short : Bytes → Bytes
short d = if text_eq d (codes "sqlite3") then codes "sqlite" else d

gorm-driver_of : (d : Bytes) → text_eq d (codes "sqlite3") ≡ false → Gorm.driver_of d ≡ driver_of d
unfolding Gorm.driver_of driver_of
gorm-driver_of d h = ground arith

both_sq_lite :
    (Gorm.driver_of (codes "sqlite") ≡ driver_of (codes "sqlite3"))
    × (driver_of (codes "sqlite") ≡ driver_of (codes "sqlite3"))
unfolding Gorm.driver_of driver_of is_empty text_eq
both_sq_lite = (refl, refl)

short_lem :
    (d : Bytes) → (Gorm.driver_of (short d) ≡ driver_of d) × (driver_of (short d) ≡ driver_of d)
unfolding short
short_lem d =
    elim (text_eq d (codes "sqlite3"))
        as (λ b.
          text_eq d (codes "sqlite3") ≡ b
          → (Gorm.driver_of (if b then codes "sqlite" else d) ≡ driver_of d)
            × (driver_of (if b then codes "sqlite" else d) ≡ driver_of d)) [
              | true ↦ λ e.
                  subst
                    (λ t.
                      (Gorm.driver_of (codes "sqlite") ≡ driver_of t)
                      × (driver_of (codes "sqlite") ≡ driver_of t))
                    (sym (text_eq-eq d (codes "sqlite3") e)) both_sq_lite
              | false ↦ λ e. (gorm-driver_of d e, refl)
            ]
      refl

driver_of-or_text : (d : Bytes) → driver_of (or_text d (codes "mysql")) ≡ driver_of d
unfolding driver_of or_text is_empty text_eq
driver_of-or_text [] = refl
driver_of-or_text (c ∷ d) = refl

-- For every driver that a configuration can name, packages database and gormdb open the same kind
-- of database, and so they do for the name that DriverName makes of it.
drivers_agree :
    (driver : Bytes)
    → (Gorm.driver_of (Gorm.normalized_driver driver) ≡ driver_of (to_lower (trim_space driver)))
      × (Gorm.driver_of (normal_driver driver) ≡ driver_of (to_lower (trim_space driver)))
      × (driver_of (normal_driver driver) ≡ driver_of (to_lower (trim_space driver)))
unfolding Gorm.normalized_driver normal_driver short
drivers_agree driver =
    let d = to_lower (trim_space driver) in
    let (gorm, own) = short_lem (or_text d (codes "mysql")) in
    ((short_lem d).0, gorm ∙ driver_of-or_text d, own ∙ driver_of-or_text d)
