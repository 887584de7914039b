-- ===== src/Database/Tests.antt =====
-- Managers of packages database and gormdb over a world that has only its open handles: the second
-- one that is opened does not answer a ping.
use chobits.Prelude.{
  ℕ, suc, ◌≡◌, refl, Bool, true, false, ◌==◌, none, some, List, [], ◌∷◌, codes, Result, ok, err,
  length, if◌then◌else◌,
}
use chobits.Config.{DatabaseConnection, Databases}
use chobits.Config.Defaults.{no_my_sql, no_sq_lite}
use chobits.Registry.Handles.{Adds, KeepsAll, has, drop, is_map, is_named}
use chobits.Registry.Lookup.{Opens, is_ok}
use chobits.Database.{Error, failure, Sql, open_manager, connections}
use chobits.Database.Handles.{Leasing, open_manager-KeepsAll}
use chobits.Database.Lookup.{is_ok-open_manager}
use chobits.Gorm.{Gorm, GormConfig, Dialector, with_suppress_record_not_found}
use chobits.Gorm as Gorm
use chobits.Gorm.Handles.{conn, Rests, gorm_manager-KeepsAll}
use chobits.Text.{text_eq}

abbrev World : Type 0
World = List ℕ

-- A new handle is the number of those that are open, and if that one is, none is given.
abbrev lease : World → Result Error ℕ × World
lease w = if has (length w) w then (err (failure 1), w) else (ok (length w), length w ∷ w)

abbrev world : ℕ → Sql World
world silent = record {
  open_db = λ driver dsn. lease;
  set_max_open_conns = λ db n w. w;
  set_max_idle_conns = λ db n w. w;
  set_conn_max_lifetime = λ db n w. w;
  ping = λ db w. (if db == silent then some (failure 2) else none, w);
  close = λ db w. (some (failure 3), drop db w);
  mkdir_all = λ path w. (none, w);
}

lease-Adds : (w : World) → Adds (λ db. db) (λ w. w) w (lease w)
unfolding Adds
lease-Adds w =
    elim (has (length w) w)
        as (λ b.
          has (length w) w ≡ b
          → Adds (λ db. db) (λ w. w) w
              (if b then (err (failure 1), w) else (ok (length w), length w ∷ w))) [
                | true ↦ λ e. refl
                | false ↦ λ e. (refl, e)
              ]
      refl

world-Leasing : (silent : ℕ) → Leasing (world silent) (λ w. w)
world-Leasing silent = record {
  opens = λ driver dsn. lease-Adds;
  closes = λ db w. refl;
  pings = λ db w. refl;
  makes = λ path w. refl;
  sets_open = λ db z w. refl;
  sets_idle = λ db z w. refl;
  sets_lifetime = λ db z w. refl;
}

abbrev server : DatabaseConnection
server = record {
  driver = codes " MySQL";
  my_sql = record no_my_sql { host = codes "db"; user = codes "u"; database = codes "d" };
  sq_lite = no_sq_lite;
}

abbrev file : DatabaseConnection
file = record {
  driver = codes "sqlite3";
  my_sql = no_my_sql;
  sq_lite = record no_sq_lite { path = codes "data/app.db" };
}

abbrev two : Databases
two = record {
  default = [];
  driver = [];
  connections = (codes "default", server) ∷ (codes "file", file) ∷ [];
}

second_fails : (open_manager (world 1) true two []).1 ≡ []
unfolding open_manager has drop
second_fails = refl

both_open : (open_manager (world 9) true two []).1 ≡ 1 ∷ 0 ∷ []
unfolding open_manager has
both_open = refl

open_manager-KeepsAll_example :
    KeepsAll
      (connections (world 1) true)
      (λ db. db)
      (λ w. w)
      []
      (open_manager (world 1) true two [])
unfolding is_map text_eq
open_manager-KeepsAll_example =
    open_manager-KeepsAll (world 1) (λ w. w) (world-Leasing 1) true two [] refl

-- A world whose handles are always new.
abbrev counting : Sql ℕ
counting = record {
  open_db = λ driver dsn n. (ok n, suc n);
  set_max_open_conns = λ db n w. w;
  set_max_idle_conns = λ db n w. w;
  set_conn_max_lifetime = λ db n w. w;
  ping = λ db w. (none, w);
  close = λ db w. (none, w);
  mkdir_all = λ path w. (none, w);
}

is_ok-open_manager_example : is_ok (open_manager counting true two 0).0 ≡ true
unfolding Opens is_named connections is_ok
is_ok-open_manager_example =
    is_ok-open_manager counting true two 0 (λ w. refl, (λ w. refl, refl)) refl

-- gorm that opens over any connection but the second.
abbrev gorm : Gorm World ℕ Bool
gorm = record {
  open_gorm = λ d c w. (if conn d == 1 then err (failure 4) else ok (conn d), w);
  sql_db = ok;
  default_logger = 0;
  zero_rest = false;
}

gorm-Rests :
    (d : Dialector) (c : GormConfig Bool) (w : World)
    → Rests (λ g. g) (λ w. w) (conn d) w (gorm.open_gorm d c w)
unfolding Rests
gorm-Rests d c w =
    elim (conn d == 1)
      as (λ b. Rests (λ g. g) (λ w. w) (conn d) w (if b then err (failure 4) else ok (conn d), w)) [
        | true ↦ refl
        | false ↦ (refl, refl)
      ]

gorm_second_fails :
    (Gorm.open_manager (world 9) gorm true (with_suppress_record_not_found true ∷ []) two []).1 ≡ []
unfolding Gorm.open_manager conn has drop
gorm_second_fails = refl

gorm_manager-KeepsAll_example :
    KeepsAll
      (Gorm.connections (world 9) gorm true [])
      (λ g. g)
      (λ w. w)
      []
      (Gorm.open_manager (world 9) gorm true [] two [])
unfolding is_map text_eq
gorm_manager-KeepsAll_example =
    gorm_manager-KeepsAll (world 9) gorm true (λ g. g) (λ w. w) (world-Leasing 9)
      (record { rests = gorm-Rests; gives = λ g. refl }) [] two [] refl
