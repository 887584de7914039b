-- ===== src/Config/Idempotent.antt =====
-- ApplyDefaults keeps what is set, and twice is ApplyDefaults once.
use chobits.Prelude.{
  ◌≡◌, refl, ap₂, Bool, true, false, ◌&&◌, [], ◌∷◌, ℕ, zero, suc, Bytes, codes, if◌then◌else◌,
}
use chobits.Int64.{ℤ, pos, negsuc, is_zero}
use chobits.Text.Dict.{Dict, insert, map_values}
use chobits.Cache.Config.{
  or_text, apply_defaults as cache_defaults, set_addr, StoreConfig, store_defaults, some_store,
  driver_memory, driver_redis, driver_database,
}
use chobits.Cache.Config as Cache
use chobits.Config.{Server, MySql, SqLite, DatabaseConnection, Databases, Common}
use chobits.Config.Dsn.{or_int, is_empty}
use chobits.Config.Defaults.{
  my_sql_defaults, sq_lite_defaults, connection_defaults, some_connection, database_defaults,
  server_defaults, apply_defaults,
}
use chobits.Text.Case.{equal_fold}
use chobits.Config.Kept.{Keeps}
use chobits.Config.Kept.Defaults.{apply_defaults-Keeps}

or_text_twice : (s d : Bytes) → or_text (or_text s d) d ≡ or_text s d
unfolding or_text
or_text_twice [] [] = refl
or_text_twice [] (b ∷ d) = refl
or_text_twice (a ∷ s) d = refl

or_int_twice : (z : ℤ) (n : ℕ) → or_int (or_int z n) n ≡ or_int z n
unfolding or_int is_zero
or_int_twice (pos zero) zero = refl
or_int_twice (pos zero) (suc n) = refl
or_int_twice (pos (suc m)) n = refl
or_int_twice (negsuc m) n = refl

map_values_twice {ℓ} :
    {V : Type ℓ} (f : V → V)
    → ((v : V) → f (f v) ≡ f v)
    → (m : Dict V) → map_values f (map_values f m) ≡ map_values f m
unfolding map_values
map_values_twice f h [] = refl
map_values_twice f h ((k, v) ∷ m) = ap₂ (λ x rest. (k, x) ∷ rest) (h v) (map_values_twice f h m)

my_sql_defaults_twice : (c : MySql) → my_sql_defaults (my_sql_defaults c) ≡ my_sql_defaults c
unfolding my_sql_defaults
my_sql_defaults_twice c = simp (or_text_twice, or_int_twice)

path_twice :
    (p d : Bytes)
    → (let q = if is_empty p && is_empty d then codes "./data/app.db" else p in
        if is_empty q && is_empty d then codes "./data/app.db" else q)
      ≡ (if is_empty p && is_empty d then codes "./data/app.db" else p)
unfolding is_empty
path_twice [] [] = refl
path_twice [] (b ∷ d) = refl
path_twice (a ∷ p) d = refl

sq_lite_defaults_twice : (c : SqLite) → sq_lite_defaults (sq_lite_defaults c) ≡ sq_lite_defaults c
unfolding sq_lite_defaults
sq_lite_defaults_twice c = simp (path_twice, or_int_twice)

connection_defaults_twice :
    (c : DatabaseConnection) → connection_defaults (connection_defaults c) ≡ connection_defaults c
unfolding connection_defaults
connection_defaults_twice c =
    rw
      (
        or_text_twice c.driver (codes "mysql"),
        my_sql_defaults_twice c.my_sql,
        sq_lite_defaults_twice c.sq_lite,
      )
      refl

some_connection_once :
    (name : Bytes) (f : DatabaseConnection → DatabaseConnection) (only again : DatabaseConnection)
    (m : Dict DatabaseConnection)
    → some_connection name again (map_values f (some_connection name only m))
      ≡ map_values f (some_connection name only m)
unfolding some_connection map_values insert
some_connection_once name f only again [] = refl
some_connection_once name f only again (c ∷ m) = refl

database_defaults_twice :
    (s : MySql) (l : SqLite) (d : Databases)
    → database_defaults s l (database_defaults s l d) ≡ database_defaults s l d
unfolding database_defaults
database_defaults_twice s l d = simp (
  or_text_twice,
  some_connection_once,
  map_values_twice connection_defaults connection_defaults_twice,
)

cache_database_twice :
    (c : Cache.DatabaseConfig)
    → Cache.database_defaults (Cache.database_defaults c) ≡ Cache.database_defaults c
unfolding Cache.database_defaults
cache_database_twice c = simp or_text_twice

set_addr_twice : (c : Cache.RedisConfig) → set_addr (set_addr c) ≡ set_addr c
unfolding set_addr
set_addr_twice c = simp or_text_twice

if_twice {ℓ} :
    {A : Type ℓ} (f : A → A)
    → ((a : A) → f (f a) ≡ f a)
    → (b : Bool) (a : A)
    → (if b then f (if b then f a else a) else (if b then f a else a)) ≡ (if b then f a else a)
if_twice f h true a = h a
if_twice f h false a = refl

store_defaults_twice : (c : StoreConfig) → store_defaults (store_defaults c) ≡ store_defaults c
unfolding store_defaults
store_defaults_twice c =
    rw
      (
        or_text_twice c.driver driver_memory,
        if_twice set_addr set_addr_twice (equal_fold (or_text c.driver driver_memory) driver_redis)
            c.redis,
        if_twice Cache.database_defaults cache_database_twice
            (equal_fold (or_text c.driver driver_memory) driver_database) c.database,
      )
      refl

some_store_once :
    (name again : Bytes) (f : StoreConfig → StoreConfig) (m : Dict StoreConfig)
    → some_store again (map_values f (some_store name m)) ≡ map_values f (some_store name m)
unfolding some_store map_values insert
some_store_once name again f [] = refl
some_store_once name again f (c ∷ m) = refl

cache_defaults_twice : (c : Cache.Config) → cache_defaults (cache_defaults c) ≡ cache_defaults c
unfolding cache_defaults
cache_defaults_twice c =
    simp (or_text_twice, some_store_once, map_values_twice store_defaults store_defaults_twice)

server_defaults_twice : (s : Server) → server_defaults (server_defaults s) ≡ server_defaults s
unfolding server_defaults
server_defaults_twice s = simp (or_text_twice, or_int_twice)

applied_twice : (c : Common) → apply_defaults (apply_defaults c) ≡ apply_defaults c
unfolding apply_defaults
applied_twice c =
    rw
      (
        or_text_twice c.app.env (codes "dev"),
        server_defaults_twice c.server,
        database_defaults_twice c.my_sql c.sq_lite c.database,
        set_addr_twice c.redis,
        cache_defaults_twice c.cache,
        or_text_twice c.log.level (codes "info"),
        or_text_twice c.token.prefix (codes "cbt_"),
        or_int_twice c.token.ttl_seconds 432000,
        or_int_twice c.storage.max_upload_size 2097152,
        or_int_twice c.kdays_uc.timeout_seconds 10,
      )
      refl

-- ApplyDefaults keeps every field that is set, in every database connection and in every cache store
-- too: a text that is not empty, a number that is not zero, a map that has an entry, of which it
-- keeps the names in their order. Fields that have no default it never changes. Applied again, it
-- changes nothing.
pub apply_defaults_twice :
    (c : Common)
    → Keeps c (apply_defaults c) × (apply_defaults (apply_defaults c) ≡ apply_defaults c)
apply_defaults_twice c = (apply_defaults-Keeps c, applied_twice c)
