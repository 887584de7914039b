-- ===== src/Cache.antt =====
-- cache/cache.go and cache/errors.go: the errors of the package and the interface `Cache`.
-- A store lives in a world `S`; a call that may read the clock takes the reading, in nanoseconds
-- since 1970, as its first argument. Contexts are not modelled. A `time.Duration` is an int64 of
-- nanoseconds.
pub mod Spec
pub mod Memory
pub mod Key
pub mod Database
pub mod Tests
pub mod Fallback
pub mod Prefix
pub mod RateLimit
pub mod Redis
pub mod Config
pub mod Open
use chobits.Prelude.{ℕ, Bool, true, false, ◌||◌, Option, none, some, Bytes, Result, ok, err}
use chobits.Int64.{ℤ}

-- `failure` is an error of a driver or a server, and none of the package's own. `command` is the
-- redisCommandError that a reply of a Redis server brings. `unsupported_driver` and `bad_identifier`
-- print what they hold quoted. `message` stands
-- for errors.New and for fmt.Errorf with no wrapped error, `wrapped` for fmt.Errorf with %w.
pub data Error : Type 0 where
  miss unavailable store_not_found database_unset redis_nil : Error
  number_syntax number_range : Error
  failure : ℕ → Error
  command : Bytes → Error
  unsupported_driver bad_identifier : Bytes → Error
  message : Bytes → Error
  wrapped : Bytes → Error → Error
  joined1 : Error → Error
  joined2 : Error → Error → Error

-- Go's `error`: nil is `none`.
abbrev pub Err : Type 0
Err = Option Error

-- errors.Is(err, ErrMiss)
unfoldable pub is_miss : Error → Bool
is_miss miss = true
is_miss (wrapped _ e) = is_miss e
is_miss (joined1 e) = is_miss e
is_miss (joined2 e f) = is_miss e || is_miss f
is_miss _ = false

-- errors.Join(a, b)
unfoldable pub join : Err → Err → Err
join none none = none
join (some e) none = some (joined1 e)
join none (some f) = some (joined1 f)
join (some e) (some f) = some (joined2 e f)

abbrev pub Exec : Type 0 → Type 0 → Type 0
Exec S A = S → Result Error A × S

pub record Cache (S : Type 0) : Type 0 where
  pub get : ℕ → Bytes → Exec S Bytes
  pub set : ℕ → Bytes → Bytes → ℤ → S → Err × S
  pub take : ℕ → Bytes → Exec S Bytes
  pub exists : ℕ → Bytes → Exec S Bool
  pub increment : ℕ → Bytes → ℤ → ℤ → Exec S ℤ
  pub ttl : ℕ → Bytes → Exec S ℤ
  pub delete : Bytes → S → Err × S
  pub close : S → Err × S
