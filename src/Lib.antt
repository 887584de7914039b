-- ===== src/Lib.antt =====
-- Verification of chobits, a Go scaffold of infrastructure packages.
--
-- `Cache` models package cache. `Cache.antt` has the errors of cache/errors.go and the interface
-- `Cache` of cache/cache.go as a record of functions over a world. `Cache/Spec.antt` says what a
-- cache promises: a map from keys to entries with deadlines, and a record `Implements` that says
-- when a store refines it. The clients of a cache are proved over any store with that record.
--   Cache/Memory.antt      cache/memory.go, a map under a mutex (Get, Set, Take, Exists, Increment,
--                          TTL; Delete is `drop`); Get and TTL are two steps each
--   Cache/Database.antt    cache/database.go over a parameter `Sql`, the part of database/sql that
--                          it calls; `Database/Reliable.antt` has the behaviour of a working server
--                          as named hypotheses, `Database/Atomic.antt` and
--                          `Database/Replace.antt` that of transactions, whose statements may fail;
--                          `Database/Open.antt` has OpenDatabase and Migrate
--   Cache/Open.antt        Open and the manager of cache/cache.go, over `Builders`, the constructors of
--                          the stores
--   Cache/Key.antt         `Key` of cache/redis.go
--   Cache/Prefix.antt      cache/prefix.go
--   Cache/RateLimit.antt   cache/rate_limit.go
--   Cache/Fallback.antt    cache/fallback.go
--   Cache/Redis.antt       cache/redis.go: the store over a client; `Redis/Wire.antt` has the protocol,
--                          with a reader on fuel (`Redis/Fuel.antt` says how much is enough), and
--                          `Redis/Conn.antt` the connection over a parameter `Net`;
--                          `Redis/Protocol.antt` defines what a server sends
-- `App.antt` models app/runtime.go over a record `Server` of the parts of net/http and os/signal
-- that RunHTTP calls; `App/Order.antt` has the order of its steps, `App/Result.antt` its result.
-- `Di.antt` models di/container.go; a type is known by its identity, and reflection is a parameter.
-- A `Component` of App stands for a value with its lifecycle methods, so that the services and
-- closers of a container are those of RunHTTP's options (`Di/Lifecycle.antt`).
-- `Storage.antt` models storage/path.go and storage/storage.go but NewManager,
-- `Storage/External.antt` storage/external.go, and `Storage/Local.antt` storage/local.go over a
-- parameter `Files` for package os. `Storage/Safety` is about object paths, `Storage/Public.antt`
-- about public paths and the size limit. `Text/Path.antt` has path.Clean and path.Join.
-- `Storage/UpyunDisabled.antt` has storage/upyun_disabled.go.
-- `Token.antt` models token/token.go over any cache; its random bytes are an argument, and
-- `Codecs` stands for the hash and the encodings.
-- `Config.antt` has the records of config/config.go, `Config/Defaults.antt` its defaults,
-- `Config/Kept.antt` what they may change,
-- `Config/Dsn.antt` the data source names, `Config/Dotenv.antt` config/dotenv.go over a parameter
-- `Host` for packages os, bufio and strconv.Unquote, `Config/Files.antt` FindFile and LoadYAML over a
-- parameter `Loader` for the file system, the YAML decoder and the target's methods, and
-- `Config/Env.antt` config/env.go on a tree of values; `Cache/Config.antt` and `Storage/Config.antt` the
-- configurations of cache/cache.go and storage/storage.go.
-- `Registry.antt` has what the managers of named things share: the loops of OpenManager and Close,
-- over a record of what they call; `Registry/Handles.antt` and `Registry/Lookup.antt` say what they
-- do to the open handles and which names they answer to. `Database.antt` models package database
-- over a parameter `Sql`, `Gorm.antt` package gormdb over a parameter `Gorm`; both have the builds
-- with and without the tag sqlite.
-- `Text` has byte strings, Go maps with string keys as association lists (a loop over a map goes in
-- the order of the list, which no theorem asks anything of), strings.ToLower and
-- strings.EqualFold as far as they can reach an ASCII name, strings.TrimSpace over the UTF-8 white space and strings.TrimRight. `Int64` has int64
-- with its wrap-around, and strconv.FormatInt and strconv.ParseInt in base 10; the print takes 20
-- digits of fuel, one more than an int64 needs.
--
-- Time is a number of nanoseconds since 1970. A call that may read the clock takes the reading as
-- an argument, and a call that reads it twice takes two. Contexts and their cancellation are not
-- modelled. The nil default of NewRateLimiter is not modelled either. Mutexes make a call one step;
-- where the source gives a lock back in the middle of a call, the halves are definitions of their
-- own.
pub mod App
pub mod Cache
pub mod Config
pub mod Database
pub mod Di
pub mod Gorm
pub mod Int64
pub mod Prelude
pub mod Registry
pub mod Storage
pub mod Text
pub mod Token
