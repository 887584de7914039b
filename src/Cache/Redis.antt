-- ===== src/Cache/Redis.antt =====
-- cache/redis.go: the values and arguments of Redis commands, the interface RedisClient, and the
-- store `Redis` over any client. The client of the package itself is in `Redis/Conn.antt`, and the
-- protocol that it speaks in `Redis/Wire.antt`.
pub mod Wire
pub mod Protocol
pub mod Fuel
pub mod Framing
pub mod Conn
pub mod Recovery
pub mod Leftover
pub mod Millis
pub mod Tests
use chobits.Prelude.{
  ℕ, zero, suc, ◌+◌, ◌-◌, ◌*◌, ◌/◌, Bool, true, false, ◌||◌, none, some, [], ◌∷◌, ◌++◌, List,
  if◌then◌else◌, Bytes, codes, Result, ok, err,
}
use chobits.Int64.{ℤ, pos, negsuc, is_positive, wrap64}
use chobits.Int64.Decimal.{
  Parsed, parsed, bad_syntax, out_of_range, parse_int, format_int, digits, digit_fuel,
}
use chobits.Cache.{Error, Err, miss, redis_nil, message, wrapped, joined1, joined2, Exec, Cache}
use chobits.Cache.Key.{key}

-- What a reply is as a Go value: a string, a []byte, an int64, a bool, a []any or nil.
mutual
  pub data Value : Type 0 where
    nil : Value
    text : Bytes → Value
    bytes : Bytes → Value
    int : ℤ → Value
    bool : Bool → Value
    array : Values → Value

  pub data Values : Type 0 where
    no_values : Values
    value : Value → Values → Values

-- An argument of a command: nil, a []byte, a string, a signed integer or time.Duration, an unsigned
-- integer, or anything else, with its print by fmt.Sprint.
pub data Arg : Type 0 where
  nil : Arg
  bytes : Bytes → Arg
  text : Bytes → Arg
  signed : ℤ → Arg
  unsigned : ℕ → Arg
  other : Bytes → Arg

-- redisArgBytes
unfoldable pub arg_bytes : Arg → Bytes
unfolding format_int digits
arg_bytes nil = []
arg_bytes (bytes b) = b
arg_bytes (text s) = s
arg_bytes (signed z) = format_int z
arg_bytes (unsigned n) = digits digit_fuel n
arg_bytes (other s) = s

-- redisBytes
unfoldable pub redis_bytes : Value → Result Error Bytes
redis_bytes (bytes b) = ok b
redis_bytes (text s) = ok s
redis_bytes _ = err (message (codes "redis: unexpected bulk value type"))

-- The number that strconv.ParseInt returns, also with an error.
unfoldable pub number_or_clamp : Parsed → ℤ
number_or_clamp (parsed z) = z
number_or_clamp bad_syntax = pos 0
number_or_clamp (out_of_range z) = z

-- redisInt64
unfoldable pub redis_int64 : Value → ℤ
unfolding number_or_clamp
redis_int64 (int z) = z
redis_int64 (text s) = number_or_clamp (parse_int s)
redis_int64 (bytes b) = number_or_clamp (parse_int b)
redis_int64 _ = pos 0

-- Duration.Milliseconds: the quotient, cut towards zero
unfoldable pub milliseconds : ℤ → ℤ
milliseconds (pos n) = pos (n / 1000000)
milliseconds (negsuc n) = let q = suc n / 1000000 in elim q [ zero ↦ pos 0 | suc m ↦ negsuc m ]

-- redisTTLMillis
unfoldable pub ttl_millis : ℤ → ℤ
unfolding milliseconds
ttl_millis ttl = elim (milliseconds ttl) [
  | pos zero ↦ if is_positive ttl then pos 1 else pos 0
  | pos (suc n) ↦ pos (suc n)
  | negsuc n ↦ negsuc n
]

-- time.Duration(ms) * time.Millisecond, in an int64
unfoldable pub of_millis : ℤ → ℤ
unfolding wrap64
of_millis (pos n) = wrap64 (pos (n * 1000000))
of_millis (negsuc n) = wrap64 (negsuc (suc n * 1000000 - 1))

-- errors.Is(err, ErrRedisNil)
unfoldable pub is_redis_nil : Error → Bool
is_redis_nil redis_nil = true
is_redis_nil (wrapped _ e) = is_redis_nil e
is_redis_nil (joined1 e) = is_redis_nil e
is_redis_nil (joined2 e f) = is_redis_nil e || is_redis_nil f
is_redis_nil _ = false

-- The interface RedisClient: Do and Close, in a world.
pub record RedisClient (W : Type 0) : Type 0 where
  pub call : List Arg → Exec W Value
  pub close : W → Err × W

-- The store
pub record Redis (W : Type 0) : Type 0 where
  pub client : RedisClient W
  pub prefix : Bytes
  pub close_client : Bool

abbrev pub take_script : Bytes
take_script =
    codes
      "\nlocal value = redis.call(\"GET\", KEYS[1])\nif not value then\n\treturn nil\nend\nredis.call(\"DEL\", KEYS[1])\nreturn value\n"

abbrev pub increment_script : Bytes
increment_script =
    codes
      "\nlocal value = redis.call(\"INCRBY\", KEYS[1], ARGV[1])\nlocal ttl = tonumber(ARGV[2])\nif ttl and ttl > 0 then\n\tredis.call(\"PEXPIRE\", KEYS[1], ttl)\nend\nreturn value\n"

-- a nil reply is a miss
unfoldable pub bytes_or_miss : Result Error Value → Result Error Bytes
unfolding redis_bytes is_redis_nil
bytes_or_miss (ok v) = redis_bytes v
bytes_or_miss (err e) = if is_redis_nil e then err miss else err e

unfoldable pub ttl_of : Result Error Value → Result Error ℤ
unfolding redis_int64 of_millis
ttl_of (err e) = err e
ttl_of (ok v) = elim (redis_int64 v) [
  | negsuc zero ↦ ok (pos 0)
  | negsuc (suc zero) ↦ err miss
  | other_ttl ↦ ok (of_millis other_ttl)
]

unfoldable pub error_of : {A : Type 0} → Result Error A → Err
error_of (ok a) = none
error_of (err e) = some e

unfoldable pub exists_of : Result Error Value → Result Error Bool
unfolding redis_int64
exists_of (ok v) = ok (is_positive (redis_int64 v))
exists_of (err e) = err e

unfoldable pub count_of : Result Error Value → Result Error ℤ
unfolding redis_int64
count_of (ok v) = ok (redis_int64 v)
count_of (err e) = err e

-- the arguments of Set after the value
unfoldable pub expiry_args : ℤ → List Arg
unfolding ttl_millis
expiry_args ttl = if is_positive ttl then text (codes "PX") ∷ signed (ttl_millis ttl) ∷ [] else []

module _ {W : Type 0} (r : Redis W) where
  unfoldable pub get : Bytes → Exec W Bytes
  unfolding bytes_or_miss
  get k w =
      let (v, w') = r.client.call (text (codes "GET") ∷ text (key r.prefix k) ∷ []) w in
      (bytes_or_miss v, w')

  unfoldable pub set : Bytes → Bytes → ℤ → W → Err × W
  unfolding error_of expiry_args
  set k x ttl w =
      let (v, w') =
        r.client.call (text (codes "SET") ∷ text (key r.prefix k) ∷ bytes x ∷ expiry_args ttl) w in
      (error_of v, w')

  unfoldable pub take : Bytes → Exec W Bytes
  unfolding bytes_or_miss
  take k w =
      let (v, w') =
        r.client.call
          (text (codes "EVAL") ∷ text take_script ∷ signed (pos 1) ∷ text (key r.prefix k) ∷ [])
          w in
      (bytes_or_miss v, w')

  unfoldable pub exists : Bytes → Exec W Bool
  unfolding exists_of
  exists k w =
      let (v, w') = r.client.call (text (codes "EXISTS") ∷ text (key r.prefix k) ∷ []) w in
      (exists_of v, w')

  unfoldable pub increment : Bytes → ℤ → ℤ → Exec W ℤ
  unfolding count_of ttl_millis
  increment k delta ttl w =
      let (v, w') =
        r.client.call
          (text (codes "EVAL")
            ∷ text increment_script
            ∷ signed (pos 1)
            ∷ text (key r.prefix k)
            ∷ signed delta
            ∷ signed (ttl_millis ttl)
            ∷ [])
          w in
      (count_of v, w')

  unfoldable pub ttl : Bytes → Exec W ℤ
  unfolding ttl_of
  ttl k w =
      let (v, w') = r.client.call (text (codes "PTTL") ∷ text (key r.prefix k) ∷ []) w in
      (ttl_of v, w')

  unfoldable pub drop : Bytes → W → Err × W
  unfolding error_of
  drop k w =
      let (v, w') = r.client.call (text (codes "DEL") ∷ text (key r.prefix k) ∷ []) w in
      (error_of v, w')

  unfoldable pub close : W → Err × W
  close w = if r.close_client then r.client.close w else (none, w)

  -- the store as a Cache; the server has a clock of its own
  unfoldable pub redis_cache : Cache W
  unfolding get set take exists increment ttl drop close
  redis_cache = record {
    get = λ now. get;
    set = λ now. set;
    take = λ now. take;
    exists = λ now. exists;
    increment = λ now. increment;
    ttl = λ now. ttl;
    delete = drop;
    close = close;
  }
