-- ===== src/Cache/Redis/Conn.antt =====
-- redisConn of cache/redis.go: the client that keeps one connection, opens it when a command needs
-- it, and drops it after an error that is no reply of the server. `Net` has the part of package net
-- that it calls. A call holds the mutex, so it is one step; contexts are not modelled.
use chobits.Prelude.{
  zero, suc, ◌+◌, ◌*◌, Bool, true, false, not, ◌&&◌, ◌||◌, Option, none, some, List, [], ◌∷◌,
  if◌then◌else◌, Bytes, codes, Result, ok, err, length,
}
use chobits.Int64.{ℤ, pos, negsuc}
use chobits.Text.{text_eq}
use chobits.Cache.{Error, Err, command, message, wrapped, joined1, joined2}
use chobits.Cache.Redis.{Arg, text, signed, Value, nil, is_redis_nil}
use chobits.Cache.Redis.Wire.{
  Memory, Outcome, replied, panicked, out_of_fuel, read_reply, write_command,
}

-- The dialer and a connection: `incoming` is what the connection still delivers before its end, and
-- `leave` takes from it all but the bytes given. `eof` is the error of a read past the end.
pub record Net (W : Type 0) : Type 0 where
  pub dial : W → Err × W
  pub set_deadline : W → Err × W
  pub write : Bytes → W → Err × W
  pub incoming : W → Bytes
  pub leave : Bytes → W → W
  pub close : W → Err × W
  pub memory : Memory
  pub eof : Error

-- What the client was opened with.
pub record Account : Type 0 where
  pub username : Bytes
  pub password : Bytes
  pub db : ℤ

-- The client: whether `conn` is not nil.
pub record Conn (W : Type 0) : Type 0 where
  pub connected : Bool
  pub world : W

-- A call; it panics if its result is `none`.
abbrev pub Step : Type 0 → Type 0
Step W = Conn W → Option (Result Error Value) × Conn W

-- errors.As(err, &commandErr)
unfoldable pub is_command : Error → Bool
is_command (command _) = true
is_command (wrapped _ e) = is_command e
is_command (joined1 e) = is_command e
is_command (joined2 e f) = is_command e || is_command f
is_command _ = false

-- An error that is no reply of the server.
unfoldable pub is_broken : Error → Bool
unfolding is_redis_nil is_command
is_broken e = not (is_redis_nil e) && not (is_command e)

-- db != 0
unfoldable pub is_chosen : ℤ → Bool
is_chosen (pos zero) = false
is_chosen (pos (suc n)) = true
is_chosen (negsuc n) = true

-- the arguments of AUTH, if there is a password
unfoldable pub auth_args : Account → List Arg
auth_args a = elim a.username [
  | [] ↦ text (codes "AUTH") ∷ text a.password ∷ []
  | _ ↦ text (codes "AUTH") ∷ text a.username ∷ text a.password ∷ []
]

module _ {W : Type 0} (net : Net W) (account : Account) where
  -- the world and the result of a read
  unfoldable pub take_outcome : Outcome Value → W → Option (Result Error Value) × W
  take_outcome (replied r rest) w = (some r, net.leave rest w)
  take_outcome panicked w = (none, w)
  take_outcome out_of_fuel w = (none, w)

  unfoldable pub receive : W → Option (Result Error Value) × W
  unfolding take_outcome
  receive w =
      let s = net.incoming w in
      take_outcome (read_reply net.memory net.eof (2 * length s + 1) true s) w

  -- one write or setting that may fail, and what follows it
  unfoldable pub unless_error :
      Err × W → (W → Option (Result Error Value) × W) → Option (Result Error Value) × W
  unless_error (none, w) next = next w
  unless_error (some e, w) next = (some (err e), w)

  -- doLocked, on an open connection
  unfoldable pub do_locked : List Arg → W → Option (Result Error Value) × W
  unfolding unless_error receive
  do_locked args w =
      unless_error (net.set_deadline w)
        (λ w1. unless_error (write_command net.write args w1) receive)

  -- closeLocked
  unfoldable pub close_locked : Conn W → Err × Conn W
  close_locked c =
      if c.connected
      then (let (e, w) = net.close c.world in (e, record { connected = false; world = w }))
      else (none, c)

  abbrev pub opened : W → Conn W
  opened w = record { connected = true; world = w }

  -- a command of connectLocked: what follows it, or the connection closed and the error wrapped
  unfoldable pub after_greeting :
      Bytes → Step W → Option (Result Error Value) × W → Option (Result Error Value) × Conn W
  unfolding close_locked
  after_greeting label next (none, w) = (none, opened w)
  after_greeting label next (some (ok v), w) = next (opened w)
  after_greeting label next (some (err e), w) =
      (some (err (wrapped label e)), (close_locked (opened w)).1)

  unfoldable pub greet : Bool → Bytes → List Arg → Step W → Step W
  unfolding after_greeting do_locked
  greet asked label args next c =
      if asked then after_greeting label next (do_locked args c.world) else next c

  unfoldable pub auth_then : Step W → Step W
  unfolding greet auth_args
  auth_then = greet (not (text_eq account.password [])) (codes "auth redis: ") (auth_args account)

  unfoldable pub select_then : Step W → Step W
  unfolding greet is_chosen
  select_then =
      greet (is_chosen account.db) (codes "select redis db: ")
        (text (codes "SELECT") ∷ signed account.db ∷ [])

  unfoldable pub ping_then : Step W → Step W
  unfolding greet
  ping_then = greet true (codes "ping redis: ") (text (codes "PING") ∷ [])

  -- connectLocked; what follows it is given the open connection
  unfoldable pub after_dial : Err × W → Step W → Option (Result Error Value) × Conn W
  unfolding auth_then select_then ping_then
  after_dial (some e, w) next =
      (some (err (wrapped (codes "dial redis: ") e)), record { connected = false; world = w })
  after_dial (none, w) next = auth_then (select_then (ping_then next)) (opened w)

  unfoldable pub connect_then : Step W → Step W
  unfolding after_dial
  connect_then next c = if c.connected then next c else after_dial (net.dial c.world) next

  -- the end of Do: the connection is closed after an error that is no reply of the server
  unfoldable pub keep_or_close :
      Option (Result Error Value) × W → Option (Result Error Value) × Conn W
  unfolding close_locked is_broken
  keep_or_close (none, w) = (none, opened w)
  keep_or_close (some (ok v), w) = (some (ok v), opened w)
  keep_or_close (some (err e), w) =
      (some (err e), if is_broken e then (close_locked (opened w)).1 else opened w)

  unfoldable pub run_command : List Arg → Step W
  unfolding do_locked keep_or_close
  run_command args c = keep_or_close (do_locked args c.world)

  -- Do
  unfoldable pub call : List Arg → Step W
  unfolding connect_then run_command
  call [] c = (some (err (message (codes "redis command is empty"))), c)
  call (a ∷ args) c = connect_then (run_command (a ∷ args)) c

  -- Close
  unfoldable pub close : Conn W → Err × Conn W
  unfolding close_locked
  close = close_locked

  -- OpenRedisClient: a client that is required connects at once.
  unfoldable pub open_client : Bool → W → Option (Result Error Value) × Conn W
  unfolding connect_then
  open_client required w =
      let c : Conn W = record { connected = false; world = w } in
      if required then connect_then (λ c'. (some (ok nil), c')) c else (some (ok nil), c)
