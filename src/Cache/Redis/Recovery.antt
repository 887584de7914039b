-- ===== src/Cache/Redis/Recovery.antt =====
-- What state a call leaves the client's connection in.
use chobits.Prelude.{◌≡◌, true, false, Option, none, some, Result, ok, err}
use chobits.Cache.{Error}
use chobits.Cache.Redis.{Value}
use chobits.Cache.Redis.Conn.{Net, Account, Conn, Step, is_broken}

-- After a value, and after an error or a nil that the server replied, the connection is open; after
-- any other error it is closed. Nothing is said of a panic.
pub data Settled {W : Type 0} : Option (Result Error Value) → Conn W → Type 0 where
  held : {v : Value} {c : Conn W} → c.connected ≡ true → Settled (some (ok v)) c
  answered :
      {e : Error} {c : Conn W} → is_broken e ≡ false → c.connected ≡ true → Settled (some (err e)) c
  dropped : {e : Error} {c : Conn W} → c.connected ≡ false → Settled (some (err e)) c
  panicked : {c : Conn W} → Settled none c

module _ {W : Type 0} (net : Net W) (account : Account) where
  abbrev Settles : Step W → Type 0
  Settles next = (c : Conn W) → Settled (next c).0 (next c).1
