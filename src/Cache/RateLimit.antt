-- ===== src/Cache/RateLimit.antt =====
-- cache/rate_limit.go: counters with a window, over any store.
-- A call that reads the clock of its store twice takes two readings.
pub mod Counting
pub mod Peek
use chobits.Prelude.{ℕ, Bool, ◌&&◌, none, some, Bytes, Result, ok, err, if◌then◌else◌}
use chobits.Int64.{ℤ, pos, is_positive, leb_ℤ}
use chobits.Int64.Decimal.{Parsed, parsed, bad_syntax, out_of_range, parse_int}
use chobits.Text.Trim.{trim_space}
use chobits.Cache.{Error, Err, number_syntax, number_range, is_miss, Exec, Cache}
use chobits.Cache.Key.{key}

pub record RateLimitResult : Type 0 where
  pub key : Bytes
  pub count : ℤ
  pub limit : ℤ
  pub ttl : ℤ

unfoldable pub exceeded : RateLimitResult → Bool
exceeded r = is_positive r.limit && leb_ℤ r.limit r.count

pub record RateLimiter (S : Type 0) : Type 0 where
  pub store : Cache S
  pub prefix : Bytes

-- What TTL says of the window; a key that is gone meanwhile has none left.
unfoldable pub with_ttl : Bytes → ℤ → ℤ → Result Error ℤ → Result Error RateLimitResult
with_ttl full count limit (ok t) = ok (record { key = full; count = count; limit = limit; ttl = t })
with_ttl full count limit (err e) =
    if is_miss e
    then ok (record { key = full; count = count; limit = limit; ttl = pos 0 })
    else err e

module _ {S : Type 0} where
  unfoldable pub full_key : RateLimiter S → Bytes → Bytes
  full_key l k = key l.prefix (trim_space k)

  unfoldable pub ask_ttl : RateLimiter S → ℕ → Bytes → ℤ → ℤ → Exec S RateLimitResult
  unfolding with_ttl
  ask_ttl l now full count limit s =
      let (r, s') = l.store.ttl now full s in (with_ttl full count limit r, s')

  unfoldable pub after_increment :
      RateLimiter S → ℕ → Bytes → ℤ → Result Error ℤ → Exec S RateLimitResult
  unfolding ask_ttl
  after_increment l now full limit (ok count) s = ask_ttl l now full count limit s
  after_increment l now full limit (err e) s = (err e, s)

  unfoldable pub hit : RateLimiter S → ℕ → ℕ → Bytes → ℤ → ℤ → Exec S RateLimitResult
  unfolding full_key after_increment
  hit l now later k limit window s =
      let (r, s') = l.store.increment now (full_key l k) (pos 1) window s in
      after_increment l later (full_key l k) limit r s'

  unfoldable pub after_parse : RateLimiter S → ℕ → Bytes → ℤ → Parsed → Exec S RateLimitResult
  unfolding ask_ttl
  after_parse l now full limit (parsed count) s = ask_ttl l now full count limit s
  after_parse l now full limit bad_syntax s = (err number_syntax, s)
  after_parse l now full limit (out_of_range z) s = (err number_range, s)

  unfoldable pub after_get :
      RateLimiter S → ℕ → Bytes → ℤ → Result Error Bytes → Exec S RateLimitResult
  unfolding after_parse
  after_get l now full limit (ok value) s = after_parse l now full limit (parse_int value) s
  after_get l now full limit (err e) s =
      if is_miss e
      then (ok (record { key = full; count = pos 0; limit = limit; ttl = pos 0 }), s)
      else (err e, s)

  unfoldable pub peek : RateLimiter S → ℕ → ℕ → Bytes → ℤ → Exec S RateLimitResult
  unfolding full_key after_get
  peek l now later k limit s =
      let (r, s') = l.store.get now (full_key l k) s in after_get l later (full_key l k) limit r s'

  unfoldable pub reset : RateLimiter S → Bytes → S → Err × S
  unfolding full_key
  reset l k = l.store.delete (full_key l k)
