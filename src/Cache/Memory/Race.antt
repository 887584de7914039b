-- ===== src/Cache/Memory/Race.antt =====
-- Get and TTL of cache/memory.go read under the read lock and evict under the write lock. Another
-- goroutine may write in between.
use chobits.Prelude.{ℕ, ◌≡◌, Bytes, ok, err, arith}
use chobits.Int64.{pos}
use chobits.Text.{text_eq_refl}
use chobits.Text.Dict.{lookup-insert, lookup-delete}
use chobits.Cache.{miss}
use chobits.Cache.Memory.{Memory, stale, finish, get_read, get, set}

-- If the first half of a Get finds the item of `k` expired, and another goroutine sets `k`, with
-- no deadline, before the second half, then the value that was set is lost: a later Get misses. If
-- the Get ends before the Set begins, the later Get replies the value.
pub get_loses_set :
    (now t : ℕ) (k x : Bytes) (m : Memory)
    → get_read now k m ≡ stale
    → ((get t k (finish k (get_read now k m) (set now k x (pos 0) m).1).1).0 ≡ err miss)
      × ((get t k (set now k x (pos 0) (finish k (get_read now k m) m).1).1).0 ≡ ok x)
unfolding get set finish get_read
get_loses_set now t k x m h = rw h (
  rw lookup-delete (ground (arith, text_eq_refl k)),
  rw lookup-insert (ground (arith, text_eq_refl k)),
)
