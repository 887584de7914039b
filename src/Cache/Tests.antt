-- ===== src/Cache/Tests.antt =====
-- Runs of the in-process store, and the theorems on it and on what wraps it at concrete inputs.
pub mod Server
pub mod Open
use chobits.Prelude.{
  ◌++◌, false, ℕ, ◌≡◌, refl, none, some, List, [], ◌∷◌, Bytes, codes, Result, ok, err, arith, ◌≤◌,
}
use chobits.Int64.{ℤ, pos, wrap64, ◌+ℤ◌}
use chobits.Text.{text_eq}
use chobits.Text.Dict.{lookup, insert, delete}
use chobits.Text.Trim.{trim_space, trim_right}
use chobits.Int64.Decimal.{format_int, parse_int}
use chobits.Cache.{Error, miss, failure, Cache}
use chobits.Cache.Key.{key}
use chobits.Cache.Spec.{Entry, live, found, renewed, deadline_after, added, counted, Implements}
use chobits.Cache.Memory.{
  Memory, MemoryItem, new_memory, memory_cache, get, set, increment, get_read, stale, finish,
}
use chobits.Cache.Memory.Refinement.{Any, entries, memory-Implements}
use chobits.Cache.Memory.Race.{get_loses_set}
use chobits.Cache.Prefix.{Prefixed, prefixed_cache}
use chobits.Cache.Prefix as Prefix
use chobits.Cache.Prefix.Refinement.{colons, ends_in_colon, in_namespace, prefixed-Implements}
use chobits.Cache.RateLimit.{RateLimiter, full_key, peek, reset}
use chobits.Cache.RateLimit.Counting.{hit_all, numbered, hits_count_up}
use chobits.Cache.RateLimit.Peek.{count_entry, peek_counter, peek-reset}
use chobits.Cache.Fallback
use chobits.Cache.Fallback.Worlds.{pair_of}
use chobits.Cache.Fallback.Outage.{get-set_outage}
use chobits.Cache.Fallback.Twins.{get-take, increment-copies}

abbrev visits : Bytes
visits = codes "visits"

-- A counter at 7 that lives until instant 50.
abbrev counting : Memory
counting = record { items = (visits, record { value = codes "7"; expires_at = some 50 }) ∷ [] }

expiry_test :
    ((get 49 visits counting).0 ≡ ok (codes "7")) × ((get 50 visits counting).0 ≡ err miss)
unfolding get lookup
expiry_test = (refl, refl)

increment_test : (increment 49 visits (pos 2) (pos 0) counting).0 ≡ ok (pos 9)
unfolding increment lookup insert wrap64 ◌+ℤ◌ parse_int
increment_test = refl

get_loses_set_example :
    ((get 60 visits
        (finish visits
          (get_read 50 visits counting)
          (set 50 visits (codes "1") (pos 0) counting).1).1).0
      ≡ err miss)
    × ((get 60 visits
          (set 50 visits
            (codes "1")
            (pos 0)
            (finish visits (get_read 50 visits counting) counting).1).1).0
        ≡ ok (codes "1"))
unfolding get_read lookup
get_loses_set_example = get_loses_set 50 60 visits (codes "1") counting refl

abbrev app_cache : Prefixed Memory
app_cache = record { store = memory_cache; prefix = codes "app:" }

prefixed-Implements_example :
    (base : Bytes) × (n : ℕ) × (codes "app:" ≡ base ++ colons n)
    × (ends_in_colon base ≡ false)
    × Implements (prefixed_cache app_cache) Any (λ m j. entries m (in_namespace base j))
prefixed-Implements_example = prefixed-Implements app_cache Any entries memory-Implements

prefixed_set :
    (prefixed_cache app_cache).set 5 (codes "k") (codes "x") (pos 0) new_memory
    ≡ memory_cache.set 5 (codes "app:k") (codes "x") (pos 0) new_memory
unfolding Prefix.set Prefix.full_key key
prefixed_set = refl

abbrev limiter : RateLimiter Memory
limiter = record { store = memory_cache; prefix = [] }

hits_count_up_example :
    hit_all limiter Any entries memory-Implements visits
      (pos 2)
      10
      ((5, 6) ∷ (14, 14) ∷ (20, 21) ∷ [])
      new_memory
    ≡ numbered limiter Any entries memory-Implements visits
        (pos 2)
        10
        0
        ((5, 6) ∷ (14, 14) ∷ (20, 21) ∷ [])
unfolding entries new_memory lookup
hits_count_up_example =
    hits_count_up limiter Any entries memory-Implements visits (pos 2) 10 0 9
      ((5, 6) ∷ (14, 14) ∷ (20, 21) ∷ []) new_memory tt refl (omega arith) (omega arith)

peek_counter_example :
    (peek limiter 20 21 visits (pos 2) counting).0
    ≡ ok (record { key = full_key limiter visits; count = pos 7; limit = pos 2; ttl = pos 29 })
unfolding entries lookup full_key key format_int trim_space
peek_counter_example =
    peek_counter limiter Any entries memory-Implements visits (pos 2) 20 21 counting tt
      (omega arith) (pos 7) 50 (omega arith) (omega arith) (omega arith) refl

peek-reset_example :
    (peek limiter 20 21 visits (pos 2) (reset limiter visits counting).1).0
    ≡ ok (record { key = full_key limiter visits; count = pos 0; limit = pos 2; ttl = pos 0 })
peek-reset_example =
    peek-reset limiter Any entries memory-Implements visits (pos 2) 20 21 counting tt (omega arith)
      (omega arith)

abbrev broken_get : ℕ → Bytes → Memory → Result Error Bytes × Memory
broken_get now k m = (err (failure 1), m)

abbrev broken : Cache Memory
broken = record memory_cache { get = broken_get }

get-set_outage_example :
    (Fallback.get
      (pair_of broken memory_cache)
      20
      21
      visits
      (Fallback.set
        (pair_of broken memory_cache)
        10
        10
        visits
        (codes "x")
        (pos 30)
        (new_memory, new_memory)).1).0
    ≡ found (live 21 (some (record { value = codes "x"; deadline = deadline_after 10 (pos 30) })))
get-set_outage_example =
    get-set_outage broken memory_cache Any entries memory-Implements 10 10 20 21 visits (codes "x")
      (pos 30) (failure 1) (new_memory, new_memory) tt (omega arith) (omega arith) (omega arith)
      refl

get-take_example :
    (Fallback.get
      (pair_of memory_cache memory_cache)
      20
      20
      visits
      (Fallback.take (pair_of memory_cache memory_cache) 10 10 visits (counting, counting)).1).0
    ≡ err miss
get-take_example =
    get-take memory_cache memory_cache Any Any entries entries memory-Implements memory-Implements
      10 10 20 20 visits (counting, counting) tt tt (omega arith) (omega arith) (omega arith)
      (omega arith)

abbrev copied : Result Error ℤ × (Memory × Memory)
copied =
    Fallback.increment (pair_of memory_cache memory_cache) 10 10 visits (pos 2) (pos 0)
      (counting, new_memory)

-- The counter had 40 left to live; its copy lives for ever.
increment-copies_example :
    (copied.0 ≡ ok (pos 9))
    × ((t : ℕ)
        → 10 ≤ t
        → live t (entries copied.1.0 visits)
          ≡ live t (
              some (record {
                value = format_int (pos 9);
                deadline = renewed 10 (pos 0) (live 10 (entries counting visits));
              })))
    × ((t : ℕ)
        → 10 ≤ t
        → live t (entries copied.1.1 visits)
          ≡ live t
              (some (record { value = format_int (pos 9); deadline = deadline_after 10 (pos 0) })))
unfolding entries lookup live counted added parse_int wrap64 ◌+ℤ◌
increment-copies_example =
    increment-copies memory_cache memory_cache Any Any entries entries memory-Implements
      memory-Implements 10 10 visits (pos 2) (pos 0) (pos 9) (counting, new_memory) tt tt
      (omega arith) (omega arith) refl
