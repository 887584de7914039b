-- ===== src/Cache/Memory.antt =====
-- cache/memory.go. The mutex makes each of Set, Take, Increment and Delete one step; Get and TTL
-- are two, a read and an eviction, since they give the lock back in between.
pub mod Race
pub mod Refinement
use chobits.Prelude.{
  ℕ, suc, ◌+◌, ◌-◌, ◌≡◌, refl, Bool, true, false, Option, none, some, [], Bytes, codes, Result, ok,
  err, ltb, leb, if◌then◌else◌,
}
use chobits.Int64.{ℤ, pos, negsuc, pos_part, is_positive, ◌+ℤ◌, wrap64, half_range}
use chobits.Int64.Decimal.{Parsed, parsed, bad_syntax, out_of_range, parse_int, format_int}
use chobits.Text.Dict.{Dict, lookup, insert, delete}
use chobits.Cache.{Error, Err, miss, number_syntax, number_range, is_miss, Exec, Cache}

-- The zero time is `none`. A value is copied on its way in and out, so it is a value here.
pub record MemoryItem : Type 0 where
  pub value : Bytes
  pub expires_at : Option ℕ

pub record Memory : Type 0 where
  pub items : Dict MemoryItem

unfoldable pub new_memory : Memory
new_memory = record { items = [] }

-- !item.expiresAt.IsZero() && !item.expiresAt.After(now)
unfoldable pub expired : ℕ → MemoryItem → Bool
expired now item = elim item.expires_at [ none ↦ false | some at ↦ leb at now ]

unfoldable pub evict : Bytes → Memory → Memory
evict k m = record { items = delete k m.items }

-- What Get and TTL have found when they give the read lock back.
pub data Seen (A : Type 0) : Type 0 where
  answer : Result Error A → Seen A
  stale : Seen A

-- The second step, under the write lock.
unfoldable pub finish : {A : Type 0} → Bytes → Seen A → Exec Memory A
unfolding evict
finish k (answer r) m = (r, m)
finish k stale m = (err miss, evict k m)

unfoldable pub seen_value : ℕ → Option MemoryItem → Seen Bytes
unfolding expired
seen_value now none = answer (err miss)
seen_value now (some item) = if expired now item then stale else answer (ok item.value)

unfoldable pub get_read : ℕ → Bytes → Memory → Seen Bytes
unfolding seen_value
get_read now k m = seen_value now (lookup k m.items)

unfoldable pub get : ℕ → Bytes → Exec Memory Bytes
unfolding get_read finish
get now k m = finish k (get_read now k m) m

unfoldable pub set : ℕ → Bytes → Bytes → ℤ → Memory → Err × Memory
set now k x ttl m =
    let expires_at = if is_positive ttl then some (now + pos_part ttl) else none in
    (none, record { items = insert k (record { value = x; expires_at = expires_at }) m.items })

unfoldable pub taken : ℕ → Bytes → Option MemoryItem → Exec Memory Bytes
unfolding expired evict
taken now k none m = (err miss, m)
taken now k (some item) m =
    if expired now item then (err miss, evict k m) else (ok item.value, evict k m)

unfoldable pub take : ℕ → Bytes → Exec Memory Bytes
unfolding taken
take now k m = taken now k (lookup k m.items) m

unfoldable pub existence : Result Error Bytes → Result Error Bool
existence (ok x) = ok true
existence (err e) = if is_miss e then ok false else err e

unfoldable pub exists : ℕ → Bytes → Exec Memory Bool
unfolding get existence
exists now k m = let (r, m') = get now k m in (existence r, m')

-- The count is stored with the deadline that `item` had, or with a new one.
unfoldable pub store_count : ℕ → Bytes → ℤ → Option ℕ → ℤ → Exec Memory ℤ
store_count now k ttl expires_at next m =
    let at = if is_positive ttl then some (now + pos_part ttl) else expires_at in
    (
      ok next,
      record { items = insert k (record { value = format_int next; expires_at = at }) m.items },
    )

unfoldable pub add_to : ℕ → Bytes → ℤ → ℤ → Option ℕ → Parsed → Exec Memory ℤ
unfolding store_count
add_to now k delta ttl expires_at (parsed current) m =
    store_count now k ttl expires_at (wrap64 (current +ℤ delta)) m
add_to now k delta ttl expires_at bad_syntax m = (err number_syntax, m)
add_to now k delta ttl expires_at (out_of_range z) m = (err number_range, m)

unfoldable pub increment_item : ℕ → Bytes → ℤ → ℤ → Option MemoryItem → Exec Memory ℤ
unfolding add_to expired evict
increment_item now k delta ttl none m = add_to now k delta ttl none (parsed (pos 0)) m
increment_item now k delta ttl (some item) m =
    if expired now item
    then add_to now k delta ttl none (parsed (pos 0)) (evict k m)
    else add_to now k delta ttl item.expires_at (parse_int item.value) m

unfoldable pub increment : ℕ → Bytes → ℤ → ℤ → Exec Memory ℤ
unfolding increment_item
increment now k delta ttl m = increment_item now k delta ttl (lookup k m.items) m

-- Time.Sub, which stops at the ends of int64
unfoldable pub sub_time : ℕ → ℕ → ℤ
sub_time a b =
    if leb b a
    then (if ltb (a - b) half_range then pos (a - b) else pos (half_range - 1))
    else if ltb (b - a - 1) half_range
    then negsuc (b - a - 1)
    else negsuc (half_range - 1)

unfoldable pub seen_ttl : ℕ → Option MemoryItem → Seen ℤ
unfolding sub_time
seen_ttl now none = answer (err miss)
seen_ttl now (some item) = elim item.expires_at [
  | none ↦ answer (ok (pos 0))
  | some at ↦ if is_positive (sub_time at now) then answer (ok (sub_time at now)) else stale
]

unfoldable pub ttl_read : ℕ → Bytes → Memory → Seen ℤ
unfolding seen_ttl
ttl_read now k m = seen_ttl now (lookup k m.items)

unfoldable pub ttl : ℕ → Bytes → Exec Memory ℤ
unfolding ttl_read finish
ttl now k m = finish k (ttl_read now k m) m

-- Delete
unfoldable pub drop : Bytes → Memory → Err × Memory
unfolding evict
drop k m = (none, evict k m)

unfoldable pub close : Memory → Err × Memory
close m = (none, m)

abbrev pub memory_cache : Cache Memory
memory_cache = record {
  get = get;
  set = set;
  take = take;
  exists = exists;
  increment = increment;
  ttl = ttl;
  delete = drop;
  close = close;
}
