-- ===== src/Cache/Memory/Refinement.antt =====
-- The in-process store implements the abstract map.
use chobits.Prelude.{
  true, false, Bool-cases, ◌⊎◌, ◌+◌, if◌then◌else◌, ℕ, ◌≤◌, ◌≡◌, refl, Option, none, some, Bytes,
  inl, inr, arith, ok,
}
use chobits.Int64.{ℤ, is_positive, pos_part}
use chobits.Int64.Decimal.{Parsed, parsed, bad_syntax, out_of_range, parse_int, format_int}
use chobits.Text.{text_eq, text_eq_iff}
use chobits.Text.Dict.{lookup, lookup-delete, lookup-insert}
use chobits.Cache.{is_miss}
use chobits.Cache.Spec.{
  Entry, View, live, put, remove, found, remaining, is_held, counted, added, incremented, number_of,
  deadline_after, Agrees, Implements,
}
use chobits.Cache.Memory.{
  Memory, MemoryItem, expired, get, set, take, exists, increment, ttl, drop, memory_cache,
  store_count, increment_item, add_to,
}

unfoldable pub entry_of : Option MemoryItem → Option Entry
entry_of none = none
entry_of (some item) = some (record { value = item.value; deadline = item.expires_at })

unfoldable pub entries : Memory → View
unfolding entry_of
entries m k = entry_of (lookup k m.items)

abbrev pub Any : Memory → Type 0
Any m = Unit

module _ (now : ℕ) (k : Bytes) (m : Memory) where
  memory-gets :
      Agrees Any entries now
        (get now k m)
        (found (live now (entries m k)))
        (λ j. live now (entries m j))
  unfolding get entries live found
  memory-gets = record {
    replies = ground arith;
    shows = λ j t h. ground (arith, lookup-delete k j m.items, text_eq_iff k j);
    valid = tt;
  }

  memory-takes :
      Agrees Any entries now
        (take now k m)
        (found (live now (entries m k)))
        (remove k (λ j. live now (entries m j)))
  unfolding take entries live found remove
  memory-takes = record {
    replies = ground arith;
    shows = λ j t h. ground (arith, lookup-delete k j m.items, text_eq_iff k j);
    valid = tt;
  }

  memory-existences :
      Agrees Any entries now
        (exists now k m)
        (ok (is_held (live now (entries m k))))
        (λ j. live now (entries m j))
  unfolding exists entries live is_held is_miss
  memory-existences = record {
    replies = ground arith;
    shows = λ j t h. ground (arith, lookup-delete k j m.items, text_eq_iff k j);
    valid = tt;
  }

  memory-ttls :
      Agrees Any entries now
        (ttl now k m)
        (remaining now (live now (entries m k)))
        (λ j. live now (entries m j))
  unfolding ttl entries live remaining
  memory-ttls = record {
    replies = ground arith;
    shows = λ j t h. ground (arith, lookup-delete k j m.items, text_eq_iff k j);
    valid = tt;
  }

  memory-deletes : Agrees Any entries now (drop k m) none (remove k (λ j. live now (entries m j)))
  unfolding drop entries live remove
  memory-deletes = record {
    replies = refl;
    shows = λ j t h. ground (arith, lookup-delete k j m.items, text_eq_iff k j);
    valid = tt;
  }

  memory-sets :
      (x : Bytes) (life : ℤ)
      → Agrees Any entries now (set now k x life m) none (
          put k
            (record { value = x; deadline = deadline_after now life })
            (λ j. live now (entries m j)))
  unfolding set entries live put deadline_after
  memory-sets x life = record {
    replies = refl;
    shows = λ j t h. rw lookup-insert (ground arith);
    valid = tt;
  }

  -- A count stored in a world that shows what `m` shows beside `k`.
  stored :
      (next life : ℤ) (at : Option ℕ) (m' : Memory) (j : Bytes) (t : ℕ)
      → now ≤ t
      → lookup j m'.items ≡ lookup j m.items ⊎ (text_eq k j ≡ true)
      → live t (entries (store_count now k life at next m').1 j)
        ≡ live t (
            put k
              (record {
                value = format_int next;
                deadline = if is_positive life then some (now + pos_part life) else at;
              })
              (λ i. live now (entries m i))
              j)
  unfolding store_count entries live put
  stored next life at m' j t h same = rw lookup-insert (ground arith)

  module _ (delta life : ℤ) (j : Bytes) (t : ℕ) (h : now ≤ t) where
    -- A live item with the number `p`.
    number-shows :
        (item : MemoryItem) (p : Parsed)
        → lookup k m.items ≡ some item
        → expired now item ≡ false
        → live t (entries (add_to now k delta life item.expires_at p m).1 j)
          ≡ live t
              (incremented now k life (added delta (number_of p)) (λ i. live now (entries m i)) j)
    unfolding add_to entries live added incremented number_of expired
    number-shows item (parsed z) e fresh = rw lookup-insert (ground (arith, e))
    number-shows item bad_syntax e fresh = ground arith
    number-shows item (out_of_range z) e fresh = ground arith

    -- The item at `k`, if there is one, is `o`.
    item-shows :
        (o : Option MemoryItem)
        → lookup k m.items ≡ o
        → live t (entries (increment_item now k delta life o m).1 j)
          ≡ live t (
              incremented now k life
                (added delta (counted (live now (entry_of o))))
                (λ i. live now (entries m i))
                j)
    unfolding increment_item entries live counted incremented added
    item-shows none e = rw lookup-insert (ground (arith, e))
    item-shows (some item) e = elim (Bool-cases (expired now item)) [
      | inl over ↦ rw over (rw lookup-insert (rw lookup-delete (ground (arith, e))))
      | inr fresh ↦ rw fresh (number-shows item (parse_int item.value) e fresh)
    ]

  memory-increments :
      (delta life : ℤ)
      → let total = added delta (counted (live now (entries m k))) in
        Agrees Any entries now
          (increment now k delta life m)
          total
          (incremented now k life total (λ j. live now (entries m j)))
  unfolding increment entries live added counted incremented
  memory-increments delta life = record {
    replies = ground arith;
    shows = λ j t h. item-shows delta life j t h (lookup k m.items) refl;
    valid = tt;
  }

-- The store of cache/memory.go implements the abstract map: every call replies as the map does,
-- and from then on the store shows what the map shows, whatever it held before.
pub memory-Implements : Implements memory_cache Any entries
memory-Implements = record {
  gets = λ now k m _ _. memory-gets now k m;
  sets = λ now k x life m _ _. memory-sets now k m x life;
  takes = λ now k m _ _. memory-takes now k m;
  existences = λ now k m _ _. memory-existences now k m;
  increments = λ now k delta life m _ _. memory-increments now k m delta life;
  ttls = λ now k m _ _. memory-ttls now k m;
  deletes = λ now k m _. memory-deletes now k m;
}
