-- ===== src/Cache/RateLimit/Peek.antt =====
-- What Peek sees of a counter, and what Reset leaves of it.
use chobits.Prelude.{ℕ, ◌-◌, ◌≤◌, ◌<◌, ◌≡◌, refl, ◌∙◌, ap, some, Bytes, Result, ok, err, arith}
use chobits.Int64.{ℤ, pos, half_range, IsInt64}
use chobits.Int64.Decimal.{format_int}
use chobits.Int64.Decimal.RoundTrip.{parse_int-format_int}
use chobits.Text.{text_eq_refl}
use chobits.Cache.{Error, miss, is_miss}
use chobits.Cache.Spec.{Entry, View, live, remove, found, remaining, Implements}
use chobits.Cache.Spec.Laws.{live-live}
use chobits.Cache.RateLimit.{RateLimiter, full_key, peek, reset, after_get, with_ttl}
use native.Mathlib.Nat.{le_refl}

-- A count with a deadline, as Increment stores it.
abbrev pub count_entry : ℤ → ℕ → Entry
count_entry z d = record { value = format_int z; deadline = some d }

found_count :
    (now d : ℕ) (z : ℤ) → now < d → found (live now (some (count_entry z d))) ≡ ok (format_int z)
unfolding found live
found_count now d z h = ground arith

remaining_count :
    (now d : ℕ) (z : ℤ)
    → now < d
    → d < half_range
    → remaining now (live now (some (count_entry z d))) ≡ ok (pos (d - now))
unfolding remaining live
remaining_count now d z h era = ground arith

found_removed : (now : ℕ) (k : Bytes) (v : View) → found (live now (remove k v k)) ≡ err miss
unfolding found live remove
found_removed now k v = ground (arith, text_eq_refl k)

module _ {S : Type 0} (l : RateLimiter S) (IsValid : S → Type 0) (entry : S → View)
    (store : Implements l.store IsValid entry) (k : Bytes) (limit : ℤ) (now later : ℕ) (s : S)
    (valid : IsValid s) (le : now ≤ later) where
  abbrev full : Bytes
  full = full_key l k

  abbrev got : Result Error Bytes × S
  got = l.store.get now full s

  -- While the window of a counter is open, Peek replies its count and what is left of the window.
  pub peek_counter :
      (z : ℤ) (d : ℕ)
      → IsInt64 z
      → later < d
      → d < half_range
      → entry s full ≡ some (count_entry z d)
      → (peek l now later k limit s).0
        ≡ ok (record { key = full; count = z; limit = limit; ttl = pos (d - later) })
  unfolding peek
  peek_counter z d fits fresh era e =
      let gets = store.gets now full s valid (omega arith) in
      let read : got.0 ≡ ok (format_int z) =
        gets.replies ∙ ap (λ o. found (live now o)) e ∙ found_count now d z (omega arith) in
      let asked : (l.store.ttl later full got.1).0 ≡ ok (pos (d - later)) =
        (store.ttls later full got.1 gets.valid (omega arith)).replies
        ∙ ap (remaining later) (gets.shows full later le ∙ live-live now later _ le)
        ∙ ap (λ o. remaining later (live later o)) e
        ∙ remaining_count later d z fresh era in
      rw (read, after_get)
        (rw (parse_int-format_int z fits, after_get) (ap (with_ttl full z limit) asked))

  -- After Reset, Peek counts nothing, whatever the key held before.
  pub peek-reset :
      now < half_range
      → (peek l now later k limit (reset l k s).1).0
        ≡ ok (record { key = full; count = pos 0; limit = limit; ttl = pos 0 })
  unfolding peek reset is_miss
  peek-reset era =
      let deletes = store.deletes now full s valid in
      let read : (l.store.get now full (l.store.delete full s).1).0 ≡ err miss =
        (store.gets now full _ deletes.valid era).replies
        ∙ ap found (deletes.shows full now (le_refl now))
        ∙ found_removed now full _ in
      rw (read, after_get) refl
