-- ===== src/Cache/RateLimit/Counting.antt =====
-- What a rate limiter counts, over any store that implements the abstract map.
use chobits.Prelude.{
  ℕ, ◌+◌, ◌-◌, ◌≤◌, ◌<◌, ◌≡◌, refl, ◌∙◌, ap, ap₂, subst, Option, none, some, List, [], ◌∷◌, Bytes,
  Result, ok, arith, length,
}
use native.Mathlib.Nat.{le_trans}
use chobits.Int64.{ℤ, pos, ◌+ℤ◌, wrap64, wrap64_fits, half_range}
use chobits.Int64.Decimal.{format_int}
use chobits.Int64.Decimal.RoundTrip.{parse_int-format_int}
use chobits.Text.{text_eq_refl}
use chobits.Cache.{Error}
use chobits.Cache.Spec.{
  Entry, View, live, put, counted, added, incremented, remaining, Agrees, Implements,
}
use chobits.Cache.Spec.Laws.{live-live}
use chobits.Cache.RateLimit.{RateLimiter, RateLimitResult, full_key, hit, with_ttl}

-- A counter that stands at `n` and lives until `d`.
abbrev counter : ℕ → ℕ → Entry
counter n d = record { value = format_int (pos n); deadline = some d }

plus_one : (n : ℕ) → pos n +ℤ pos 1 ≡ pos (n + 1)
unfolding ◌+ℤ◌
plus_one n = ground arith

added_one :
    (n : ℕ) (r : Result Error ℤ)
    → r ≡ ok (pos n)
    → n + 1 < half_range
    → added (pos 1) r ≡ ok (pos (n + 1))
unfolding added
added_one n r e h = rw e (ap ok (ap wrap64 (plus_one n) ∙ wrap64_fits (pos (n + 1)) h))

-- What the map holds at `k` after a hit that counted `n`.
incremented_self :
    (now w n : ℕ) (k : Bytes) (v : View)
    → 0 < w
    → incremented now k (pos w) (ok (pos n)) v k ≡ some (counter n (now + w))
unfolding incremented put
incremented_self now w n k v h = ground (arith, text_eq_refl k)

remaining-counter :
    (now n d : ℕ)
    → now < d
    → d < half_range
    → remaining now (live now (some (counter n d))) ≡ ok (pos (d - now))
unfolding remaining live
remaining-counter now n d h era = ground arith

counted-counter :
    (now n d : ℕ) → now < d → n < half_range → counted (live now (some (counter n d))) ≡ ok (pos n)
unfolding counted live
counted-counter now n d h room = ground (arith, parse_int-format_int (pos n) room)

counted-live-none : (t : ℕ) → counted (live t none) ≡ ok (pos 0)
unfolding counted live
counted-live-none t = refl

module _ {S : Type 0} (l : RateLimiter S) (IsValid : S → Type 0) (entry : S → View)
    (store : Implements l.store IsValid entry) (k : Bytes) (limit : ℤ) where
  -- From the instant `now` on, the counter of `k` is `o`.
  abbrev Stands : S → ℕ → Option Entry → Type 0
  Stands s now o = IsValid s × ((t : ℕ) → now ≤ t → live t (entry s (full_key l k)) ≡ live t o)

  abbrev bumped : ℕ → ℕ → S → Result Error ℤ × S
  bumped now w s = l.store.increment now (full_key l k) (pos 1) (pos w) s

  module _ (now w n : ℕ) (o : Option Entry) (s : S) (at : Stands s now o)
      (count : counted (live now o) ≡ ok (pos n)) (positive : 0 < w) (era : now + w < half_range)
      (room : n + 1 < half_range) where
    agrees :
        Agrees IsValid entry now
          (bumped now w s)
          (ok (pos (n + 1)))
          (incremented now (full_key l k) (pos w) (ok (pos (n + 1))) (λ j. live now (entry s j)))
    agrees =
        subst
          (λ r.
            Agrees IsValid entry now (bumped now w s) r
              (incremented now (full_key l k) (pos w) r (λ j. live now (entry s j))))
          (added_one n _ (ap counted (at.1 now (omega arith)) ∙ count) room)
          (store.increments now (full_key l k) (pos 1) (pos w) s at.0 era)

    bumped-Stands : Stands (bumped now w s).1 now (some (counter (n + 1) (now + w)))
    bumped-Stands = (
      agrees.valid,
      λ t h.
          agrees.shows (full_key l k) t h
          ∙ ap (live t) (incremented_self now w (n + 1) (full_key l k) _ positive),
    )

    module _ (later : ℕ) (le : now ≤ later) (within : later < now + w) where
      asked :
          Agrees IsValid entry later
            (l.store.ttl later (full_key l k) (bumped now w s).1)
            (ok (pos (now + w - later)))
            (λ j. live later (entry (bumped now w s).1 j))
      asked =
          subst
            (λ r.
              Agrees IsValid entry later (l.store.ttl later (full_key l k) (bumped now w s).1) r
                (λ j. live later (entry (bumped now w s).1 j)))
            (ap (remaining later) (bumped-Stands.1 later le)
              ∙ remaining-counter later (n + 1) (now + w) within era)
            (store.ttls later (full_key l k) (bumped now w s).1 agrees.valid (omega arith))

      hit-counts :
          ((hit l now later k limit (pos w) s).0
            ≡ ok (record {
              key = full_key l k;
              count = pos (n + 1);
              limit = limit;
              ttl = pos (now + w - later);
            }))
          × Stands (hit l now later k limit (pos w) s).1 later (some (counter (n + 1) (now + w)))
      unfolding hit
      hit-counts = rw agrees.replies (
        ap (with_ttl (full_key l k) (pos (n + 1)) limit) asked.replies,
        (
          asked.valid,
          λ t h.
              asked.shows (full_key l k) t h
              ∙ live-live later t _ h
              ∙ bumped-Stands.1 t (le_trans le h),
        ),
      )

  -- One hit for each pair of readings, and the replies in their order.
  abbrev pub hit_all : ℕ → List (ℕ × ℕ) → S → List (Result Error RateLimitResult)
  hit_all w [] s = []
  hit_all w ((now, later) ∷ ts) s =
      let (r, s') = hit l now later k limit (pos w) s in r ∷ hit_all w ts s'

  -- The replies that count up from `n`, each with what is left of a window that it opened.
  abbrev pub numbered : ℕ → ℕ → List (ℕ × ℕ) → List (Result Error RateLimitResult)
  numbered w n [] = []
  numbered w n ((now, later) ∷ ts) =
      ok (record {
        key = full_key l k;
        count = pos (n + 1);
        limit = limit;
        ttl = pos (now + w - later);
      })
      ∷ numbered w (n + 1) ts

  -- The readings go up from `since`, and each hit comes before `deadline`, at first, and then
  -- before the window of the hit before it has run out.
  abbrev pub Spaced : ℕ → ℕ → ℕ → List (ℕ × ℕ) → Type 0
  Spaced w since deadline [] = Unit
  Spaced w since deadline ((now, later) ∷ ts) =
      (since ≤ now)
      × (now < deadline)
      × (now ≤ later)
      × (later < now + w)
      × (now + w < half_range)
      × Spaced w later (now + w) ts

  hit_all-numbered :
      (w n since deadline : ℕ) (o : Option Entry) (ts : List (ℕ × ℕ)) (s : S)
      → Stands s since o
      → ((t : ℕ) → t < deadline → counted (live t o) ≡ ok (pos n))
      → n + length ts < half_range
      → Spaced w since deadline ts
      → hit_all w ts s ≡ numbered w n ts
  hit_all-numbered w n since deadline o [] s at count room spaced = refl
  hit_all-numbered w n since deadline o ((now, later) ∷ ts) s at count room spaced =
      let (order, fresh, le, within, era, rest) = spaced in
      let (reply, stands) =
        hit-counts now w n o s (at.0, λ t h. at.1 t (le_trans order h)) (count now fresh)
          (omega arith) era (omega arith) later le within in
      ap₂ ◌∷◌ reply (
        hit_all-numbered w (n + 1) later (now + w) (some (counter (n + 1) (now + w))) ts _ stands
          (λ t h. counted-counter t (n + 1) (now + w) h (omega arith)) (omega arith) rest)

  -- If the key is absent when the first hit comes, and each hit comes before the window that the
  -- hit before it opened has run out, then the replies count 1, 2, 3 and so on, without ever
  -- starting again, and each tells what is left of a whole new window.
  pub hits_count_up :
      (w since deadline : ℕ) (ts : List (ℕ × ℕ)) (s : S)
      → IsValid s
      → entry s (full_key l k) ≡ none
      → length ts < half_range
      → Spaced w since deadline ts
      → hit_all w ts s ≡ numbered w 0 ts
  hits_count_up w since deadline ts s valid absent room spaced =
      hit_all-numbered w 0 since deadline none ts s (valid, λ t h. ap (live t) absent)
        (λ t h. counted-live-none t) (omega arith) spaced
