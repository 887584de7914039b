-- ===== src/Cache/Spec.antt =====
-- What a cache promises, whatever stores it: a map from keys to entries, each with a deadline,
-- and what it means that a store implements it.
pub mod Laws
use chobits.Prelude.{
  ℕ, ◌+◌, ◌-◌, ◌≤◌, ◌<◌, ◌≡◌, Bool, true, false, Option, none, some, Bytes, Result, ok, err, ltb,
  leb, if◌then◌else◌,
}
use chobits.Int64.{ℤ, pos, pos_part, is_positive, ◌+ℤ◌, wrap64, half_range}
use chobits.Int64.Decimal.{Parsed, parsed, bad_syntax, out_of_range, parse_int, format_int}
use chobits.Text.{text_eq}
use chobits.Cache.{Error, Err, miss, number_syntax, number_range, Exec, Cache}

pub record Entry : Type 0 where
  pub value : Bytes
  pub deadline : Option ℕ

unfoldable pub is_over : ℕ → Entry → Bool
is_over now e = elim e.deadline [ none ↦ false | some d ↦ leb d now ]

-- An entry whose deadline has come is not there.
unfoldable pub live : ℕ → Option Entry → Option Entry
unfolding is_over
live now none = none
live now (some e) = if is_over now e then none else some e

-- A time to live that is not positive sets no deadline.
unfoldable pub deadline_after : ℕ → ℤ → Option ℕ
deadline_after now ttl = if is_positive ttl then some (now + pos_part ttl) else none

-- What the keys hold at one instant; nothing in it is over.
abbrev pub View : Type 0
View = Bytes → Option Entry

unfoldable pub put : Bytes → Entry → View → View
unfolding text_eq
put k e v j = if text_eq k j then some e else v j

unfoldable pub remove : Bytes → View → View
unfolding text_eq
remove k v j = if text_eq k j then none else v j

unfoldable pub found : Option Entry → Result Error Bytes
found none = err miss
found (some e) = ok e.value

unfoldable pub is_held : Option Entry → Bool
is_held none = false
is_held (some e) = true

-- What is left to live, as far as an int64 reaches; 0 if there is no deadline.
unfoldable pub remaining : ℕ → Option Entry → Result Error ℤ
remaining now none = err miss
remaining now (some e) = elim e.deadline [
  | none ↦ ok (pos 0)
  | some d ↦ ok (pos (if ltb (d - now) half_range then d - now else half_range - 1))
]

unfoldable pub number_of : Parsed → Result Error ℤ
number_of (parsed z) = ok z
number_of bad_syntax = err number_syntax
number_of (out_of_range z) = err number_range

-- The number that a key counts; 0 if the key is absent.
unfoldable pub counted : Option Entry → Result Error ℤ
unfolding number_of
counted none = ok (pos 0)
counted (some e) = number_of (parse_int e.value)

-- A counter keeps its deadline unless the call brings a new one.
unfoldable pub renewed : ℕ → ℤ → Option Entry → Option ℕ
renewed now ttl o =
    if is_positive ttl
    then some (now + pos_part ttl)
    else elim o [ none ↦ none | some e ↦ e.deadline ]

unfoldable pub added : ℤ → Result Error ℤ → Result Error ℤ
added delta (ok z) = ok (wrap64 (z +ℤ delta))
added delta (err e) = err e

unfoldable pub incremented : ℕ → Bytes → ℤ → Result Error ℤ → View → View
unfolding put renewed
incremented now k ttl (ok z) v =
    put k (record { value = format_int z; deadline = renewed now ttl (v k) }) v
incremented now k ttl (err e) v = v

-- The clock stands within int64 nanoseconds, until the year 2262, and so does the deadline.
abbrev pub InEra : ℕ → ℤ → Type 0
InEra now ttl = now + pos_part ttl < half_range

-- `r` is a reply and a world: the reply is `reply`, and from now on the world shows what `v` shows.
pub record Agrees {S A : Type 0} (IsValid : S → Type 0) (entry : S → View) (now : ℕ) (r : A × S)
    (reply : A) (v : View) : Type 0 where
  pub replies : r.0 ≡ reply
  pub shows : (j : Bytes) (t : ℕ) → now ≤ t → live t (entry r.1 j) ≡ live t (v j)
  pub valid : IsValid r.1

-- Every call of the store `c`, in a valid world, replies and acts as the map does.
pub record Implements {S : Type 0} (c : Cache S) (IsValid : S → Type 0) (entry : S → View)
    : Type 0 where
  pub gets :
      (now : ℕ) (k : Bytes) (s : S)
      → IsValid s
      → now < half_range
      → Agrees IsValid entry now
          (c.get now k s)
          (found (live now (entry s k)))
          (λ j. live now (entry s j))
  pub sets :
      (now : ℕ) (k x : Bytes) (ttl : ℤ) (s : S)
      → IsValid s
      → InEra now ttl
      → Agrees IsValid entry now (c.set now k x ttl s) none (
          put k
            (record { value = x; deadline = deadline_after now ttl })
            (λ j. live now (entry s j)))
  pub takes :
      (now : ℕ) (k : Bytes) (s : S)
      → IsValid s
      → now < half_range
      → Agrees IsValid entry now
          (c.take now k s)
          (found (live now (entry s k)))
          (remove k (λ j. live now (entry s j)))
  pub existences :
      (now : ℕ) (k : Bytes) (s : S)
      → IsValid s
      → now < half_range
      → Agrees IsValid entry now
          (c.exists now k s)
          (ok (is_held (live now (entry s k))))
          (λ j. live now (entry s j))
  pub increments :
      (now : ℕ) (k : Bytes) (delta ttl : ℤ) (s : S)
      → IsValid s
      → InEra now ttl
      → let total = added delta (counted (live now (entry s k))) in
        Agrees IsValid entry now
          (c.increment now k delta ttl s)
          total
          (incremented now k ttl total (λ j. live now (entry s j)))
  pub ttls :
      (now : ℕ) (k : Bytes) (s : S)
      → IsValid s
      → now < half_range
      → Agrees IsValid entry now
          (c.ttl now k s)
          (remaining now (live now (entry s k)))
          (λ j. live now (entry s j))
  pub deletes :
      (now : ℕ) (k : Bytes) (s : S)
      → IsValid s
      → Agrees IsValid entry now (c.delete k s) none (remove k (λ j. live now (entry s j)))
