-- ===== src/Cache/Database/Rows.antt =====
-- The rows of a table as the entries of the abstract map.
use chobits.Prelude.{
  ℕ, ◌+◌, ◌-◌, ◌≤◌, ◌<◌, ◌≡◌, refl, sym, ◌∙◌, ap, subst, Bool, true, false, Bool-cases, Option,
  none, some, Bytes, ok, inl, inr, arith, if◌then◌else◌, ◌==◌,
}
use chobits.Int64.{ℤ, pos, negsuc, is_positive, pos_part, half_range, wrap64_fits, sub_ℕ}
use chobits.Text.{text_eq, text_eq-eq}
use chobits.Cache.Spec.{Entry, View, live, put, remove, deadline_after, remaining, renewed, InEra}
use chobits.Cache.Spec.Laws.{live-live}
use chobits.Cache.Database.Sql.{Row}
use chobits.Cache.Database.Reliable.{a_row, without, with_row}
use chobits.Cache.Database.{expired, unix_nano, deadline_of, left_of, is_zero}

abbrev pub deadline_at : ℤ → Option ℕ
deadline_at (pos n) = if n == 0 then none else some n
deadline_at (negsuc n) = none

unfoldable pub entry_of : Option Row → Option Entry
entry_of none = none
entry_of (some row) =
    some (record { value = row.cache_value; deadline = deadline_at row.expires_at })

-- The deadlines that Set and Increment write before the year 2262.
abbrev pub IsTime : ℤ → Type 0
IsTime (pos n) = n < half_range
IsTime (negsuc n) = ⊥

abbrev pub HasTime : Option Row → Type 0
HasTime none = Unit
HasTime (some row) = IsTime row.expires_at

unix_nano_fits : (now : ℕ) → now < half_range → unix_nano now ≡ pos now
unfolding unix_nano
unix_nano_fits now h = wrap64_fits (pos now) h

-- The test of the source on a deadline decides whether the entry is over.
over_at :
    (now : ℕ) (x : Bytes) (z : ℤ)
    → IsTime z
    → now < half_range
    → live now (entry_of (some (a_row x z)))
      ≡ (if expired now z then none else entry_of (some (a_row x z)))
unfolding live entry_of expired
over_at now x (pos n) h era = ground (arith, wrap64_fits (pos now) era)
over_at now x (negsuc n) h era = absurd h

pub over :
    (now : ℕ) (row : Row)
    → IsTime row.expires_at
    → now < half_range
    → expired now row.expires_at ≡ true
    → live now (entry_of (some row)) ≡ none
over now row h era e =
    over_at now row.cache_value row.expires_at h era
    ∙ ap (λ b. if b then none else entry_of (some row)) e

pub fresh :
    (now : ℕ) (row : Row)
    → IsTime row.expires_at
    → now < half_range
    → expired now row.expires_at ≡ false
    → live now (entry_of (some row)) ≡ entry_of (some row)
fresh now row h era e =
    over_at now row.cache_value row.expires_at h era
    ∙ ap (λ b. if b then none else entry_of (some row)) e

pub deadline_of_lem :
    (now : ℕ) (ttl : ℤ) (kept : ℤ)
    → InEra now ttl
    → deadline_of now ttl kept ≡ (if is_positive ttl then pos (now + pos_part ttl) else kept)
unfolding deadline_of
deadline_of_lem now ttl kept h = ap (λ z. if is_positive ttl then z else kept) (unix_nano_fits _ h)

module _ (now t : ℕ) (le : now ≤ t) (o : Option Row) where
  removed_if :
      (b : Bool)
      → live t (entry_of (if b then none else o))
        ≡ live t (if b then none else live now (entry_of o))
  unfolding live entry_of
  removed_if true = refl
  removed_if false = sym (live-live now t (entry_of o) le)

  put_if :
      (b : Bool) (row : Row) (e : Entry)
      → entry_of (some row) ≡ some e
      → live t (entry_of (if b then some row else o))
        ≡ live t (if b then some e else live now (entry_of o))
  put_if true row e same = ap (live t) same
  put_if false row e same = sym (live-live now t (entry_of o) le)

module _ (now t : ℕ) (le : now ≤ t) (k j : Bytes) (old new : Bytes → Option Row) where
  abbrev view : View
  view i = live now (entry_of (old i))

  pub shows_same : new j ≡ old j → live t (entry_of (new j)) ≡ live t (view j)
  shows_same e = ap (λ o. live t (entry_of o)) e ∙ sym (live-live now t _ le)

  pub shows_removed : new j ≡ without k old j → live t (entry_of (new j)) ≡ live t (remove k view j)
  unfolding remove
  shows_removed e = ap (λ o. live t (entry_of o)) e ∙ removed_if now t le (old j) (text_eq k j)

  pub removed_absent : view k ≡ none → remove k view j ≡ view j
  unfolding remove
  removed_absent gone = elim (Bool-cases (text_eq k j)) [
    | inl hit ↦ rw hit (sym gone ∙ ap view (text_eq-eq k j hit))
    | inr other ↦ rw other
  ]

  -- what is over may go
  pub shows_dropped :
      new j ≡ without k old j → view k ≡ none → live t (entry_of (new j)) ≡ live t (view j)
  shows_dropped e gone = shows_removed e ∙ ap (live t) (removed_absent gone)

  pub shows_put :
      (row : Row) (e : Entry)
      → new j ≡ with_row k row old j
      → entry_of (some row) ≡ some e
      → live t (entry_of (new j)) ≡ live t (put k e view j)
  unfolding put
  shows_put row x e same =
      ap (λ o. live t (entry_of o)) e ∙ put_if now t le (old j) (text_eq k j) row x same

module _ (k j : Bytes) (old new : Bytes → Option Row) (timely : HasTime (old j)) where
  pub HasTime-same : new j ≡ old j → HasTime (new j)
  HasTime-same e = subst HasTime (sym e) timely

  pub HasTime-without : new j ≡ without k old j → HasTime (new j)
  HasTime-without e =
      subst HasTime (sym e)
        (elim (Bool-cases (text_eq k j)) [ inl hit ↦ rw hit tt | inr other ↦ rw other timely ])

  pub HasTime-with_row :
      (row : Row) → IsTime row.expires_at → new j ≡ with_row k row old j → HasTime (new j)
  HasTime-with_row row fits e =
      subst HasTime (sym e)
        (elim (Bool-cases (text_eq k j)) [ inl hit ↦ rw hit fits | inr other ↦ rw other timely ])

-- The deadline column that Set writes stands for the deadline of the map.
pub entry_of-set :
    (now : ℕ) (x : Bytes) (ttl : ℤ)
    → InEra now ttl
    → entry_of (some (a_row x (deadline_of now ttl (pos 0))))
      ≡ some (record { value = x; deadline = deadline_after now ttl })
unfolding entry_of deadline_after
entry_of-set now x ttl h = rw (deadline_of_lem now ttl (pos 0) h) (ground arith)

pub deadline_of-IsTime :
    (now : ℕ) (ttl kept : ℤ) → InEra now ttl → IsTime kept → IsTime (deadline_of now ttl kept)
deadline_of-IsTime now ttl kept h fits =
    rw (deadline_of_lem now ttl kept h)
      (elim (Bool-cases (is_positive ttl)) [ inl p ↦ rw p h | inr p ↦ rw p fits ])

-- An Increment of a row that is there keeps its deadline unless it brings one.
pub entry_of-renewed :
    (now : ℕ) (x y : Bytes) (ttl z : ℤ)
    → InEra now ttl
    → entry_of (some (a_row x (deadline_of now ttl z)))
      ≡ some (record { value = x; deadline = renewed now ttl (entry_of (some (a_row y z))) })
unfolding entry_of renewed
entry_of-renewed now x y ttl z h = rw (deadline_of_lem now ttl z h) (ground arith)

-- What is left of a deadline, as the source computes it in int64.
left_of_lem :
    (now n : ℕ) → n < half_range → now < half_range → left_of now (pos n) ≡ sub_ℕ (n + 0) (0 + now)
unfolding left_of
left_of_lem now n h era = ground (
  arith,
  wrap64_fits (pos now) era,
  wrap64_fits (pos (n - now)),
  wrap64_fits (negsuc (now - n - 1)),
)

module _ (now : ℕ) (x : Bytes) (era : now < half_range) where
  pub remaining_zero :
      (z : ℤ)
      → IsTime z
      → is_zero z ≡ true
      → remaining now (live now (entry_of (some (a_row x z)))) ≡ ok (pos 0)
  unfolding remaining live entry_of is_zero
  remaining_zero (pos n) h e = ground arith
  remaining_zero (negsuc n) h e = absurd h

  pub remaining_left :
      (z : ℤ)
      → IsTime z
      → is_zero z ≡ false
      → is_positive (left_of now z) ≡ true
      → remaining now (live now (entry_of (some (a_row x z)))) ≡ ok (left_of now z)
  unfolding remaining live entry_of is_zero
  remaining_left (pos n) h e p = ground (arith, left_of_lem now n h era)
  remaining_left (negsuc n) h e p = absurd h

  pub gone_left :
      (z : ℤ)
      → IsTime z
      → is_zero z ≡ false
      → is_positive (left_of now z) ≡ false
      → live now (entry_of (some (a_row x z))) ≡ none
  unfolding live entry_of is_zero
  gone_left (pos n) h e p = ground (arith, left_of_lem now n h era)
  gone_left (negsuc n) h e p = absurd h
