-- ===== src/Cache/Database/Transactions.antt =====
-- Over a working database, Take and Increment of cache/database.go are those of the abstract map.
use native.Mathlib.Nat.{le_refl}
use chobits.Prelude.{
  [], ℕ, ◌<◌, ◌≡◌, refl, sym, ◌∙◌, ap, subst, true, Bool-cases, Option, none, some, Bytes, Result,
  ok, err, inl, inr, arith, if◌then◌else◌,
}
use chobits.Int64.{ℤ, pos, half_range, wrap64, ◌+ℤ◌}
use chobits.Int64.Decimal.{Parsed, parsed, bad_syntax, out_of_range, parse_int, format_int}
use chobits.Text.{text_eq}
use chobits.Cache.{Error, miss, Exec, number_syntax, number_range}
use chobits.Cache.Spec.{
  Entry, View, live, remove, found, counted, number_of, added, renewed, incremented, deadline_after,
  InEra, Agrees, Implements,
}
use chobits.Cache.Database.Sql.{Sql, Row, ScanError}
use chobits.Cache.Database.Reliable.{Reliable, row_reply, without, with_row, a_row}
use chobits.Cache.Database.Rows.{
  entry_of, HasTime, IsTime, over, fresh, shows_same, shows_removed, removed_absent, HasTime-same,
  HasTime-without, entry_of-set, entry_of-renewed, deadline_of-IsTime,
}
use chobits.Cache.Database.Refinement.{
  IsTimely, entries, database-gets, database-ttls, database-existences, database-deletes,
  found-none, found_row, found_missing,
}
use chobits.Cache.Database.Writes.{
  start_ok, Leaves, insert-Leaves, update-Leaves, delete-Leaves, reinsert-Leaves, put-Agrees,
  database-sets,
}
use chobits.Cache.Database.{
  Database, database_cache, expired, deadline_of, start, then_in_tx, finish, delete_in_tx,
  locked_row, take, take_row, value_unless_expired, increment, increment_row, add_to, add_new,
  write_count,
}

counted_row : (row : Row) → counted (entry_of (some row)) ≡ number_of (parse_int row.cache_value)
unfolding counted entry_of
counted_row row = refl

module _ {D : Type 0} (sql : Sql D) (cache : Database) (rows tx_rows : D → Bytes → Option Row)
    (promise : Reliable sql cache.driver cache.table rows tx_rows)
    (up : cache.connected ≡ true) where
  abbrev pub Valid : D → Type 0
  Valid = IsTimely sql cache rows tx_rows promise up

  abbrev pub held : D → View
  held = entries sql cache rows tx_rows promise up

  -- The world in which a transaction on `k` goes on after its locking read.
  abbrev opened : Bytes → D → D
  opened k d = (locked_row sql cache k (sql.begin_tx d).1).1

  rows-opened : (k : Bytes) (d : D) (j : Bytes) → rows (opened k d) j ≡ rows d j
  unfolding locked_row
  rows-opened k d j = promise.lock_rows k _ j ∙ promise.begin_rows d j

  tx_rows-opened : (k : Bytes) (d : D) (j : Bytes) → tx_rows (opened k d) j ≡ rows d j
  unfolding locked_row
  tx_rows-opened k d j = promise.lock_tx_rows k _ j ∙ promise.begin_tx_rows d j

  rolled_back : (k : Bytes) (d : D) (j : Bytes) → rows (sql.rollback (opened k d)) j ≡ rows d j
  rolled_back k d j = promise.rollback_rows _ j ∙ rows-opened k d j

  -- Such a transaction goes on with the row that is there.
  start_locked :
      {A : Type 0} (k : Bytes) (next : Result ScanError Row → Exec D A) (d : D)
      → start sql cache (λ d. let (row, d') = locked_row sql cache k d in next row d') d
        ≡ next (row_reply (rows d k)) (opened k d)
  unfolding locked_row
  start_locked k next d =
      start_ok sql cache _ d (promise.begin_works d)
      ∙ ap (λ r. next r (opened k d))
          (promise.lock_replies k _ ∙ ap row_reply (promise.begin_tx_rows d k))

  module _ (now : ℕ) (k : Bytes) (d : D) (timely : Valid d) where
    abbrev view : View
    view j = live now (held d j)

    removed-Agrees :
        {A : Type 0} (b b' : A) (d' : D)
        → b ≡ b'
        → ((j : Bytes) → rows d' j ≡ without k (rows d) j)
        → Agrees Valid held now (b, d') b' (remove k view)
    removed-Agrees b b' d' reply left = record {
      replies = reply;
      shows = λ j t le. shows_removed now t le k j (rows d) (rows d') (left j);
      valid = λ j. HasTime-without k j (rows d) (rows d') (timely j) (left j);
    }

    -- A rollback of a transaction that wrote nothing.
    unchanged-Agrees :
        {A : Type 0} (b b' : A) (v : View)
        → b ≡ b'
        → ((j : Bytes) → v j ≡ view j)
        → Agrees Valid held now (b, sql.rollback (opened k d)) b' v
    unchanged-Agrees b b' v reply same = record {
      replies = reply;
      shows = λ j t le.
          shows_same now t le k j (rows d) (rows (sql.rollback (opened k d))) (rolled_back k d j)
          ∙ ap (live t) (sym (same j));
      valid = λ j.
          HasTime-same k j (rows d) (rows (sql.rollback (opened k d))) (timely j)
            (rolled_back k d j);
    }

    absent : rows d k ≡ none → view k ≡ none
    unfolding live entry_of
    absent e = rw e

    value_case :
        (row : Row) (x : Bytes) (m : Result Error Bytes × D)
        → m.0 ≡ ok x
        → value_unless_expired sql cache now row m
          ≡ (if expired now row.expires_at then (err miss, m.1) else (ok x, m.1))
    unfolding value_unless_expired
    value_case row x (r, d') e = rw e

    take_row-Agrees :
        (o : Option Row)
        → rows d k ≡ o
        → now < half_range
        → Agrees Valid held now
            (take_row sql cache now k (row_reply o) (opened k d))
            (found (live now (entry_of o)))
            (remove k view)
    unfolding take_row
    take_row-Agrees none e era =
        unchanged-Agrees (err miss) _ _ (sym (found_missing now))
          (λ j. removed_absent now now (le_refl now) k j (rows d) (rows d) (absent e))
    take_row-Agrees (some row) e era =
        let m =
          then_in_tx sql cache (delete_in_tx sql cache k) (finish sql cache row.cache_value)
            (opened k d) in
        let leaves =
          delete-Leaves sql cache rows tx_rows promise up k [] (pos 0) row.cache_value
            (opened k d) in
        let left : (j : Bytes) → rows m.1 j ≡ without k (rows d) j =
          λ j. leaves.1 j ∙ ap (λ o. if text_eq k j then none else o) (tx_rows-opened k d j) in
        let timed = subst HasTime e (timely k) in
        rw (value_case row row.cache_value m leaves.0)
          (elim (Bool-cases (expired now row.expires_at)) [
            | inl is_over ↦ rw is_over (
                removed-Agrees (err miss) _ m.1
                  (sym (ap found (over now row timed era is_over) ∙ found-none)) left)
            | inr is_fresh ↦ rw is_fresh (
                removed-Agrees (ok row.cache_value) _ m.1
                  (sym (ap found (fresh now row timed era is_fresh) ∙ found_row row)) left)
          ])

    module _ (delta ttl : ℤ) (era : InEra now ttl) where
      stored-Agrees :
          (m : Result Error ℤ × D) (z at : ℤ) (o : Option Entry) (total : Result Error ℤ)
          → Leaves sql cache rows tx_rows promise up m
              (ok z)
              (with_row k (a_row (format_int z) at) (tx_rows (opened k d)))
          → view k ≡ o
          → entry_of (some (a_row (format_int z) at))
            ≡ some (record { value = format_int z; deadline = renewed now ttl o })
          → IsTime at
          → total ≡ ok z
          → Agrees Valid held now m total (incremented now k ttl total view)
      unfolding incremented
      stored-Agrees m z at o total leaves seen same fits sum =
          rw (sum, seen)
            (put-Agrees sql cache rows tx_rows promise up now k d timely m (ok z) m.0 (ok z)
              (a_row (format_int z) at) _
              (
                leaves.0,
                λ j.
                    leaves.1 j
                    ∙ ap (λ o. if text_eq k j then some (a_row (format_int z) at) else o)
                        (tx_rows-opened k d j),
              )
              same fits leaves.0)

      failed-Agrees :
          (e : Error) (total : Result Error ℤ)
          → total ≡ err e
          → Agrees Valid held now
              (err e, sql.rollback (opened k d))
              total
              (incremented now k ttl total view)
      unfolding incremented
      failed-Agrees e total sum = rw sum (unchanged-Agrees (err e) _ view refl (λ j. refl))

      add_to-Agrees :
          (row : Row) (p : Parsed)
          → rows d k ≡ some row
          → view k ≡ entry_of (some row)
          → let total = added delta (number_of p) in
            Agrees Valid held now
              (add_to sql cache now k delta ttl row p (opened k d))
              total
              (incremented now k ttl total view)
      unfolding add_to added number_of
      add_to-Agrees row (parsed current) e seen =
          let z = wrap64 (current +ℤ delta) in
          let at = deadline_of now ttl row.expires_at in
          stored-Agrees _ z at _ _
            (update-Leaves sql cache rows tx_rows promise up k (format_int z) at z (opened k d) row
              (tx_rows-opened k d k ∙ e))
            seen (entry_of-renewed now (format_int z) row.cache_value ttl row.expires_at era)
            (deadline_of-IsTime now ttl row.expires_at era (subst HasTime e (timely k))) refl
      add_to-Agrees row bad_syntax e seen = failed-Agrees number_syntax _ refl
      add_to-Agrees row (out_of_range z) e seen = failed-Agrees number_range _ refl

      abbrev first_count : ℤ
      first_count = wrap64 (pos 0 +ℤ delta)

      abbrev first_deadline : ℤ
      first_deadline = deadline_of now ttl (pos 0)

      first_entry :
          entry_of (some (a_row (format_int first_count) first_deadline))
          ≡ some (record { value = format_int first_count; deadline = renewed now ttl none })
      unfolding renewed deadline_after
      first_entry = entry_of-set now (format_int first_count) ttl era

      first_total : (o : Option Entry) → o ≡ none → added delta (counted o) ≡ ok first_count
      unfolding added counted
      first_total o e = rw e

      -- The case of a key that the map does not hold.
      first-Agrees :
          (m : Result Error ℤ × D) (o : Option Row)
          → Leaves sql cache rows tx_rows promise up m
              (ok first_count)
              (with_row k (a_row (format_int first_count) first_deadline) (tx_rows (opened k d)))
          → rows d k ≡ o
          → live now (entry_of o) ≡ none
          → let total = added delta (counted (live now (entry_of o))) in
            Agrees Valid held now m total (incremented now k ttl total view)
      first-Agrees m o leaves e gone =
          stored-Agrees m first_count first_deadline none _ leaves
            (ap (λ o. live now (entry_of o)) e ∙ gone) first_entry
            (deadline_of-IsTime now ttl (pos 0) era (omega arith)) (first_total _ gone)

      no_entry : live now (entry_of none) ≡ none
      unfolding live entry_of
      no_entry = refl

      counted-Agrees :
          (o : Option Row)
          → rows d k ≡ o
          → let total = added delta (counted (live now (entry_of o))) in
            Agrees Valid held now
              (increment_row sql cache now k delta ttl (row_reply o) (opened k d))
              total
              (incremented now k ttl total view)
      unfolding increment_row add_new write_count
      counted-Agrees none e =
          first-Agrees _ none
            (insert-Leaves sql cache rows tx_rows promise up k (format_int first_count)
              first_deadline first_count (opened k d) (tx_rows-opened k d k ∙ e))
            e no_entry
      counted-Agrees (some row) e =
          let timed = subst HasTime e (timely k) in
          elim (Bool-cases (expired now row.expires_at)) [
            | inl is_over ↦ rw is_over (
                first-Agrees _ (some row)
                  (reinsert-Leaves sql cache rows tx_rows promise up k (format_int first_count)
                    first_deadline first_count (opened k d))
                  e (over now row timed (omega arith) is_over))
            | inr is_fresh ↦
                let seen = fresh now row timed (omega arith) is_fresh in
                rw (is_fresh, seen, counted_row row)
                  (add_to-Agrees row (parse_int row.cache_value) e
                    (ap (λ o. live now (entry_of o)) e ∙ seen))
          ]

    database-takes :
        now < half_range
        → Agrees Valid held now
            (take sql cache now k d)
            (found (live now (entry_of (rows d k))))
            (remove k view)
    unfolding take
    database-takes era =
        simp (up, start_locked k (take_row sql cache now k) d) (take_row-Agrees (rows d k) refl era)

    database-increments :
        (delta ttl : ℤ)
        → InEra now ttl
        → let total = added delta (counted (live now (entry_of (rows d k)))) in
          Agrees Valid held now
            (increment sql cache now k delta ttl d)
            total
            (incremented now k ttl total view)
    unfolding increment
    database-increments delta ttl era =
        simp (up, start_locked k (increment_row sql cache now k delta ttl) d)
          (counted-Agrees delta ttl era (rows d k) refl)

  -- Over a database that works as `Reliable` says, the store of cache/database.go implements the
  -- abstract map, from any table whose deadlines are zero or before the year 2262.
  pub database-Implements : Implements (database_cache sql cache) Valid held
  database-Implements = record {
    gets = λ now k d v era. database-gets sql cache rows tx_rows promise up now k d v era;
    sets =
        λ now k x ttl d v era. database-sets sql cache rows tx_rows promise up now k d v x ttl era;
    takes = λ now k d v era. database-takes now k d v era;
    existences =
        λ now k d v era. database-existences sql cache rows tx_rows promise up now k d v era;
    increments = λ now k delta ttl d v era. database-increments now k d v delta ttl era;
    ttls = λ now k d v era. database-ttls sql cache rows tx_rows promise up now k d v era;
    deletes = λ now k d v. database-deletes sql cache rows tx_rows promise up now k d v;
  }
