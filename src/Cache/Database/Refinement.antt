-- ===== src/Cache/Database/Refinement.antt =====
-- Over a working database, the reads of cache/database.go are those of the abstract map.
use chobits.Prelude.{
  ℕ, ◌<◌, ◌≡◌, refl, sym, ◌∙◌, ap, subst, true, Bool-cases, Option, none, some, Bytes, ok, err, inl,
  inr, if◌then◌else◌,
}
use chobits.Int64.{pos, is_positive, half_range}
use chobits.Text.{text_eq}
use chobits.Cache.{miss, is_miss}
use chobits.Cache.Memory.{existence}
use chobits.Cache.Spec.{Entry, View, live, remove, found, remaining, is_held, Agrees}
use chobits.Cache.Database.Sql.{Sql, Row}
use chobits.Cache.Database.Reliable.{Reliable, row_reply, expiry_reply, without}
use chobits.Cache.Database.Rows.{
  entry_of, HasTime, over, fresh, shows_same, shows_removed, shows_dropped, HasTime-same,
  HasTime-without, remaining_zero, remaining_left, gone_left,
}
use chobits.Cache.Database.{
  Database, expired, got, get, exists, ttl, ttl_row, drop, left_of, is_zero,
}

pub found_missing : (now : ℕ) → found (live now (entry_of none)) ≡ err miss
unfolding found live entry_of
found_missing now = refl

pub found-none : found none ≡ err miss
unfolding found
found-none = refl

pub found_row : (row : Row) → found (entry_of (some row)) ≡ ok row.cache_value
unfolding found entry_of
found_row row = refl

remaining_missing : (now : ℕ) → remaining now (live now (entry_of none)) ≡ err miss
unfolding remaining live entry_of
remaining_missing now = refl

remaining-none : (now : ℕ) → remaining now none ≡ err miss
unfolding remaining
remaining-none now = refl

-- Exists asks whether Get found something.
existence-found : (o : Option Entry) → existence (found o) ≡ ok (is_held o)
unfolding existence found is_held is_miss
existence-found none = refl
existence-found (some e) = refl

module _ {D : Type 0} (sql : Sql D) (cache : Database) (rows tx_rows : D → Bytes → Option Row)
    (promise : Reliable sql cache.driver cache.table rows tx_rows)
    (up : cache.connected ≡ true) where
  -- Every deadline in the table is one that fits.
  abbrev pub IsTimely : D → Type 0
  IsTimely d = (j : Bytes) → HasTime (rows d j)

  abbrev pub entries : D → View
  entries d j = entry_of (rows d j)

  drop_works : (k : Bytes) (d : D) → (drop sql cache k d).0 ≡ none
  unfolding drop
  drop_works k d = simp up (promise.delete_works k d)

  rows-drop : (k : Bytes) (d : D) (j : Bytes) → rows (drop sql cache k d).1 j ≡ without k (rows d) j
  unfolding drop
  rows-drop k d j = simp up (promise.delete_rows k d j)

  module _ (now : ℕ) (k : Bytes) (d d' : D) (same : (j : Bytes) → rows d' j ≡ rows d j)
      (timely : IsTimely d) (era : now < half_range) where
    -- The world `d'` that a read of `d` left, kept or with a row dropped that is over.
    kept :
        {A : Type 0} (r r' : A)
        → r ≡ r'
        → Agrees IsTimely entries now (r, d') r' (λ j. live now (entries d j))
    kept r r' e = record {
      replies = e;
      shows = λ j t le. shows_same now t le k j (rows d) (rows d') (same j);
      valid = λ j. HasTime-same k j (rows d) (rows d') (timely j) (same j);
    }

    dropped_rows : (j : Bytes) → rows (drop sql cache k d').1 j ≡ without k (rows d) j
    dropped_rows j = rows-drop k d' j ∙ ap (λ o. if text_eq k j then none else o) (same j)

    dropped :
        {A : Type 0} (r r' : A)
        → r ≡ r'
        → live now (entries d k) ≡ none
        → Agrees IsTimely entries now (r, (drop sql cache k d').1) r' (λ j. live now (entries d j))
    dropped r r' e gone = record {
      replies = e;
      shows = λ j t le.
          shows_dropped now t le k j (rows d) (rows (drop sql cache k d').1) (dropped_rows j) gone;
      valid = λ j.
          HasTime-without k j (rows d) (rows (drop sql cache k d').1) (timely j) (dropped_rows j);
    }

    got-Agrees :
        (o : Option Row)
        → rows d k ≡ o
        → Agrees IsTimely entries now
            (got sql cache now k (row_reply o) d')
            (found (live now (entry_of o)))
            (λ j. live now (entries d j))
    unfolding got
    got-Agrees none e = kept (err miss) _ (sym (found_missing now))
    got-Agrees (some row) e = elim (Bool-cases (expired now row.expires_at)) [
      | inl is_over ↦
          let gone = over now row (subst HasTime e (timely k)) era is_over in
          rw is_over (
            dropped (err miss) _ (sym (ap found gone ∙ found-none))
              (ap (λ o. live now (entry_of o)) e ∙ gone))
      | inr is_fresh ↦ rw is_fresh (
          kept (ok row.cache_value) _ (
            sym
              (ap found (fresh now row (subst HasTime e (timely k)) era is_fresh) ∙ found_row row)))
    ]

    ttl_row-Agrees :
        (o : Option Row)
        → rows d k ≡ o
        → Agrees IsTimely entries now
            (ttl_row sql cache now k (expiry_reply o) d')
            (remaining now (live now (entry_of o)))
            (λ j. live now (entries d j))
    unfolding ttl_row
    ttl_row-Agrees none e = kept (err miss) _ (sym (remaining_missing now))
    ttl_row-Agrees (some row) e =
        let timed = subst HasTime e (timely k) in
        let x = row.cache_value in
        let z = row.expires_at in
        elim (Bool-cases (is_zero z)) [
          | inl zero_column ↦
              rw zero_column
                (kept (ok (pos 0)) _ (sym (remaining_zero now x era z timed zero_column)))
          | inr set_column ↦ rw set_column (elim (Bool-cases (is_positive (left_of now z))) [
            | inl positive ↦ rw positive (
                kept (ok (left_of now z)) _
                  (sym (remaining_left now x era z timed set_column positive)))
            | inr negative ↦
                let gone = gone_left now x era z timed set_column negative in
                rw negative (
                  dropped (err miss) _ (sym (ap (remaining now) gone ∙ remaining-none now))
                    (ap (λ o. live now (entry_of o)) e ∙ gone))
          ])
        ]

  module _ (now : ℕ) (k : Bytes) (d : D) (timely : IsTimely d) (era : now < half_range) where
    pub database-gets :
        Agrees IsTimely entries now
          (get sql cache now k d)
          (found (live now (entries d k)))
          (λ j. live now (entries d j))
    unfolding get
    database-gets =
        simp (up, promise.query_replies)
          (got-Agrees now k d _ (promise.query_keeps k d) timely era (rows d k) refl)

    pub database-ttls :
        Agrees IsTimely entries now
          (ttl sql cache now k d)
          (remaining now (live now (entries d k)))
          (λ j. live now (entries d j))
    unfolding ttl
    database-ttls =
        simp (up, promise.expiry_replies)
          (ttl_row-Agrees now k d _ (promise.expiry_keeps k d) timely era (rows d k) refl)

    pub database-existences :
        Agrees IsTimely entries now
          (exists sql cache now k d)
          (ok (is_held (live now (entries d k))))
          (λ j. live now (entries d j))
    unfolding exists
    database-existences = record {
      replies = ap existence database-gets.replies ∙ existence-found (live now (entries d k));
      shows = database-gets.shows;
      valid = database-gets.valid;
    }

  pub database-deletes :
      (now : ℕ) (k : Bytes) (d : D)
      → IsTimely d
      → Agrees IsTimely entries now
          (drop sql cache k d)
          none
          (remove k (λ j. live now (entries d j)))
  database-deletes now k d timely = record {
    replies = drop_works k d;
    shows = λ j t le.
        shows_removed now t le k j (rows d) (rows (drop sql cache k d).1) (rows-drop k d j);
    valid = λ j.
        HasTime-without k j (rows d) (rows (drop sql cache k d).1) (timely j) (rows-drop k d j);
  }
