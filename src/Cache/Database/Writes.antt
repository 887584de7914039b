-- ===== src/Cache/Database/Writes.antt =====
-- Over a working database, the writes of cache/database.go are those of the abstract map.
use chobits.Prelude.{
  ℕ, ◌≡◌, refl, ◌∙◌, ap, true, Bool-cases, Option, none, some, Bytes, Result, ok, inl, inr, arith,
  if◌then◌else◌,
}
use chobits.Int64.{ℤ, pos}
use chobits.Text.{text_eq, text_eq_refl}
use chobits.Cache.{Error, Err, Exec}
use chobits.Cache.Spec.{Entry, View, live, put, deadline_after, InEra, Agrees}
use chobits.Cache.Database.Sql.{Sql, Row}
use chobits.Cache.Database.Reliable.{Reliable, without, with_row, a_row}
use chobits.Cache.Database.Rows.{
  entry_of, IsTime, shows_put, HasTime-with_row, entry_of-set, deadline_of-IsTime,
}
use chobits.Cache.Database.Refinement.{IsTimely, entries}
use chobits.Cache.Database.{
  Database, deadline_of, error_of, start, then_in_tx, finish, delete_in_tx, insert_in_tx,
  update_in_tx, replace_row, set,
}

error_of-ok : {r : Result Error (Unit {0})} → r ≡ ok tt → error_of r ≡ none
unfolding error_of
error_of-ok e = ap error_of e

module _ {D : Type 0} (sql : Sql D) (cache : Database) where
  pub start_ok :
      {A : Type 0} (next : Exec D A) (d : D)
      → (sql.begin_tx d).0 ≡ none
      → start sql cache next d ≡ next (sql.begin_tx d).1
  unfolding start
  start_ok next d e = rw (e, start)

  then_in_tx_ok :
      {A : Type 0} (step : D → Err × D) (next : Exec D A) (d : D)
      → (step d).0 ≡ none
      → then_in_tx sql cache step next d ≡ next (step d).1
  unfolding then_in_tx
  then_in_tx_ok step next d e = rw (e, then_in_tx)

  finish_ok :
      {A : Type 0} (a : A) (d : D)
      → (sql.commit d).0 ≡ none
      → finish sql cache a d ≡ (ok a, (sql.commit d).1)
  unfolding finish
  finish_ok a d e = rw (e, finish)

module _ {D : Type 0} (sql : Sql D) (cache : Database) (rows tx_rows : D → Bytes → Option Row)
    (promise : Reliable sql cache.driver cache.table rows tx_rows)
    (up : cache.connected ≡ true) where
  -- The statements inside a transaction, as this file uses them.
  delete_rows :
      (k : Bytes) (d : D)
      → ((delete_in_tx sql cache k d).0 ≡ none)
        × ((j : Bytes) → tx_rows (delete_in_tx sql cache k d).1 j ≡ without k (tx_rows d) j)
  unfolding delete_in_tx
  delete_rows k d = (promise.tx_delete_works k d, promise.tx_delete_rows k d)

  insert_rows :
      (k x : Bytes) (at : ℤ) (d : D)
      → tx_rows d k ≡ none
      → ((insert_in_tx sql cache k x at d).0 ≡ none)
        × ((j : Bytes)
            → tx_rows (insert_in_tx sql cache k x at d).1 j ≡ with_row k (a_row x at) (tx_rows d) j)
  unfolding insert_in_tx
  insert_rows k x at d free =
      (promise.tx_insert_works k x at d free, promise.tx_insert_rows k x at d free)

  update_rows :
      (k x : Bytes) (at : ℤ) (row : Row) (d : D)
      → tx_rows d k ≡ some row
      → ((update_in_tx sql cache k x at d).0 ≡ none)
        × ((j : Bytes)
            → tx_rows (update_in_tx sql cache k x at d).1 j ≡ with_row k (a_row x at) (tx_rows d) j)
  unfolding update_in_tx
  update_rows k x at row d there =
      (promise.tx_update_works k x at d, promise.tx_update_rows k x at row d there)

  -- What a transaction leaves: it has replied `r`, and what is committed is `rows'`.
  abbrev pub Leaves :
      {A : Type 0} → Result Error A × D → Result Error A → (Bytes → Option Row) → Type 0
  Leaves m r rows' = (m.0 ≡ r) × ((j : Bytes) → rows m.1 j ≡ rows' j)

  finish-Leaves : {A : Type 0} (a : A) (d : D) → Leaves (finish sql cache a d) (ok a) (tx_rows d)
  finish-Leaves a d =
      rw (finish_ok sql cache a d (promise.commit_works d)) (refl, promise.commit_rows d)

  then-Leaves :
      {A : Type 0} (step : D → Err × D) (next : Exec D A) (d : D) (r : Result Error A)
      (rows' : Bytes → Option Row)
      → (step d).0 ≡ none
      → Leaves (next (step d).1) r rows'
      → Leaves (then_in_tx sql cache step next d) r rows'
  then-Leaves step next d r rows' e leaves = rw (then_in_tx_ok sql cache step next d e) leaves

  without_self : (k : Bytes) (old : Bytes → Option Row) → without k old k ≡ none
  without_self k old = rw (text_eq_refl k)

  with_row_cong :
      (k j : Bytes) (row : Row) (o o' : Option Row)
      → o ≡ (if text_eq k j then none else o')
      → (if text_eq k j then some row else o) ≡ (if text_eq k j then some row else o')
  with_row_cong k j row o o' same = elim (Bool-cases (text_eq k j)) [
    | inl e ↦ rw e
    | inr e ↦ rw e (rw e at same)
  ]

  module _ {A : Type 0} (k x : Bytes) (at : ℤ) (a : A) (d : D) where
    pub insert-Leaves :
        tx_rows d k ≡ none
        → Leaves
            (then_in_tx sql cache (insert_in_tx sql cache k x at) (finish sql cache a) d)
            (ok a)
            (with_row k (a_row x at) (tx_rows d))
    insert-Leaves free =
        let (works, new) = insert_rows k x at d free in
        let (reply, left) = finish-Leaves a (insert_in_tx sql cache k x at d).1 in
        then-Leaves _ _ d _ _ works (reply, λ j. left j ∙ new j)

    pub update-Leaves :
        (row : Row)
        → tx_rows d k ≡ some row
        → Leaves
            (then_in_tx sql cache (update_in_tx sql cache k x at) (finish sql cache a) d)
            (ok a)
            (with_row k (a_row x at) (tx_rows d))
    update-Leaves row there =
        let (works, new) = update_rows k x at row d there in
        let (reply, left) = finish-Leaves a (update_in_tx sql cache k x at d).1 in
        then-Leaves _ _ d _ _ works (reply, λ j. left j ∙ new j)

    pub delete-Leaves :
        Leaves
          (then_in_tx sql cache (delete_in_tx sql cache k) (finish sql cache a) d)
          (ok a)
          (without k (tx_rows d))
    delete-Leaves =
        let (works, new) = delete_rows k d in
        let (reply, left) = finish-Leaves a (delete_in_tx sql cache k d).1 in
        then-Leaves _ _ d _ _ works (reply, λ j. left j ∙ new j)

  -- A delete and then an insert put a row in the place of another.
  pub reinsert-Leaves :
      {A : Type 0} (k x : Bytes) (at : ℤ) (a : A) (d : D)
      → Leaves
          (then_in_tx sql cache
            (delete_in_tx sql cache k)
            (then_in_tx sql cache (insert_in_tx sql cache k x at) (finish sql cache a))
            d)
          (ok a)
          (with_row k (a_row x at) (tx_rows d))
  reinsert-Leaves k x at a d =
      let (works, new) = delete_rows k d in
      let d' = (delete_in_tx sql cache k d).1 in
      let (reply, left) = insert-Leaves k x at a d' (new k ∙ without_self k (tx_rows d)) in
      then-Leaves _ _ d _ _ works
        (reply, λ j. left j ∙ with_row_cong k j (a_row x at) (tx_rows d' j) (tx_rows d j) (new j))

  pub replace_row-Leaves :
      (k x : Bytes) (at : ℤ) (d : D)
      → Leaves (replace_row sql cache k x at d) (ok tt) (with_row k (a_row x at) (rows d))
  unfolding replace_row
  replace_row-Leaves k x at d =
      let d' = (sql.begin_tx d).1 in
      let (reply, left) = reinsert-Leaves k x at tt d' in
      rw (start_ok sql cache _ d (promise.begin_works d)) (
        reply,
        λ j.
            left j
            ∙ ap (λ o. if text_eq k j then some (a_row x at) else o) (promise.begin_tx_rows d j),
      )

  module _ (now : ℕ) (k : Bytes) (d : D)
      (timely : IsTimely sql cache rows tx_rows promise up d) where
    abbrev pub Valid : D → Type 0
    Valid = IsTimely sql cache rows tx_rows promise up

    abbrev pub held : D → View
    held = entries sql cache rows tx_rows promise up

    -- A call that left a row in the place of what was at `k`.
    pub put-Agrees :
        {A B : Type 0} (m : Result Error A × D) (r : Result Error A) (b b' : B) (row : Row)
        (e : Entry)
        → Leaves m r (with_row k row (rows d))
        → entry_of (some row) ≡ some e
        → IsTime row.expires_at
        → b ≡ b'
        → Agrees Valid held now (b, m.1) b' (put k e (λ j. live now (held d j)))
    put-Agrees m r b b' row e leaves same fits reply = record {
      replies = reply;
      shows = λ j t le. shows_put now t le k j (rows d) (rows m.1) row e (leaves.1 j) same;
      valid = λ j. HasTime-with_row k j (rows d) (rows m.1) (timely j) row fits (leaves.1 j);
    }

    pub database-sets :
        (x : Bytes) (ttl : ℤ)
        → InEra now ttl
        → Agrees Valid held now (set sql cache now k x ttl d) none (
            put k
              (record { value = x; deadline = deadline_after now ttl })
              (λ j. live now (held d j)))
    unfolding set
    database-sets x ttl era =
        let at = deadline_of now ttl (pos 0) in
        let leaves = replace_row-Leaves k x at d in
        simp up (
          put-Agrees _ (ok tt) _ none (a_row x at) _ leaves (entry_of-set now x ttl era)
            (deadline_of-IsTime now ttl (pos 0) era (omega arith)) (error_of-ok leaves.0))
