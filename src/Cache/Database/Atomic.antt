-- ===== src/Cache/Database/Atomic.antt =====
-- A call that fails in a transaction changes no row, wherever it fails.
use chobits.Prelude.{
  ℕ, ◌≡◌, ◌∙◌, Bool, true, false, Bool-cases, Option-cases, some, List, Bytes, Result, ok, err, inl,
  inr, arith,
}
use chobits.Int64.{ℤ}
use chobits.Int64.Decimal.{Parsed, parsed, bad_syntax, out_of_range}
use chobits.Cache.{Error, Err, Exec}
use chobits.Cache.Database.Sql.{Sql, Row, Arg, ScanError, no_rows, broken}
use chobits.Cache.Database.{
  Database, start, then_in_tx, finish, replace_row, set, increment, increment_row, add_to, add_new,
  write_count, locked_row, delete_in_tx, insert_in_tx, update_in_tx, error_of, expired,
}

-- What a database promises of a transaction, also when statements fail: until a commit succeeds
-- the committed rows stand, and so they do after a rollback.
pub record Transactional {D R : Type 0} (sql : Sql D) (rows : D → R) : Type 0 where
  pub begins : (d : D) → rows (sql.begin_tx d).1 ≡ rows d
  pub reads : (q k : Bytes) (d : D) → rows (sql.tx_query_row q k d).1 ≡ rows d
  pub executes : (q : Bytes) (args : List Arg) (d : D) → rows (sql.tx_exec q args d).1 ≡ rows d
  pub rolls_back : (d : D) → rows (sql.rollback d) ≡ rows d
  pub refuses : (e : Error) (d : D) → (sql.commit d).0 ≡ some e → rows (sql.commit d).1 ≡ rows d

-- If the call fails, the rows are as before.
record IsAtomic {D R A : Type 0} (rows : D → R) (m : Exec D A) : Type 0 where
  at : (d : D) (e : Error) → (m d).0 ≡ err e → rows (m d).1 ≡ rows d

module _ {D R : Type 0} (sql : Sql D) (cache : Database) (rows : D → R)
    (promise : Transactional sql rows) where
  finish-IsAtomic : {A : Type 0} (a : A) → IsAtomic rows (finish sql cache a)
  unfolding finish
  finish-IsAtomic a = record { at = λ d e h. ground (arith, promise.refuses e d) }

  then_in_tx-IsAtomic :
      {A : Type 0} (step : D → Err × D) (next : Exec D A)
      → ((d : D) → rows (step d).1 ≡ rows d)
      → IsAtomic rows next
      → IsAtomic rows (then_in_tx sql cache step next)
  unfolding then_in_tx
  then_in_tx-IsAtomic step next keeps atomic = record {
    at = λ d e h. elim (Option-cases (step d).0) [
      | inl fine ↦
          rw (fine, then_in_tx) (atomic.at (step d).1 e (rw (fine, then_in_tx) at h) ∙ keeps d)
      | inr (x, broke) ↦ rw (broke, then_in_tx) (promise.rolls_back (step d).1 ∙ keeps d)
    ];
  }

  start-IsAtomic :
      {A : Type 0} (next : Exec D A) → IsAtomic rows next → IsAtomic rows (start sql cache next)
  unfolding start
  start-IsAtomic next atomic = record {
    at = λ d e h. elim (Option-cases (sql.begin_tx d).0) [
      | inl fine ↦
          rw (fine, start)
            (atomic.at (sql.begin_tx d).1 e (rw (fine, start) at h) ∙ promise.begins d)
      | inr (x, broke) ↦ rw (broke, start) (promise.begins d)
    ];
  }

  delete_in_tx_keeps : (k : Bytes) (d : D) → rows (delete_in_tx sql cache k d).1 ≡ rows d
  unfolding delete_in_tx
  delete_in_tx_keeps k d = promise.executes _ _ d

  insert_in_tx_keeps :
      (k x : Bytes) (at : ℤ) (d : D) → rows (insert_in_tx sql cache k x at d).1 ≡ rows d
  unfolding insert_in_tx
  insert_in_tx_keeps k x at d = promise.executes _ _ d

  update_in_tx_keeps :
      (k x : Bytes) (at : ℤ) (d : D) → rows (update_in_tx sql cache k x at d).1 ≡ rows d
  unfolding update_in_tx
  update_in_tx_keeps k x at d = promise.executes _ _ d

  write_count-IsAtomic :
      (there : Bool) (k : Bytes) (next at : ℤ)
      → IsAtomic rows (write_count sql cache there k next at)
  unfolding write_count
  write_count-IsAtomic true k next at =
      then_in_tx-IsAtomic _ _ (update_in_tx_keeps k _ at) (finish-IsAtomic next)
  write_count-IsAtomic false k next at =
      then_in_tx-IsAtomic _ _ (insert_in_tx_keeps k _ at) (finish-IsAtomic next)

  add_to-IsAtomic :
      (now : ℕ) (k : Bytes) (delta ttl : ℤ) (row : Row) (p : Parsed)
      → IsAtomic rows (add_to sql cache now k delta ttl row p)
  unfolding add_to
  add_to-IsAtomic now k delta ttl row (parsed z) = record {
    at = (write_count-IsAtomic true k _ _).at;
  }
  add_to-IsAtomic now k delta ttl row bad_syntax = record { at = λ d e h. promise.rolls_back d }
  add_to-IsAtomic now k delta ttl row (out_of_range z) = record {
    at = λ d e h. promise.rolls_back d;
  }

  add_new-IsAtomic :
      (now : ℕ) (k : Bytes) (delta ttl : ℤ) → IsAtomic rows (add_new sql cache now k delta ttl)
  unfolding add_new
  add_new-IsAtomic now k delta ttl = record { at = (write_count-IsAtomic false k _ _).at }

  increment_row-IsAtomic :
      (now : ℕ) (k : Bytes) (delta ttl : ℤ) (r : Result ScanError Row)
      → IsAtomic rows (increment_row sql cache now k delta ttl r)
  unfolding increment_row
  increment_row-IsAtomic now k delta ttl (err no_rows) = record {
    at = (add_new-IsAtomic now k delta ttl).at;
  }
  increment_row-IsAtomic now k delta ttl (err (broken x)) = record {
    at = λ d e h. promise.rolls_back d;
  }
  increment_row-IsAtomic now k delta ttl (ok row) = record {
    at = λ d e h. elim (Bool-cases (expired now row.expires_at)) [
      | inl over ↦ rw over (
          (then_in_tx-IsAtomic (delete_in_tx sql cache k) _ (delete_in_tx_keeps k)
              (add_new-IsAtomic now k delta ttl)).at
            d e (rw over at h))
      | inr live ↦ rw live ((add_to-IsAtomic now k delta ttl row _).at d e (rw live at h))
    ];
  }

  locked-IsAtomic :
      {A : Type 0} (k : Bytes) (next : Result ScanError Row → Exec D A)
      → ((r : Result ScanError Row) → IsAtomic rows (next r))
      → IsAtomic rows (λ d. let (row, d') = locked_row sql cache k d in next row d')
  unfolding locked_row
  locked-IsAtomic k next atomic = record { at = λ d e h. (atomic _).at _ e h ∙ promise.reads _ k d }

  -- An Increment that replies an error has changed no row, whichever statement failed.
  pub increment_atomic :
      (now : ℕ) (k : Bytes) (delta ttl : ℤ) (d : D) (e : Error)
      → (increment sql cache now k delta ttl d).0 ≡ err e
      → rows (increment sql cache now k delta ttl d).1 ≡ rows d
  unfolding increment
  increment_atomic now k delta ttl d e h = elim (Bool-cases cache.connected) [
    | inl up ↦ simp up (
        (start-IsAtomic _ (locked-IsAtomic k _ (increment_row-IsAtomic now k delta ttl))).at d e
          (simp up at h))
    | inr down ↦ simp down
  ]

  replace_row-IsAtomic : (k x : Bytes) (at : ℤ) → IsAtomic rows (replace_row sql cache k x at)
  unfolding replace_row
  replace_row-IsAtomic k x at = start-IsAtomic _ (
      then_in_tx-IsAtomic (delete_in_tx sql cache k) _ (delete_in_tx_keeps k) (
        then_in_tx-IsAtomic (insert_in_tx sql cache k x at) _ (insert_in_tx_keeps k x at)
          (finish-IsAtomic tt)))

  error_of-err : (r : Result Error (Unit {0})) (e : Error) → error_of r ≡ some e → r ≡ err e
  unfolding error_of
  error_of-err (ok u) e h = cc
  error_of-err (err x) e h = ground arith

  -- A Set that replies an error has changed no row.
  pub set_unchanged :
      (now : ℕ) (k x : Bytes) (ttl : ℤ) (d : D) (e : Error)
      → (set sql cache now k x ttl d).0 ≡ some e
      → rows (set sql cache now k x ttl d).1 ≡ rows d
  unfolding set
  set_unchanged now k x ttl d e h = elim (Bool-cases cache.connected) [
    | inl up ↦ simp up ((replace_row-IsAtomic k x _).at d e (error_of-err _ e (simp up at h)))
    | inr down ↦ simp down
  ]
