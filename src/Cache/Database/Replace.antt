-- ===== src/Cache/Database/Replace.antt =====
-- A Set of the SQL store either changes nothing or puts the value in place, also when statements fail.
use chobits.Prelude.{
  ℕ, ◌+◌, ◌≡◌, refl, ap, ◌∙◌, true, Bool-cases, Option, none, some, [], ◌∷◌, Bytes, Result, ok, err,
  inl, inr, arith, if◌then◌else◌,
}
use chobits.Int64.{ℤ, pos, is_positive, pos_part, wrap64}
use chobits.Text.{text_eq}
use chobits.Cache.{Error, Err, Exec, database_unset}
use chobits.Cache.Database.Sql.{Sql, Row, text, blob, bigint, delete_query, insert_query}
use chobits.Cache.Database.Reliable.{without, with_row, a_row}
use chobits.Cache.Database.Atomic.{Transactional, set_unchanged}
use chobits.Cache.Database.{
  Database, start, then_in_tx, finish, replace_row, set, delete_in_tx, insert_in_tx, error_of,
  deadline_of,
}

-- What a database promises of the statements of a Set, each of which may fail: one that does not
-- has its effect on what the transaction sees, and a commit that does not makes that the rows.
pub record Effective {D : Type 0} (sql : Sql D) (table : Bytes)
    (rows tx_rows : D → Bytes → Option Row) : Type 0 where
  pub begun : (d : D) → (sql.begin_tx d).0 ≡ none → tx_rows (sql.begin_tx d).1 ≡ rows d
  pub deletes :
      (k : Bytes) (d : D)
      → (sql.tx_exec (delete_query table) (text k ∷ []) d).0 ≡ none
      → (j : Bytes)
      → tx_rows (sql.tx_exec (delete_query table) (text k ∷ []) d).1 j ≡ without k (tx_rows d) j
  pub inserts :
      (k x : Bytes) (at : ℤ) (d : D)
      → (sql.tx_exec (insert_query table) (text k ∷ blob x ∷ bigint at ∷ []) d).0 ≡ none
      → (j : Bytes)
      → tx_rows (sql.tx_exec (insert_query table) (text k ∷ blob x ∷ bigint at ∷ []) d).1 j
        ≡ with_row k (a_row x at) (tx_rows d) j
  pub commits : (d : D) → (sql.commit d).0 ≡ none → rows (sql.commit d).1 ≡ tx_rows d

-- A row put where the key's was deleted.
over_deleted :
    (k : Bytes) (row : Row) (j : Bytes) (r s t : Option Row)
    → r ≡ (if text_eq k j then none else s)
    → s ≡ t
    → (if text_eq k j then some row else r) ≡ (if text_eq k j then some row else t)
over_deleted k row j r s t h e = ground (arith, h, e)

-- What a Set may do to the rows: with an error nothing, and without one it puts the row in place of
-- the one that the key had.
unfoldable pub Replaces :
    {D : Type 0} → (D → Bytes → Option Row) → Bytes → Row → (Bytes → Option Row) → Err × D → Type 0
Replaces rows k row before (some e, d) = (j : Bytes) → rows d j ≡ before j
Replaces rows k row before (none, d) =
    (j : Bytes) → rows d j ≡ (if text_eq k j then some row else before j)

module _ {D : Type 0} (sql : Sql D) (cache : Database) (rows tx_rows : D → Bytes → Option Row)
    (promise : Transactional sql rows) (effective : Effective sql cache.table rows tx_rows) where
  -- The rows after a Set that replies no error, step by step.
  unfoldable Done : Bytes → Row → (Bytes → Option Row) → Result Error (Unit {0}) × D → Type 0
  Done k row before (ok u, d) = (j : Bytes) → rows d j ≡ with_row k row before j
  Done k row before (err e, d) = true ≡ true

  finish-Done :
      (k : Bytes) (row : Row) (before : Bytes → Option Row) (d : D)
      → ((j : Bytes) → tx_rows d j ≡ with_row k row before j)
      → Done k row before (finish sql cache tt d)
  unfolding finish Done
  finish-Done k row before d h =
      elim (sql.commit d).0
          as (λ e.
            (sql.commit d).0 ≡ e
            → Done k row before (elim e [
              | none ↦ (ok tt, (sql.commit d).1)
              | some x ↦ (err x, (sql.commit d).1)
            ])) [
              | none ↦ λ fine j. ap (λ f. f j) (effective.commits d fine) ∙ h j
              | some x ↦ λ broke. refl
            ]
        refl

  then_in_tx-Done :
      (k : Bytes) (row : Row) (before : Bytes → Option Row) (step : D → Err × D)
      (next : Exec D (Unit {0})) (d : D)
      → ((step d).0 ≡ none → Done k row before (next (step d).1))
      → Done k row before (then_in_tx sql cache step next d)
  unfolding then_in_tx Done
  then_in_tx-Done k row before step next d h =
      elim (step d).0
          as (λ e.
            (step d).0 ≡ e
            → Done k row before
                (elim e [ none ↦ next (step d).1 | some x ↦ (err x, sql.rollback (step d).1) ])) [
                  | none ↦ h
                  | some x ↦ λ broke. refl
                ]
        refl

  after_begin-Done :
      (k x : Bytes) (at : ℤ) (before : Bytes → Option Row) (d : D)
      → tx_rows d ≡ before
      → Done k (a_row x at) before (
          then_in_tx sql cache
            (delete_in_tx sql cache k)
            (then_in_tx sql cache (insert_in_tx sql cache k x at) (finish sql cache tt))
            d)
  unfolding delete_in_tx insert_in_tx
  after_begin-Done k x at before d same =
      let row = a_row x at in
      then_in_tx-Done k row before (delete_in_tx sql cache k)
        (then_in_tx sql cache (insert_in_tx sql cache k x at) (finish sql cache tt)) d
        (λ deleted.
          let d1 = (delete_in_tx sql cache k d).1 in
          then_in_tx-Done k row before (insert_in_tx sql cache k x at) (finish sql cache tt) d1
            (λ inserted. finish-Done k row before (insert_in_tx sql cache k x at d1).1 (λ j.
              effective.inserts k x at d1 inserted j
              ∙ over_deleted k row j (tx_rows d1 j) (tx_rows d j) (before j)
                  (effective.deletes k d deleted j) (ap (λ f. f j) same))))

  replace_row-Done :
      (k x : Bytes) (at : ℤ) (d : D) → Done k (a_row x at) (rows d) (replace_row sql cache k x at d)
  unfolding replace_row start Done
  replace_row-Done k x at d =
      elim (sql.begin_tx d).0
          as (λ e.
            (sql.begin_tx d).0 ≡ e
            → Done k (a_row x at) (rows d) (elim e [
              | none ↦
                  then_in_tx sql cache (delete_in_tx sql cache k)
                    (then_in_tx sql cache (insert_in_tx sql cache k x at) (finish sql cache tt))
                    (sql.begin_tx d).1
              | some y ↦ (err y, (sql.begin_tx d).1)
            ])) [
              | none ↦ λ fine.
                  after_begin-Done k x at (rows d) (sql.begin_tx d).1 (effective.begun d fine)
              | some y ↦ λ broke. refl
            ]
        refl

  Done-row :
      (k : Bytes) (row : Row) (before : Bytes → Option Row) (r : Result Error (Unit {0}) × D)
      → Done k row before r
      → error_of r.0 ≡ none
      → (j : Bytes) → rows r.1 j ≡ with_row k row before j
  unfolding Done error_of
  Done-row k row before (ok u, d) h fine = h
  Done-row k row before (err e, d) h fine = λ j. cc

  unset_done : (e : Error) (r s : Option Row) → some e ≡ none → r ≡ s
  unset_done e r s h = cc

  set_done :
      (now : ℕ) (k x : Bytes) (ttl : ℤ) (d : D)
      → (set sql cache now k x ttl d).0 ≡ none
      → (j : Bytes)
      → rows (set sql cache now k x ttl d).1 j
        ≡ with_row k (a_row x (deadline_of now ttl (pos 0))) (rows d) j
  unfolding set error_of Done
  set_done now k x ttl d fine = elim (Bool-cases cache.connected) [
    | inl up ↦ λ j.
        let at = deadline_of now ttl (pos 0) in
        simp up (
          Done-row k (a_row x at) (rows d) (replace_row sql cache k x at d)
            (replace_row-Done k x at d) (simp up at fine) j)
    | inr down ↦ λ j. unset_done database_unset _ _ (simp down at fine)
  ]

  -- Over a database whose transactions work as `Transactional` and `Effective` say, where each
  -- statement may fail: a Set that replies an error has changed no row. A Set that replies none has
  -- put the value in place of what the key had, with the deadline that its time to live makes, in an
  -- int64 of nanoseconds, or none if that is not positive, and changed no other row.
  pub set_atomic :
      (now : ℕ) (k x : Bytes) (ttl : ℤ) (d : D)
      → Replaces rows k
          (a_row x (if is_positive ttl then wrap64 (pos (now + pos_part ttl)) else pos 0))
          (rows d)
          (set sql cache now k x ttl d)
  unfolding set Replaces deadline_of
  set_atomic now k x ttl d =
      elim (set sql cache now k x ttl d).0
          as (λ e.
            (set sql cache now k x ttl d).0 ≡ e
            → Replaces rows k
                (a_row x (if is_positive ttl then wrap64 (pos (now + pos_part ttl)) else pos 0))
                (rows d) (e, (set sql cache now k x ttl d).1)) [
                  | none ↦ λ fine. set_done now k x ttl d fine
                  | some e ↦ λ broke j.
                      ap (λ f. f j) (set_unchanged sql cache rows promise now k x ttl d e broke)
                ]
        refl
