-- ===== src/Cache/Database/Reliable.antt =====
-- What a working database does with the statements of cache/database.go, as named hypotheses on
-- the parameter `Sql`: documented behaviour of SQL on a table whose primary key is `cache_key`.
-- `rows` is what is committed, and `tx_rows` what the open transaction sees.
use chobits.Prelude.{◌≡◌, Option, none, some, [], ◌∷◌, Bytes, Result, ok, err, if◌then◌else◌}
use chobits.Int64.{ℤ}
use chobits.Text.{text_eq}
use chobits.Cache.Database.Sql.{
  Sql, Row, text, blob, bigint, ScanError, no_rows, select_query, expiry_query, delete_query,
  insert_query, update_query, locking_query,
}

abbrev pub row_reply : Option Row → Result ScanError Row
row_reply none = err no_rows
row_reply (some row) = ok row

abbrev pub expiry_reply : Option Row → Result ScanError ℤ
expiry_reply none = err no_rows
expiry_reply (some row) = ok row.expires_at

abbrev pub without : Bytes → (Bytes → Option Row) → Bytes → Option Row
without k rows j = if text_eq k j then none else rows j

abbrev pub with_row : Bytes → Row → (Bytes → Option Row) → Bytes → Option Row
with_row k row rows j = if text_eq k j then some row else rows j

abbrev pub a_row : Bytes → ℤ → Row
a_row x at = record { cache_value = x; expires_at = at }

pub record Reliable {D : Type 0} (sql : Sql D) (driver table : Bytes)
    (rows tx_rows : D → Bytes → Option Row) : Type 0 where
  pub query_replies :
      (k : Bytes) (d : D) → (sql.query_row (select_query table) k d).0 ≡ row_reply (rows d k)
  pub query_keeps :
      (k : Bytes) (d : D) (j : Bytes) → rows (sql.query_row (select_query table) k d).1 j ≡ rows d j
  pub expiry_replies :
      (k : Bytes) (d : D) → (sql.query_expiry (expiry_query table) k d).0 ≡ expiry_reply (rows d k)
  pub expiry_keeps :
      (k : Bytes) (d : D) (j : Bytes)
      → rows (sql.query_expiry (expiry_query table) k d).1 j ≡ rows d j
  pub delete_works : (k : Bytes) (d : D) → (sql.exec (delete_query table) (text k ∷ []) d).0 ≡ none
  pub delete_rows :
      (k : Bytes) (d : D) (j : Bytes)
      → rows (sql.exec (delete_query table) (text k ∷ []) d).1 j ≡ without k (rows d) j
  pub begin_works : (d : D) → (sql.begin_tx d).0 ≡ none
  pub begin_rows : (d : D) (j : Bytes) → rows (sql.begin_tx d).1 j ≡ rows d j
  pub begin_tx_rows : (d : D) (j : Bytes) → tx_rows (sql.begin_tx d).1 j ≡ rows d j
  pub lock_replies :
      (k : Bytes) (d : D)
      → (sql.tx_query_row (locking_query driver table) k d).0 ≡ row_reply (tx_rows d k)
  pub lock_rows :
      (k : Bytes) (d : D) (j : Bytes)
      → rows (sql.tx_query_row (locking_query driver table) k d).1 j ≡ rows d j
  pub lock_tx_rows :
      (k : Bytes) (d : D) (j : Bytes)
      → tx_rows (sql.tx_query_row (locking_query driver table) k d).1 j ≡ tx_rows d j
  pub tx_delete_works :
      (k : Bytes) (d : D) → (sql.tx_exec (delete_query table) (text k ∷ []) d).0 ≡ none
  pub tx_delete_rows :
      (k : Bytes) (d : D) (j : Bytes)
      → tx_rows (sql.tx_exec (delete_query table) (text k ∷ []) d).1 j ≡ without k (tx_rows d) j
  -- a second row with the key of another would break the primary key
  pub tx_insert_works :
      (k x : Bytes) (at : ℤ) (d : D)
      → tx_rows d k ≡ none
      → (sql.tx_exec (insert_query table) (text k ∷ blob x ∷ bigint at ∷ []) d).0 ≡ none
  pub tx_insert_rows :
      (k x : Bytes) (at : ℤ) (d : D)
      → tx_rows d k ≡ none
      → (j : Bytes)
      → tx_rows (sql.tx_exec (insert_query table) (text k ∷ blob x ∷ bigint at ∷ []) d).1 j
        ≡ with_row k (a_row x at) (tx_rows d) j
  -- an update changes the row that is there
  pub tx_update_works :
      (k x : Bytes) (at : ℤ) (d : D)
      → (sql.tx_exec (update_query table) (blob x ∷ bigint at ∷ text k ∷ []) d).0 ≡ none
  pub tx_update_rows :
      (k x : Bytes) (at : ℤ) (row : Row) (d : D)
      → tx_rows d k ≡ some row
      → (j : Bytes)
      → tx_rows (sql.tx_exec (update_query table) (blob x ∷ bigint at ∷ text k ∷ []) d).1 j
        ≡ with_row k (a_row x at) (tx_rows d) j
  pub rollback_rows : (d : D) (j : Bytes) → rows (sql.rollback d) j ≡ rows d j
  pub commit_works : (d : D) → (sql.commit d).0 ≡ none
  pub commit_rows : (d : D) (j : Bytes) → rows (sql.commit d).1 j ≡ tx_rows d j
