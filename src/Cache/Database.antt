-- ===== src/Cache/Database.antt =====
-- cache/database.go: a store in a table of an SQL database. The database is a parameter,
-- `Database/Sql.antt`. A clock reading is a number of nanoseconds, which UnixNano cuts to an int64.
pub mod Sql
pub mod Atomic
pub mod Replace
pub mod Rows
pub mod Reliable
pub mod Refinement
pub mod Writes
pub mod Overflow
pub mod Open
pub mod Identifier
pub mod Transactions
use chobits.Prelude.{
  ℕ, ◌+◌, ◌≡◌, Bool, true, false, ◌&&◌, Option, none, some, [], ◌∷◌, Bytes, Result, ok, err,
  if◌then◌else◌, ◌==◌,
}
use chobits.Int64.{ℤ, pos, negsuc, pos_part, is_positive, leb_ℤ, ◌+ℤ◌, neg_part, sub_ℕ, wrap64}
use chobits.Int64.Decimal.{Parsed, parsed, bad_syntax, out_of_range, parse_int, format_int}
use chobits.Cache.{
  Error, Err, miss, database_unset, number_syntax, number_range, is_miss, Exec, Cache,
}
use chobits.Cache.Memory.{existence}
use Sql.{
  Row, Arg, text, blob, bigint, ScanError, no_rows, broken, select_query, expiry_query,
  delete_query, insert_query, update_query, locking_query,
}

-- `connected` tells whether the receiver and its `db` are not nil.
pub record Database : Type 0 where
  pub connected : Bool
  pub driver : Bytes
  pub table : Bytes

-- now.UnixNano(), and now.Add(ttl).UnixNano()
unfoldable pub unix_nano : ℕ → ℤ
unix_nano now = wrap64 (pos now)

-- expiresAt > 0 && expiresAt <= now.UnixNano()
unfoldable pub expired : ℕ → ℤ → Bool
unfolding unix_nano
expired now at = is_positive at && leb_ℤ at (unix_nano now)

unfoldable pub deadline_of : ℕ → ℤ → ℤ → ℤ
unfolding unix_nano
deadline_of now ttl kept = if is_positive ttl then unix_nano (now + pos_part ttl) else kept

-- time.Duration(expiresAt - now.UnixNano())
unfoldable pub left_of : ℕ → ℤ → ℤ
unfolding unix_nano
left_of now at =
    let n = unix_nano now in wrap64 (sub_ℕ (pos_part at + neg_part n) (neg_part at + pos_part n))

unfoldable pub is_zero : ℤ → Bool
is_zero (pos n) = n == 0
is_zero (negsuc n) = false

unfoldable pub error_of : Result Error (Unit {0}) → Err
error_of (ok _) = none
error_of (err e) = some e

module _ {D : Type 0} (sql : Sql.Sql D) (cache : Database) where
  open sql use {query_row, query_expiry, exec, begin_tx, tx_query_row, tx_exec, rollback, commit}
  open cache use {connected, driver, table}

  unfoldable pub drop : Bytes → D → Err × D
  unfolding delete_query
  drop k d =
      if connected then exec (delete_query table) (text k ∷ []) d else (some database_unset, d)

  unfoldable pub got : ℕ → Bytes → Result ScanError Row → Exec D Bytes
  unfolding expired drop
  got now k (err no_rows) d = (err miss, d)
  got now k (err (broken e)) d = (err e, d)
  got now k (ok row) d =
      if expired now row.expires_at then (err miss, (drop k d).1) else (ok row.cache_value, d)

  unfoldable pub get : ℕ → Bytes → Exec D Bytes
  unfolding got select_query
  get now k d =
      let (r, d') = query_row (select_query table) k d in
      if connected then got now k r d' else (err database_unset, d)

  unfoldable pub exists : ℕ → Bytes → Exec D Bool
  unfolding get existence
  exists now k d = let (r, d') = get now k d in (existence r, d')

  -- `tx, err := BeginTx`, and the rest if it did not fail
  unfoldable pub start : {A : Type 0} → Exec D A → Exec D A
  start next d = let (e, d') = begin_tx d in elim e [ none ↦ next d' | some x ↦ (err x, d') ]

  -- a statement, a rollback if it fails, and the rest if it does not
  unfoldable pub then_in_tx : {A : Type 0} → (D → Err × D) → Exec D A → Exec D A
  then_in_tx step next d =
      let (e, d') = step d in elim e [ none ↦ next d' | some x ↦ (err x, rollback d') ]

  -- `tx.Commit()`, and the result
  unfoldable pub finish : {A : Type 0} → A → Exec D A
  finish a d = let (e, d') = commit d in elim e [ none ↦ (ok a, d') | some x ↦ (err x, d') ]

  unfoldable pub delete_in_tx : Bytes → D → Err × D
  unfolding delete_query
  delete_in_tx k = tx_exec (delete_query table) (text k ∷ [])

  unfoldable pub insert_in_tx : Bytes → Bytes → ℤ → D → Err × D
  unfolding insert_query
  insert_in_tx k x at = tx_exec (insert_query table) (text k ∷ blob x ∷ bigint at ∷ [])

  unfoldable pub update_in_tx : Bytes → Bytes → ℤ → D → Err × D
  unfolding update_query
  update_in_tx k x at = tx_exec (update_query table) (blob x ∷ bigint at ∷ text k ∷ [])

  unfoldable pub replace_row : Bytes → Bytes → ℤ → Exec D (Unit {0})
  unfolding start then_in_tx finish delete_in_tx insert_in_tx
  replace_row k x at =
      start (then_in_tx (delete_in_tx k) (then_in_tx (insert_in_tx k x at) (finish tt)))

  unfoldable pub set : ℕ → Bytes → Bytes → ℤ → D → Err × D
  unfolding replace_row error_of deadline_of
  set now k x ttl d =
      let (r, d') = replace_row k x (deadline_of now ttl (pos 0)) d in
      if connected then (error_of r, d') else (some database_unset, d)

  unfoldable pub value_unless_expired : ℕ → Row → Result Error Bytes × D → Result Error Bytes × D
  unfolding expired
  value_unless_expired now row (ok x, d) =
      if expired now row.expires_at then (err miss, d) else (ok x, d)
  value_unless_expired now row (err e, d) = (err e, d)

  unfoldable pub take_row : ℕ → Bytes → Result ScanError Row → Exec D Bytes
  unfolding value_unless_expired then_in_tx finish delete_in_tx
  take_row now k (err no_rows) d = (err miss, rollback d)
  take_row now k (err (broken e)) d = (err e, rollback d)
  take_row now k (ok row) d =
      value_unless_expired now row (then_in_tx (delete_in_tx k) (finish row.cache_value) d)

  unfoldable pub locked_row : Bytes → D → Result ScanError Row × D
  unfolding locking_query
  locked_row = tx_query_row (locking_query driver table)

  unfoldable pub take : ℕ → Bytes → Exec D Bytes
  unfolding start locked_row take_row
  take now k d =
      let (r, d') = start (λ d. let (row, d') = locked_row k d in take_row now k row d') d in
      if connected then (r, d') else (err database_unset, d)

  -- The write at the end of Increment, and the commit.
  unfoldable pub write_count : Bool → Bytes → ℤ → ℤ → Exec D ℤ
  unfolding then_in_tx finish update_in_tx insert_in_tx
  write_count there k next at =
      then_in_tx
        (if there then update_in_tx k (format_int next) at else insert_in_tx k (format_int next) at)
        (finish next)

  unfoldable pub add_to : ℕ → Bytes → ℤ → ℤ → Row → Parsed → Exec D ℤ
  unfolding write_count deadline_of
  add_to now k delta ttl row (parsed current) d =
      write_count true k (wrap64 (current +ℤ delta)) (deadline_of now ttl row.expires_at) d
  add_to now k delta ttl row bad_syntax d = (err number_syntax, rollback d)
  add_to now k delta ttl row (out_of_range z) d = (err number_range, rollback d)

  unfoldable pub add_new : ℕ → Bytes → ℤ → ℤ → Exec D ℤ
  unfolding write_count deadline_of
  add_new now k delta ttl =
      write_count false k (wrap64 (pos 0 +ℤ delta)) (deadline_of now ttl (pos 0))

  unfoldable pub increment_row : ℕ → Bytes → ℤ → ℤ → Result ScanError Row → Exec D ℤ
  unfolding add_to add_new expired then_in_tx delete_in_tx
  increment_row now k delta ttl (err no_rows) d = add_new now k delta ttl d
  increment_row now k delta ttl (err (broken e)) d = (err e, rollback d)
  increment_row now k delta ttl (ok row) d =
      if expired now row.expires_at
      then then_in_tx (delete_in_tx k) (add_new now k delta ttl) d
      else add_to now k delta ttl row (parse_int row.cache_value) d

  unfoldable pub increment : ℕ → Bytes → ℤ → ℤ → Exec D ℤ
  unfolding start locked_row increment_row
  increment now k delta ttl d =
      let (r, d') =
        start (λ d. let (row, d') = locked_row k d in increment_row now k delta ttl row d') d in
      if connected then (r, d') else (err database_unset, d)

  unfoldable pub ttl_row : ℕ → Bytes → Result ScanError ℤ → Exec D ℤ
  unfolding left_of drop
  ttl_row now k (err no_rows) d = (err miss, d)
  ttl_row now k (err (broken e)) d = (err e, d)
  ttl_row now k (ok at) d =
      if is_zero at
      then (ok (pos 0), d)
      else if is_positive (left_of now at)
      then (ok (left_of now at), d)
      else (err miss, (drop k d).1)

  unfoldable pub ttl : ℕ → Bytes → Exec D ℤ
  unfolding ttl_row expiry_query
  ttl now k d =
      let (r, d') = query_expiry (expiry_query table) k d in
      if connected then ttl_row now k r d' else (err database_unset, d)

  unfoldable pub close : D → Err × D
  close d = (none, d)

  abbrev pub database_cache : Cache D
  database_cache = record {
    get = get;
    set = set;
    take = take;
    exists = exists;
    increment = increment;
    ttl = ttl;
    delete = drop;
    close = close;
  }
