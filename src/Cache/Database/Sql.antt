-- ===== src/Cache/Database/Sql.antt =====
-- The part of package database/sql that cache/database.go calls, as a parameter: `D` is the world
-- of the driver and the server, with at most one transaction open in it.
use chobits.Prelude.{List, ◌++◌, Bytes, codes, Result, if◌then◌else◌}
use chobits.Int64.{ℤ}
use chobits.Text.{text_eq}
use chobits.Cache.{Error, Err}

-- One row of the table, without its key.
pub record Row : Type 0 where
  pub cache_value : Bytes
  pub expires_at : ℤ

pub data Arg : Type 0 where
  text blob : Bytes → Arg
  bigint : ℤ → Arg

-- What Row.Scan can fail with: sql.ErrNoRows, or anything else.
pub data ScanError : Type 0 where
  no_rows : ScanError
  broken : Error → ScanError

pub record Sql (D : Type 0) : Type 0 where
  -- QueryRowContext and Scan into a value and a deadline, and into a deadline alone
  pub query_row : Bytes → Bytes → D → Result ScanError Row × D
  pub query_expiry : Bytes → Bytes → D → Result ScanError ℤ × D
  pub exec : Bytes → List Arg → D → Err × D
  pub begin_tx : D → Err × D
  pub tx_query_row : Bytes → Bytes → D → Result ScanError Row × D
  pub tx_exec : Bytes → List Arg → D → Err × D
  pub rollback : D → D
  pub commit : D → Err × D

-- The texts that fmt.Sprintf makes.
unfoldable pub select_query : Bytes → Bytes
select_query table =
    codes "SELECT cache_value, expires_at FROM " ++ table ++ codes " WHERE cache_key = ?"

unfoldable pub expiry_query : Bytes → Bytes
expiry_query table = codes "SELECT expires_at FROM " ++ table ++ codes " WHERE cache_key = ?"

unfoldable pub delete_query : Bytes → Bytes
delete_query table = codes "DELETE FROM " ++ table ++ codes " WHERE cache_key = ?"

unfoldable pub insert_query : Bytes → Bytes
insert_query table =
    codes "INSERT INTO " ++ table ++ codes " (cache_key, cache_value, expires_at) VALUES (?, ?, ?)"

unfoldable pub update_query : Bytes → Bytes
update_query table =
    codes "UPDATE " ++ table ++ codes " SET cache_value = ?, expires_at = ? WHERE cache_key = ?"

-- A read of a row inside a transaction, with the row lock that MySQL wants.
unfoldable pub locking_query : Bytes → Bytes → Bytes
unfolding select_query text_eq
locking_query driver table =
    if text_eq driver (codes "mysql")
    then select_query table ++ codes " FOR UPDATE"
    else select_query table
