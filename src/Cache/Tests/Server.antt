-- ===== src/Cache/Tests/Server.antt =====
-- A small SQL server that knows the statements of cache/database.go on the table `t`, and the
-- theorems on the database store over it.
use chobits.Prelude.{
  if◌then◌else◌, ◌≡◌, refl, true, Option, none, some, List, [], ◌∷◌, Bytes, codes, ok, err, arith,
  false,
}
use chobits.Int64.{pos}
use chobits.Int64.Decimal.{parse_int}
use chobits.Cache.Database.Overflow.{far_deadline}
use chobits.Text.Dict.{Dict, lookup, insert, delete, lookup-insert, lookup-delete}
use chobits.Cache.{Err, failure, bad_identifier}
use chobits.Cache.Spec.{Implements}
use chobits.Cache.Database.Sql.{Sql, Row, Arg, text, blob, bigint}
use chobits.Cache.Database.Reliable.{Reliable, row_reply, expiry_reply, a_row}
use chobits.Cache.Database.Atomic.{Transactional, increment_atomic}
use chobits.Cache.Database.Replace.{Effective, Replaces, set_atomic}
use chobits.Text.{text_eq}
use chobits.Cache.Database.Transactions.{database-Implements, Valid, held}
use chobits.Cache.Config.{DatabaseConfig}
use chobits.Cache.Database.Open.{Resolver, open_database}
use chobits.Cache.Database.Identifier.{Sound, open_database-Sound}
use chobits.Cache.Database.{Database, database_cache, set, get, increment}

abbrev table : Bytes
table = codes "t"

record Server : Type 0 where
  committed : Dict Row
  open_tx : Dict Row

abbrev rows : Server → Bytes → Option Row
rows d k = lookup k d.committed

abbrev tx_rows : Server → Bytes → Option Row
tx_rows d k = lookup k d.open_tx

abbrev updated : Bytes → Row → Option Row → Dict Row → Dict Row
updated k row none m = m
updated k row (some _) m = insert k row m

abbrev unique : Bytes → Row → Option Row → Dict Row → Err × Dict Row
unique k row none m = (none, insert k row m)
unique k row (some _) m = (some (failure 1062), m)

-- The arguments tell the three statements apart.
abbrev run_on : List Arg → Dict Row → Err × Dict Row
run_on (text k ∷ []) m = (none, delete k m)
run_on (text k ∷ blob x ∷ bigint at ∷ []) m = unique k (a_row x at) (lookup k m) m
run_on (blob x ∷ bigint at ∷ text k ∷ []) m = (none, updated k (a_row x at) (lookup k m) m)
run_on _ m = (some (failure 1064), m)

abbrev server : Sql Server
server = record {
  query_row = λ q k d. (row_reply (rows d k), d);
  query_expiry = λ q k d. (expiry_reply (rows d k), d);
  exec = λ q args d. let (e, m) = run_on args d.committed in (e, record d { committed = m });
  begin_tx = λ d. (none, record d { open_tx = d.committed });
  tx_query_row = λ q k d. (row_reply (tx_rows d k), d);
  tx_exec = λ q args d. let (e, m) = run_on args d.open_tx in (e, record d { open_tx = m });
  rollback = λ d. d;
  commit = λ d. (none, record d { committed = d.open_tx });
}

abbrev store : Database
store = record { connected = true; driver = codes "mysql"; table = table }

server-Reliable : Reliable server (codes "mysql") table rows tx_rows
server-Reliable = record {
  query_replies = λ k d. refl;
  query_keeps = λ k d j. refl;
  expiry_replies = λ k d. refl;
  expiry_keeps = λ k d j. refl;
  delete_works = λ k d. refl;
  delete_rows = λ k d j. lookup-delete k j d.committed;
  begin_works = λ d. refl;
  begin_rows = λ d j. refl;
  begin_tx_rows = λ d j. refl;
  lock_replies = λ k d. refl;
  lock_rows = λ k d j. refl;
  lock_tx_rows = λ k d j. refl;
  tx_delete_works = λ k d. refl;
  tx_delete_rows = λ k d j. lookup-delete k j d.open_tx;
  tx_insert_works = λ k x at d free. rw free;
  tx_insert_rows = λ k x at d free j. rw free (lookup-insert k j (a_row x at) d.open_tx);
  tx_update_works = λ k x at d. refl;
  tx_update_rows = λ k x at row d there j. rw there (lookup-insert k j (a_row x at) d.open_tx);
  rollback_rows = λ d j. refl;
  commit_works = λ d. refl;
  commit_rows = λ d j. refl;
}

database-Implements_example :
    Implements
      (database_cache server store)
      (Valid server store rows tx_rows server-Reliable refl)
      (held server store rows tx_rows server-Reliable refl)
database-Implements_example = database-Implements server store rows tx_rows server-Reliable refl

-- The same server, but its commits fail.
abbrev stuck_commit : Server → Err × Server
stuck_commit d = (some (failure 1205), d)

abbrev stuck : Sql Server
stuck = record server { commit = stuck_commit }

abbrev committed_rows : Server → Dict Row
committed_rows d = d.committed

stuck-Transactional : Transactional stuck committed_rows
stuck-Transactional = record {
  begins = λ d. refl;
  reads = λ q k d. refl;
  executes = λ q args d. refl;
  rolls_back = λ d. refl;
  refuses = λ e d h. refl;
}

abbrev full : Server
full = record { committed = (codes "a", a_row (codes "1") (pos 0)) ∷ []; open_tx = [] }

increment_atomic_example :
    committed_rows (increment stuck store 5 (codes "a") (pos 1) (pos 0) full).1
    ≡ committed_rows full
unfolding increment lookup parse_int
increment_atomic_example =
    increment_atomic stuck store committed_rows stuck-Transactional 5 (codes "a") (pos 1) (pos 0)
      full (failure 1205) refl

server-Transactional : Transactional server rows
server-Transactional = record {
  begins = λ d. refl;
  reads = λ q k d. refl;
  executes = λ q args d. refl;
  rolls_back = λ d. refl;
  refuses = λ e d h. cc;
}

-- An insert that replies no error found no row of its key.
inserted :
    (k j : Bytes) (row : Row) (o : Option Row) (m : Dict Row)
    → (unique k row o m).0 ≡ none
    → lookup j (unique k row o m).1 ≡ (if text_eq k j then some row else lookup j m)
inserted k j row none m h = lookup-insert k j row m
inserted k j row (some old) m h = cc

server-Effective : Effective server table rows tx_rows
server-Effective = record {
  begun = λ d h. refl;
  deletes = λ k d h j. lookup-delete k j d.open_tx;
  inserts = λ k x at d h j. inserted k j (a_row x at) (lookup k d.open_tx) d.open_tx h;
  commits = λ d h. refl;
}

set_replaces :
    (set server store 5 (codes "a") (codes "2") (pos 0) full).1.committed
    ≡ (codes "a", a_row (codes "2") (pos 0)) ∷ []
unfolding set lookup delete insert text_eq
set_replaces = refl

set_atomic_example :
    Replaces rows
      (codes "a")
      (a_row (codes "2") (pos 0))
      (rows full)
      (set server store 5 (codes "a") (codes "2") (pos 0) full)
set_atomic_example =
    set_atomic server store rows tx_rows server-Transactional server-Effective 5 (codes "a")
      (codes "2") (pos 0) full

far_deadline_example :
    (get server store 9223372036854775900
      (codes "a")
      (set server store 1000 (codes "a") (codes "2") (pos 9223372036854775800) full).1).0
    ≡ ok (codes "2")
far_deadline_example =
    far_deadline server store rows tx_rows server-Reliable refl 1000 9223372036854775800
      9223372036854775900 (codes "a") (codes "2") full (omega arith) (omega arith) (omega arith)

-- A resolver that knows one connection.
abbrev resolver : Resolver Server
resolver = some (λ name d. (ok (record { has_db = true; driver = codes "SQLite3" }), d))

abbrev empty : Server
empty = record { committed = []; open_tx = [] }

abbrev quoted : DatabaseConfig
quoted = record {
  connection = [];
  driver = [];
  table = codes "t; DROP TABLE t";
  auto_migrate = false;
}

refuses_quoted :
    (open_database server quoted resolver empty).0 ≡ err (bad_identifier (codes "t; DROP TABLE t"))
unfolding open_database
refuses_quoted = refl

open_database-Sound_example :
    Sound (open_database server (record quoted { table = codes " cache_2" }) resolver empty).0
open_database-Sound_example =
    open_database-Sound server (record quoted { table = codes " cache_2" }) resolver empty
