-- ===== src/Cache/Database/Overflow.antt =====
-- What the int64 of UnixNano does to a deadline beyond the year 2262.
use chobits.Prelude.{ℕ, ◌+◌, ◌≤◌, ◌<◌, ◌≡◌, ◌∙◌, false, Option, some, Bytes, ok, arith, true}
use chobits.Int64.{ℤ, pos, half_range, wrap64}
use chobits.Text.{text_eq_refl}
use chobits.Cache.Database.Sql.{Sql, Row}
use chobits.Cache.Database.Reliable.{Reliable, row_reply, a_row}
use chobits.Cache.Database.Writes.{replace_row-Leaves}
use chobits.Cache.Database.{Database, expired, deadline_of, got, get, set}

-- A deadline past the end of int64 is stored as a negative number, which counts as none.
overflown :
    (now n t : ℕ)
    → half_range ≤ now + n
    → now < half_range
    → n < half_range
    → expired t (deadline_of now (pos n) (pos 0)) ≡ false
unfolding expired deadline_of wrap64
overflown now n t far early fits = ground arith

module _ {D : Type 0} (sql : Sql D) (cache : Database) (rows tx_rows : D → Bytes → Option Row)
    (promise : Reliable sql cache.driver cache.table rows tx_rows)
    (up : cache.connected ≡ true) where
  got_kept :
      (t : ℕ) (k x : Bytes) (at : ℤ) (o : Option Row) (d : D)
      → o ≡ some (a_row x at)
      → expired t at ≡ false
      → (got sql cache t k (row_reply o) d).0 ≡ ok x
  unfolding got
  got_kept t k x at o d e fresh = rw e (rw fresh)

  -- If the deadline of a Set, its instant plus its time to live, lies beyond the range of int64
  -- nanoseconds, then the value never expires: a Get at any later instant, past the deadline too,
  -- still replies it.
  pub far_deadline :
      (now n t : ℕ) (k x : Bytes) (d : D)
      → half_range ≤ now + n
      → now < half_range
      → n < half_range
      → (get sql cache t k (set sql cache now k x (pos n) d).1).0 ≡ ok x
  unfolding get set
  far_deadline now n t k x d far early fits =
      let at = deadline_of now (pos n) (pos 0) in
      let left = replace_row-Leaves sql cache rows tx_rows promise up k x at d in
      simp (up, promise.query_replies)
        (got_kept t k x at _ _ (left.1 k ∙ rw (text_eq_refl k)) (overflown now n t far early fits))
