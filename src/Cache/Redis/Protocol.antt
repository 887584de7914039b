-- ===== src/Cache/Redis/Protocol.antt =====
-- The replies of a Redis server, their encoding as the protocol defines it, and the reader of
-- cache/redis.go on them.
use mathlib.Core.List.{append_assoc}
use chobits.Prelude.{
  ℕ, zero, suc, ◌+◌, ◌*◌, ◌/◌, ◌%◌, ltb, Bool-cases, inl, inr, ◌≤◌, ◌<◌, ◌≡◌, refl, sym, ap, Bool,
  true, false, ◌&&◌, not, some, [], ◌∷◌, ◌++◌, if◌then◌else◌, ◌==◌, Bytes, codes, Result, ok, err,
  length, length-append, arith,
}
use chobits.Int64.{ℤ, pos, negsuc, IsInt64, half_range}
use chobits.Int64.Decimal.{format_int, parse_int, digits, digit_fuel}
use chobits.Int64.Decimal.RoundTrip.{parse_int-format_int}
use chobits.Text.{cut}
use chobits.Cache.{Error, redis_nil}
use chobits.Cache.Redis.{Value, Values, nil, text, bytes, int, bool, array, no_values, value}
use chobits.Cache.Redis.Wire.{
  Memory, Outcome, replied, trim_return, read_line, read_number, split_at, read_bulk, read_array,
  take_bulk, end_bulk, to_array, parse_line, number_of, cons_value, then_text, then_int, read_kind,
  read_reply, read_values, then_values, crlf,
}

-- What a server replies: a simple string, an error, an integer, a bulk string, the two nulls of the
-- second version of the protocol, an array, and the null and the boolean of the third.
mutual
  pub data Reply : Type 0 where
    simple : Bytes → Reply
    error : Bytes → Reply
    integer : ℤ → Reply
    bulk : Bytes → Reply
    null_bulk null_array null : Reply
    list : Replies → Reply
    boolean : Bool → Reply

  pub data Replies : Type 0 where
    none_left : Replies
    reply : Reply → Replies → Replies

abbrev line : ℕ → Bytes → Bytes
line kind s = kind ∷ (s ++ crlf)

unfoldable pub count : Replies → ℕ
count none_left = 0
count (reply r rs) = suc (count rs)

unfoldable mutual
  unfolding count

  pub encode : Reply → Bytes
  encode (simple s) = line b'+' s
  encode (error s) = line b'-' s
  encode (integer z) = line b':' (format_int z)
  encode (bulk s) = line b'$' (format_int (pos (length s))) ++ (s ++ crlf)
  encode null_bulk = codes "$-1\r\n"
  encode null_array = codes "*-1\r\n"
  encode null = codes "_\r\n"
  encode (boolean true) = codes "#t\r\n"
  encode (boolean false) = codes "#f\r\n"
  encode (list rs) = line b'*' (format_int (pos (count rs))) ++ encode_all rs

  pub encode_all : Replies → Bytes
  encode_all none_left = []
  encode_all (reply r rs) = encode r ++ encode_all rs

-- No carriage return and no line feed.
unfoldable pub is_line : Bytes → Bool
is_line [] = true
is_line (a ∷ s) = not (a == b'\n') && not (a == b'\r') && is_line s

-- Replies that the protocol can express and that fit in memory, with no error inside an array.
unfoldable mutual
  pub IsWhole : Memory → Reply → Type 0
  IsWhole m (simple s) = is_line s ≡ true
  IsWhole m (error s) = ⊥
  IsWhole m (integer z) = IsInt64 z
  IsWhole m (bulk s) = (length s + 2 ≤ m.max_bytes) × (length s < half_range)
  IsWhole m (list rs) = (count rs ≤ m.max_values) × (count rs < half_range) × AreWhole m rs
  IsWhole m _ = Unit {0}

  pub AreWhole : Memory → Replies → Type 0
  AreWhole m none_left = Unit {0}
  AreWhole m (reply r rs) = IsWhole m r × AreWhole m rs

-- What a reply is as a Go value; a null inside an array is nil.
unfoldable mutual
  pub value_of : Reply → Value
  value_of (simple s) = text s
  value_of (error s) = nil
  value_of (integer z) = int z
  value_of (bulk s) = bytes s
  value_of (boolean b) = bool b
  value_of (list rs) = array (values_of rs)
  value_of _ = nil

  pub values_of : Replies → Values
  values_of none_left = no_values
  values_of (reply r rs) = value (value_of r) (values_of rs)

unfoldable pub is_null : Reply → Bool
is_null null_bulk = true
is_null null_array = true
is_null null = true
is_null _ = false

-- What Do replies: a null at the top is the error ErrRedisNil.
unfoldable pub result_of : Bool → Reply → Result Error Value
unfolding value_of is_null
result_of strict r = if strict && is_null r then err redis_nil else ok (value_of r)

trim_return-crlf : (s : Bytes) → is_line s ≡ true → trim_return (s ++ b'\r' ∷ []) ≡ s
unfolding trim_return is_line
trim_return-crlf [] h = refl
trim_return-crlf (a ∷ []) h = ground arith
trim_return-crlf (a ∷ b ∷ s) h = ground (arith, trim_return-crlf (b ∷ s))

cut_line :
    (s rest : Bytes)
    → is_line s ≡ true
    → cut b'\n' (s ++ (crlf ++ rest)) ≡ some (s ++ b'\r' ∷ [], rest)
unfolding cut is_line
cut_line [] rest h = refl
cut_line (a ∷ s) rest h = ground (arith, cut_line s rest)

-- A line is read up to its end.
pub read_line-crlf :
    (eof : Error) (s rest : Bytes)
    → is_line s ≡ true
    → read_line eof (s ++ (crlf ++ rest)) ≡ (ok s, rest)
unfolding read_line
read_line-crlf eof s rest h = ground (arith, cut_line s rest, trim_return-crlf s)

is_line-append : (s t : Bytes) → is_line (s ++ t) ≡ (is_line s && is_line t)
unfolding is_line
is_line-append [] t = refl
is_line-append (a ∷ s) t = ground (arith, is_line-append s t)

is_line_digit : (d : ℕ) → d < 10 → is_line ((b'0' + d) ∷ []) ≡ true
unfolding is_line
is_line_digit d h = ground arith

is_line-digits : (f n : ℕ) → is_line (digits f n) ≡ true
unfolding digits
is_line-digits zero n = unfold is_line in refl
is_line-digits (suc f) n = elim (Bool-cases (ltb n 10)) [
  | inl small ↦ rw small (is_line_digit n (ground arith))
  | inr large ↦
      rw
        (
          large,
          is_line-append (digits f (n / 10)) ((b'0' + n % 10) ∷ []),
          is_line-digits f (n / 10),
        )
        (is_line_digit (n % 10) (omega arith))
]

is_line-format_int : (z : ℤ) → is_line (format_int z) ≡ true
unfolding format_int
is_line-format_int (pos n) = is_line-digits digit_fuel n
is_line-format_int (negsuc n) = unfold is_line in is_line-digits digit_fuel (suc n)

-- A number is read up to the end of its line.
pub read_number-crlf :
    (eof : Error) (z : ℤ) (rest : Bytes)
    → IsInt64 z
    → read_number eof (format_int z ++ (crlf ++ rest)) ≡ (ok z, rest)
unfolding read_number parse_line number_of
read_number-crlf eof z rest h =
    rw (read_line-crlf eof (format_int z) rest (is_line-format_int z), parse_line)
      (rw (parse_int-format_int z h, number_of) refl)

pub split_at-append : (s t : Bytes) → split_at (length s) (s ++ t) ≡ some (s, t)
unfolding split_at
split_at-append [] t = refl
split_at-append (a ∷ s) t = rw (split_at-append s t) refl

module _ (m : Memory) (eof : Error) where
  read_bulk-crlf :
      (strict : Bool) (s rest : Bytes)
      → length s + 2 ≤ m.max_bytes
      → read_bulk m eof strict (ok (pos (length s))) (s ++ (crlf ++ rest))
        ≡ replied (ok (bytes s)) rest
  unfolding read_bulk split_at take_bulk end_bulk
  read_bulk-crlf strict s rest fits =
      let small : ltb m.max_bytes (length s + 2) ≡ false = ground arith in
      simp (small, split_at-append s (crlf ++ rest)) refl

  result_of_value :
      (strict : Bool) (r : Reply) → is_null r ≡ false → result_of strict r ≡ ok (value_of r)
  unfolding result_of
  result_of_value true r h = rw h refl
  result_of_value false r h = refl

  read_array_whole :
      (strict : Bool) (n : ℕ) (vs : Values) (rest s : Bytes) (read : ℕ → Bytes → Outcome Values)
      → n ≤ m.max_values
      → read n s ≡ replied (ok vs) rest
      → read_array m read strict (ok (pos n)) s ≡ replied (ok (array vs)) rest
  unfolding read_array to_array
  read_array_whole strict n vs rest s read fits e =
      let small : ltb m.max_values n ≡ false = ground arith in simp (small, e) refl

  encode_pos : (r : Reply) → 0 < length (encode r)
  unfolding encode
  encode_pos (simple s) = omega arith
  encode_pos (error s) = omega arith
  encode_pos (integer z) = omega arith
  encode_pos (bulk s) = omega arith
  encode_pos (list rs) = omega arith
  encode_pos (boolean true) = omega arith
  encode_pos (boolean false) = omega arith
  encode_pos _ = omega arith

  -- A whole reply costs the reader less fuel than twice its length.
  mutual
    unfolding encode read_reply read_kind count then_values cons_value IsWhole then_text then_int
        value_of is_null number_of parse_int result_of read_bulk read_array

    reads :
        (r : Reply) (f : ℕ) (strict : Bool) (rest : Bytes)
        → IsWhole m r
        → 2 * length (encode r) < f
        → read_reply m eof f strict (encode r ++ rest) ≡ replied (result_of strict r) rest
    reads r zero strict rest h lt = absurd (omega arith)
    reads (simple s) (suc f) strict rest h lt =
        simp (append_assoc s crlf rest, read_line-crlf eof s rest h)
          (ap (λ x. replied x rest) (sym (result_of_value strict (simple s) refl)))
    reads (error s) (suc f) strict rest h lt = elim h [ ]
    reads (integer z) (suc f) strict rest h lt =
        simp (append_assoc (format_int z) crlf rest, read_number-crlf eof z rest h)
          (ap (λ x. replied x rest) (sym (result_of_value strict (integer z) refl)))
    reads (bulk s) (suc f) strict rest h lt =
        simp
          (
            append_assoc,
            read_number-crlf eof (pos (length s)) (s ++ (crlf ++ rest)) h.1,
            read_bulk-crlf strict s rest h.0,
          )
          (ap (λ x. replied x rest) (sym (result_of_value strict (bulk s) refl)))
    reads null_bulk (suc f) true rest h lt = refl
    reads null_bulk (suc f) false rest h lt = refl
    reads null_array (suc f) true rest h lt = refl
    reads null_array (suc f) false rest h lt = refl
    reads null (suc f) true rest h lt = refl
    reads null (suc f) false rest h lt = refl
    reads (boolean true) (suc f) true rest h lt = refl
    reads (boolean true) (suc f) false rest h lt = refl
    reads (boolean false) (suc f) true rest h lt = refl
    reads (boolean false) (suc f) false rest h lt = refl
    reads (list rs) (suc f) strict rest h lt =
        simp
          (
            append_assoc,
            read_number-crlf eof (pos (count rs)) (encode_all rs ++ rest) h.1,
            read_array_whole strict (count rs) (values_of rs) rest (encode_all rs ++ rest)
                (read_values m eof f) h.0
                (reads_all rs f rest h.2 (
                  omega (
                    arith,
                    length-append (line b'*' (format_int (pos (count rs)))) (encode_all rs),
                  ))),
          )
          (ap (λ x. replied x rest) (sym (result_of_value strict (list rs) refl)))

    reads_all :
        (rs : Replies) (f : ℕ) (rest : Bytes)
        → AreWhole m rs
        → 2 * length (encode_all rs) + 1 < f
        → read_values m eof f (count rs) (encode_all rs ++ rest) ≡ replied (ok (values_of rs)) rest
    reads_all rs zero rest h lt = absurd (omega arith)
    reads_all none_left (suc f) rest h lt = refl
    reads_all (reply r rs) (suc f) rest h lt =
        let len = length-append (encode r) (encode_all rs) in
        simp
          (
            append_assoc,
            reads r f false (encode_all rs ++ rest) h.0 (omega (arith, len)),
            reads_all rs f rest h.1 (omega (arith, len, encode_pos r)),
          )
          refl

  -- If a reply is whole, which means that it is no error and holds none, that its simple strings have
  -- no carriage return and no line feed, that its integers fit an int64, and that the sizes of its strings and arrays fit the
  -- memory and an int64, then with fuel above twice the length of its encoding the reader reads its
  -- value off the front of any stream and leaves what follows. At the top, a null is the error
  -- ErrRedisNil.
  pub read_reply-encode :
      (r : Reply) (f : ℕ) (strict : Bool) (rest : Bytes)
      → IsWhole m r
      → 2 * length (encode r) < f
      → read_reply m eof f strict (encode r ++ rest) ≡ replied (result_of strict r) rest
  read_reply-encode r f strict rest h lt = reads r f strict rest h lt
