-- ===== src/Cache/Redis/Wire.antt =====
-- The wire protocol of cache/redis.go: writeRedisCommand, readRedisReply and readRedisLine. What the
-- reader gets is a text and then the end of the stream, which fails a read with one error.
use chobits.Prelude.{
  ℕ, zero, suc, ◌+◌, Bool, true, false, Option, none, some, List, [], ◌∷◌, ◌++◌, if◌then◌else◌,
  ◌==◌, ltb, Bytes, codes, Result, ok, err, length,
}
use chobits.Int64.{ℤ, pos, negsuc}
use chobits.Int64.Decimal.{Parsed, parsed, bad_syntax, out_of_range, parse_int, digits, digit_fuel}
use chobits.Text.{text_eq, cut}
use chobits.Cache.{Error, Err, number_syntax, number_range, redis_nil, command, message}
use chobits.Cache.Redis.{
  Arg, arg_bytes, Value, Values, nil, text, bytes, int, bool, array, no_values, value,
}

-- A call ends with a value or an error and what is left of the stream, or it panics. The fuel of
-- the reader runs out in no call of the client (`Redis/Fuel.antt`).
pub data Outcome (A : Type 0) : Type 0 where
  replied : Result Error A → Bytes → Outcome A
  panicked : Outcome A
  out_of_fuel : Outcome A

-- The longest slices of bytes and of values that the runtime makes; a longer one is a panic.
pub record Memory : Type 0 where
  pub max_bytes : ℕ
  pub max_values : ℕ

-- strings.TrimSuffix(line, "\r")
unfoldable pub trim_return : Bytes → Bytes
trim_return [] = []
trim_return (a ∷ []) = if a == b'\r' then [] else a ∷ []
trim_return (a ∷ b ∷ s) = a ∷ trim_return (b ∷ s)

-- readRedisLine
unfoldable pub read_line : Error → Bytes → Result Error Bytes × Bytes
unfolding cut trim_return
read_line eof s = elim (cut b'\n' s) [
  | none ↦ (err eof, [])
  | some (line, rest) ↦ (ok (trim_return line), rest)
]

-- strconv.ParseInt and strconv.Atoi of a line
unfoldable pub number_of : Parsed → Result Error ℤ
number_of (parsed z) = ok z
number_of bad_syntax = err number_syntax
number_of (out_of_range z) = err number_range

unfoldable pub parse_line : Result Error Bytes × Bytes → Result Error ℤ × Bytes
unfolding number_of
parse_line (ok line, rest) = (number_of (parse_int line), rest)
parse_line (err e, rest) = (err e, rest)

unfoldable pub read_number : Error → Bytes → Result Error ℤ × Bytes
unfolding read_line parse_line
read_number eof s = parse_line (read_line eof s)

-- The first bytes of a text and the rest, if it has that many.
unfoldable pub split_at : ℕ → Bytes → Option (Bytes × Bytes)
split_at zero s = some ([], s)
split_at (suc n) [] = none
split_at (suc n) (a ∷ s) = elim (split_at n s) [
  | none ↦ none
  | some (xs, rest) ↦ some (a ∷ xs, rest)
]

-- a nil reply: an error at the top of a reply, and a value inside an array
unfoldable pub nil_reply : Bool → Result Error Value
nil_reply true = err redis_nil
nil_reply false = ok nil

-- the two bytes after the body of a bulk string, which are not looked at
unfoldable pub end_bulk : Error → Bytes → Option (Bytes × Bytes) → Outcome Value
end_bulk eof body none = replied (err eof) []
end_bulk eof body (some (end, rest)) = replied (ok (bytes body)) rest

-- the body of a bulk string
unfoldable pub take_bulk : Error → Option (Bytes × Bytes) → Outcome Value
unfolding end_bulk split_at
take_bulk eof none = replied (err eof) []
take_bulk eof (some (body, rest)) = end_bulk eof body (split_at 2 rest)

unfoldable pub read_bulk : Memory → Error → Bool → Result Error ℤ → Bytes → Outcome Value
unfolding split_at nil_reply take_bulk
read_bulk m eof strict (err e) s = replied (err e) s
read_bulk m eof strict (ok (negsuc n)) s = replied (nil_reply strict) s
read_bulk m eof strict (ok (pos n)) s =
    if ltb m.max_bytes (n + 2) then panicked else take_bulk eof (split_at n s)

-- the values of an array as a value
unfoldable pub to_array : Outcome Values → Outcome Value
to_array (replied (ok vs) rest) = replied (ok (array vs)) rest
to_array (replied (err e) rest) = replied (err e) rest
to_array panicked = panicked
to_array out_of_fuel = out_of_fuel

-- an array, whose values a function reads
unfoldable pub read_array :
    Memory → (ℕ → Bytes → Outcome Values) → Bool → Result Error ℤ → Bytes → Outcome Value
unfolding nil_reply to_array
read_array m read strict (err e) s = replied (err e) s
read_array m read strict (ok (negsuc n)) s = replied (nil_reply strict) s
read_array m read strict (ok (pos n)) s =
    if ltb m.max_values n then panicked else to_array (read n s)

unfoldable pub then_text : Result Error Bytes × Bytes → Outcome Value
then_text (ok line, rest) = replied (ok (text line)) rest
then_text (err e, rest) = replied (err e) rest

unfoldable pub then_command : Result Error Bytes × Bytes → Outcome Value
then_command (ok line, rest) = replied (err (command line)) rest
then_command (err e, rest) = replied (err e) rest

unfoldable pub then_int : Result Error ℤ × Bytes → Outcome Value
then_int (ok z, rest) = replied (ok (int z)) rest
then_int (err e, rest) = replied (err e) rest

unfoldable pub then_nil : Bool → Result Error Bytes × Bytes → Outcome Value
unfolding nil_reply
then_nil strict (ok line, rest) = replied (nil_reply strict) rest
then_nil strict (err e, rest) = replied (err e) rest

unfoldable pub then_bool : Result Error Bytes × Bytes → Outcome Value
unfolding text_eq
then_bool (ok line, rest) = replied (ok (bool (text_eq line (b't' ∷ [])))) rest
then_bool (err e, rest) = replied (err e) rest

-- a reply whose first byte is `p`
unfoldable pub read_kind :
    Memory → Error → (ℕ → Bytes → Outcome Values) → Bool → ℕ → Bytes → Outcome Value
unfolding read_line read_number read_bulk read_array then_text then_command then_int then_nil
    then_bool
read_kind m eof read strict p s =
    if p == b'+'
    then then_text (read_line eof s)
    else if p == b'-'
    then then_command (read_line eof s)
    else if p == b':'
    then then_int (read_number eof s)
    else if p == b'$'
    then read_bulk m eof strict (read_number eof s).0 (read_number eof s).1
    else if p == b'*'
    then read_array m read strict (read_number eof s).0 (read_number eof s).1
    else if p == b'_'
    then then_nil strict (read_line eof s)
    else if p == b'#'
    then then_bool (read_line eof s)
    else replied (err (message (codes "unsupported redis reply prefix"))) s

unfoldable pub cons_value : Value → Outcome Values → Outcome Values
cons_value v (replied (ok vs) rest) = replied (ok (value v vs)) rest
cons_value v (replied (err e) rest) = replied (err e) rest
cons_value v panicked = panicked
cons_value v out_of_fuel = out_of_fuel

-- the loop over the values of an array, after a value
unfoldable pub then_values : (Bytes → Outcome Values) → Outcome Value → Outcome Values
unfolding cons_value
then_values next (replied (ok v) rest) = cons_value v (next rest)
then_values next (replied (err e) rest) = replied (err e) rest
then_values next panicked = panicked
then_values next out_of_fuel = out_of_fuel

-- readRedisReply, and the loop over the values of an array, on fuel
unfoldable mutual
  unfolding read_kind then_values

  pub read_reply : Memory → Error → ℕ → Bool → Bytes → Outcome Value
  read_reply m eof zero strict s = out_of_fuel
  read_reply m eof (suc f) strict [] = replied (err eof) []
  read_reply m eof (suc f) strict (p ∷ s) = read_kind m eof (read_values m eof f) strict p s

  pub read_values : Memory → Error → ℕ → ℕ → Bytes → Outcome Values
  read_values m eof zero n s = out_of_fuel
  read_values m eof (suc f) zero s = replied (ok no_values) s
  read_values m eof (suc f) (suc n) s =
      then_values (read_values m eof f n) (read_reply m eof f false s)

-- fmt.Fprintf(conn, "*%d\r\n", n) and the like
unfoldable pub header : ℕ → ℕ → Bytes
unfolding digits
header kind n = kind ∷ (digits digit_fuel n ++ (b'\r' ∷ b'\n' ∷ []))

abbrev pub crlf : Bytes
crlf = b'\r' ∷ b'\n' ∷ []

module _ {W : Type 0} (write : Bytes → W → Err × W) where
  -- One write, and what follows it if it does not fail.
  unfoldable pub then_write : Bytes → (W → Err × W) → W → Err × W
  then_write s next w = let (e, w') = write s w in elim e [ none ↦ next w' | some x ↦ (some x, w') ]

  unfoldable pub write_args : List Arg → W → Err × W
  unfolding then_write header
  write_args [] w = (none, w)
  write_args (a ∷ as') w =
      let part = arg_bytes a in
      then_write (header b'$' (length part)) (then_write part (then_write crlf (write_args as'))) w

  -- writeRedisCommand
  unfoldable pub write_command : List Arg → W → Err × W
  unfolding write_args
  write_command args = then_write (header b'*' (length args)) (write_args args)
