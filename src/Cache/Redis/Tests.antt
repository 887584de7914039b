-- ===== src/Cache/Redis/Tests.antt =====
-- Replies, commands and calls of the Redis client at concrete streams, and the theorems there.
use chobits.Prelude.{
  ℕ, ◌+◌, ◌*◌, ◌<◌, ◌≡◌, refl, true, some, List, [], ◌∷◌, ◌++◌, codes, ok, err, arith,
}
use chobits.Int64.{pos, negsuc}
use chobits.Int64.Decimal.{format_int, digits}
use chobits.Cache.{Error, failure, command}
use chobits.Cache.Redis.{
  Arg, text, signed, arg_bytes, int, bytes, nil, array, no_values, value, expiry_args, ttl_of,
}
use chobits.Cache.Redis.Wire.{
  Memory, replied, read_reply, write_command, write_args, then_write, header,
}
use chobits.Cache.Redis.Protocol.{
  Reply, integer, bulk, null_bulk, list, error, none_left, reply, encode, count, is_line, IsWhole,
  value_of, is_null, result_of, read_reply-encode,
}
use chobits.Cache.Redis.Fuel.{Ends, read_reply-Ends}
use chobits.Cache.Redis.Framing.{append, strings, read_reply-write_command}
use chobits.Cache.Redis.Conn.{Account, opened, call}
use chobits.Cache.Redis.Leftover.{stream, call-leftover}
use chobits.Cache.Redis.Millis.{expiry_args-ttl_of}

abbrev memory : Memory
memory = record { max_bytes = 1000; max_values = 100 }

abbrev eof : Error
eof = failure 0

-- An array of a string with a line end in it, a number and a null.
abbrev sample : Reply
sample =
    list (reply (bulk (codes "a\r\nb")) (reply (integer (negsuc 4)) (reply null_bulk none_left)))

encode_test : encode sample ≡ codes "*3\r\n$4\r\na\r\nb\r\n:-5\r\n$-1\r\n"
unfolding encode count format_int digits
encode_test = refl

read_reply-encode_example :
    read_reply memory eof 100 true (encode sample ++ codes "+PONG\r\n")
    ≡ replied
        (ok (array (value (bytes (codes "a\r\nb")) (value (int (negsuc 4)) (value nil no_values)))))
        (codes "+PONG\r\n")
unfolding IsWhole encode count value_of is_null result_of format_int digits
read_reply-encode_example =
    read_reply-encode memory eof sample 100 true (codes "+PONG\r\n") (omega arith) (omega arith)

-- A string that claims to be longer than the stream.
read_reply-Ends_example : Ends 8 (read_reply memory eof 17 true (codes "$500\r\nab"))
read_reply-Ends_example = read_reply-Ends memory eof 17 true (codes "$500\r\nab") (omega arith)

abbrev command_args : List Arg
command_args = text (codes "GET") ∷ text (codes "k\r\nDEL x") ∷ signed (pos 12) ∷ []

read_reply-write_command_example :
    read_reply memory eof 200 true ((write_command append command_args []).1 ++ codes "*1\r\n")
    ≡ replied (ok (array (strings command_args))) (codes "*1\r\n")
unfolding arg_bytes write_command write_args then_write append header format_int digits
read_reply-write_command_example =
    read_reply-write_command memory eof command_args 200 (codes "*1\r\n") (omega arith)
      (omega arith) (omega arith) (omega arith)

abbrev account : Account
account = record { username = []; password = codes "pw"; db = pos 2 }

call-leftover_example :
    let s =
      encode (list (reply (error (codes "ERR")) (reply (integer (pos 1)) none_left)))
      ++ codes ":9\r\n" in
    let first =
      call
        (stream memory eof)
        account
        (text (codes "EXEC") ∷ [])
        (opened (stream memory eof) account s) in
    let second =
      call (stream memory eof) account (text (codes "INCR") ∷ text (codes "n") ∷ []) first.1 in
    (first.0 ≡ some (err (command (codes "ERR"))))
    × (first.1.connected ≡ true)
    × (second.0 ≡ some (ok (int (pos 1))))
unfolding is_line IsWhole result_of value_of is_null
call-leftover_example =
    call-leftover memory eof account (text (codes "EXEC")) (text (codes "INCR")) []
      (text (codes "n") ∷ []) (codes "ERR") (codes ":9\r\n") (integer (pos 1)) refl (omega arith)
      (omega arith)

expiry_args-ttl_of_example :
    (k : ℕ) × (expiry_args (pos 2500000) ≡ text (codes "PX") ∷ signed (pos k) ∷ [])
    × (0 < k)
    × (ttl_of (ok (int (pos k))) ≡ ok (pos (k * 1000000)))
    × (2500000 < k * 1000000 + 1000000)
    × (k * 1000000 < 2500000 + 1000000)
expiry_args-ttl_of_example = expiry_args-ttl_of 2500000 (omega arith) (omega arith)
