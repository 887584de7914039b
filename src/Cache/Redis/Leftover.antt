-- ===== src/Cache/Redis/Leftover.antt =====
-- An error inside an array, on a connection that works.
use mathlib.Core.List.{append_assoc, append-nil}
use chobits.Prelude.{
  ℕ, suc, ◌+◌, ◌-◌, ◌*◌, ◌≤◌, ◌<◌, ◌≡◌, refl, ◌∙◌, ap, true, false, none, some, List, [], ◌∷◌, ◌++◌,
  Bytes, Result, ok, err, length, length-append, arith, ltb,
}
use chobits.Int64.{pos, half_range}
use chobits.Cache.{Error, command}
use chobits.Cache.Redis.{Arg, Value, is_redis_nil}
use chobits.Cache.Redis.Wire.{
  Memory, replied, read_reply, read_kind, read_array, to_array, then_values, then_command,
  then_write, write_args, write_command, crlf,
}
use chobits.Cache.Redis.Protocol.{
  Reply, Replies, error, list, none_left, reply, encode, encode_all, count, is_line, IsWhole,
  result_of, read_reply-encode, read_number-crlf, read_line-crlf,
}
use chobits.Cache.Redis.Conn.{
  Net, Account, opened, is_broken, is_command, do_locked, connect_then, keep_or_close, run_command,
  call, receive, take_outcome, unless_error,
}

-- A connection that takes every write. The world is all that the server sends, for this command and
-- for those that follow.
unfoldable pub stream : Memory → Error → Net Bytes
stream m eof = record {
  dial = λ s. (none, s);
  set_deadline = λ s. (none, s);
  write = λ part s. (none, s);
  incoming = λ s. s;
  leave = λ rest s. rest;
  close = λ s. (none, s);
  memory = m;
  eof = eof;
}

write_args-stream :
    (m : Memory) (eof : Error) (as' : List Arg) (s : Bytes)
    → write_args (stream m eof).write as' s ≡ (none, s)
unfolding write_args then_write stream
write_args-stream m eof [] s = refl
write_args-stream m eof (a ∷ as') s = write_args-stream m eof as' s

-- The reader on an array that begins with an error: the other values stay in the stream.
read_error :
    (m : Memory) (eof : Error) (f : ℕ) (e rest : Bytes) (rs : Replies)
    → is_line e ≡ true
    → suc (count rs) ≤ m.max_values
    → suc (count rs) < half_range
    → read_reply m eof (suc (suc (suc f))) true (encode (list (reply (error e) rs)) ++ rest)
      ≡ replied (err (command e)) (encode_all rs ++ rest)
unfolding encode count read_reply read_kind read_array to_array then_values then_command
read_error m eof f e rest rs h fits small =
    let room : ltb m.max_values (suc (count rs)) ≡ false = ground arith in
    simp
      (
        append_assoc,
        read_number-crlf eof (pos (suc (count rs)))
            (b'-' ∷ (e ++ (crlf ++ (encode_all rs ++ rest)))) small,
        room,
        read_line-crlf eof e (encode_all rs ++ rest) h,
      )
      refl

module _ (m : Memory) (eof : Error) (account : Account) where
  -- A call on the open connection, by what the reader makes of the stream.
  call_stream :
      (a : Arg) (args : List Arg) (s rest : Bytes) (r : Result Error Value)
      → read_reply m eof (2 * length s + 1) true s ≡ replied r rest
      → call (stream m eof) account (a ∷ args) (opened (stream m eof) account s)
        ≡ keep_or_close (stream m eof) account (some r, rest)
  unfolding call connect_then run_command do_locked unless_error receive take_outcome write_command
      then_write stream
  call_stream a args s rest r e =
      simp (write_args-stream m eof (a ∷ args) s) (rw (e, take_outcome) refl)

  kept_command :
      (e rest : Bytes)
      → keep_or_close (stream m eof) account (some (err (command e)), rest)
        ≡ (some (err (command e)), opened (stream m eof) account rest)
  unfolding keep_or_close is_broken is_command is_redis_nil
  kept_command e rest = refl

  kept_result :
      (r : Result Error Value) (rest : Bytes)
      → (keep_or_close (stream m eof) account (some r, rest)).0 ≡ some r
  unfolding keep_or_close
  kept_result (ok v) rest = refl
  kept_result (err e) rest = refl

  encode_long :
      (e next : Bytes) (rs : Replies)
      → (f : ℕ) × (2 * length (encode (list (reply (error e) rs)) ++ next) + 1 ≡ suc (suc (suc f)))
  unfolding encode
  encode_long e next rs =
      (2 * length (encode (list (reply (error e) rs)) ++ next) + 1 - 3, omega arith)

  last_encode :
      (r : Reply) (next : Bytes) → encode_all (reply r none_left) ++ next ≡ encode r ++ next
  unfolding encode
  last_encode r next = ap (λ (s : Bytes). s ++ next) (append-nil (encode r))

  -- The first reply is an array that holds an error, and after it a reply `r`. The next reply, in
  -- `next`, is the server's answer to the second command. Then the first call replies the error, the
  -- connection stays open, and the second call replies `r`, whatever its own answer is: from here
  -- on the client is out of step with the server.
  pub call-leftover :
      (a b : Arg) (args args' : List Arg) (e next : Bytes) (r : Reply)
      → is_line e ≡ true
      → 2 ≤ m.max_values
      → IsWhole m r
      → let s = encode (list (reply (error e) (reply r none_left))) ++ next in
        let first = call (stream m eof) account (a ∷ args) (opened (stream m eof) account s) in
        let second = call (stream m eof) account (b ∷ args') first.1 in
        (first.0 ≡ some (err (command e)))
        × (first.1.connected ≡ true)
        × (second.0 ≡ some (result_of true r))
  unfolding count
  call-leftover a b args args' e next r h fits whole =
      let rs = reply r none_left in
      let s = encode (list (reply (error e) rs)) ++ next in
      let rest = encode_all rs ++ next in
      let read_first : read_reply m eof (2 * length s + 1) true s ≡ replied (err (command e)) rest =
        let (f, fuel) = encode_long e next rs in
        rw fuel (read_error m eof f e next rs h (omega arith) (omega arith)) in
      let read_second : read_reply m eof (2 * length rest + 1) true rest
          ≡ replied (result_of true r) next =
        rw (last_encode r next) (
          read_reply-encode m eof r (2 * length (encode r ++ next) + 1) true next whole
            (omega (arith, length-append (encode r) next))) in
      let kept = call_stream a args s rest (err (command e)) read_first ∙ kept_command e rest in
      let next_call = call_stream b args' rest next (result_of true r) read_second in
      (
        ap (λ c. c.0) kept,
        ap (λ c. c.1.connected) kept,
        ap (λ c. (call (stream m eof) account (b ∷ args') c.1).0) kept
            ∙ ap (λ c. c.0) next_call
            ∙ kept_result (result_of true r) next,
      )
