-- ===== src/Cache/Redis/Framing.antt =====
-- Commands on the wire: an array of bulk strings, whatever bytes the arguments hold.
use mathlib.Core.List.{append_assoc, append-nil}
use chobits.Prelude.{
  ℕ, suc, ◌+◌, ◌*◌, ◌≤◌, ◌<◌, ◌≡◌, refl, sym, ◌∙◌, ap, true, none, List, [], ◌∷◌, ◌++◌, Bytes, ok,
  length,
}
use chobits.Int64.{half_range}
use chobits.Int64.Decimal.{format_int}
use chobits.Cache.{Error, Err}
use chobits.Cache.Redis.{Arg, arg_bytes, Values, bytes, array, no_values, value}
use chobits.Cache.Redis.Wire.{
  Memory, replied, then_write, write_args, write_command, header, read_reply,
}
use chobits.Cache.Redis.Protocol.{
  Replies, bulk, list, none_left, reply, count, encode, encode_all, IsWhole, AreWhole, value_of,
  values_of, result_of, read_reply-encode,
}

-- A connection that takes every write: the world is what was written.
unfoldable pub append : Bytes → Bytes → Err × Bytes
append s w = (none, w ++ s)

-- A command as the protocol writes it.
unfoldable pub bulks : List Arg → Replies
bulks [] = none_left
bulks (a ∷ as') = reply (bulk (arg_bytes a)) (bulks as')

-- The arguments as the strings of an array.
unfoldable pub strings : List Arg → Values
strings [] = no_values
strings (a ∷ as') = value (bytes (arg_bytes a)) (strings as')

-- Every argument fits in the reader's memory.
abbrev pub Fit : Memory → List Arg → Type 0
Fit m [] = Unit {0}
Fit m (a ∷ as') =
    (length (arg_bytes a) + 2 ≤ m.max_bytes) × (length (arg_bytes a) < half_range) × Fit m as'

count-bulks : (as' : List Arg) → count (bulks as') ≡ length as'
unfolding count bulks
count-bulks [] = refl
count-bulks (a ∷ as') = ap suc (count-bulks as')

values_of-bulks : (as' : List Arg) → values_of (bulks as') ≡ strings as'
unfolding values_of bulks strings
values_of-bulks [] = refl
values_of-bulks (a ∷ as') = ap (value (bytes (arg_bytes a))) (values_of-bulks as')

bulks-AreWhole : (m : Memory) (as' : List Arg) → Fit m as' → AreWhole m (bulks as')
unfolding AreWhole bulks
bulks-AreWhole m [] h = tt
bulks-AreWhole m (a ∷ as') h = ((h.0, h.1), bulks-AreWhole m as' h.2)

write_args-bulks :
    (as' : List Arg) (w : Bytes) → write_args append as' w ≡ (none, w ++ encode_all (bulks as'))
unfolding write_args then_write append encode bulks header format_int
write_args-bulks [] w = ap (λ (s : Bytes). (none, s)) (sym (append-nil w))
write_args-bulks (a ∷ as') w = simp (write_args-bulks as' _, append_assoc) refl

-- What writeRedisCommand writes.
write_command-bulks :
    (as' : List Arg) → write_command append as' [] ≡ (none, encode (list (bulks as')))
unfolding write_command then_write append encode header format_int
write_command-bulks as' = simp (write_args-bulks as' _, count-bulks as', append_assoc) refl

-- A reader of the protocol that reads what writeRedisCommand wrote, with anything after it, gets
-- exactly the arguments, byte for byte, and stops where the command ends: no key and no value can
-- end a command early or begin another one.
pub read_reply-write_command :
    (m : Memory) (eof : Error) (as' : List Arg) (f : ℕ) (rest : Bytes)
    → Fit m as'
    → length as' ≤ m.max_values
    → length as' < half_range
    → 2 * length (write_command append as' []).1 < f
    → read_reply m eof f true ((write_command append as' []).1 ++ rest)
      ≡ replied (ok (array (strings as'))) rest
unfolding IsWhole result_of value_of
read_reply-write_command m eof as' f rest fit few short fuel =
    let written = ap (λ r. r.1) (write_command-bulks as') in
    let whole : IsWhole m (list (bulks as')) =
      (rw (count-bulks as') few, rw (count-bulks as') short, bulks-AreWhole m as' fit) in
    ap (λ s. read_reply m eof f true (s ++ rest)) written
    ∙ read_reply-encode m eof (list (bulks as')) f true rest whole (rw written at fuel)
    ∙ ap (λ vs. replied (ok (array vs)) rest) (values_of-bulks as')
