-- ===== src/Cache/Redis/Fuel.antt =====
-- How much of the stream the reader takes, and the fuel that it needs.
use chobits.Prelude.{
  ℕ, zero, suc, ◌+◌, ◌*◌, ◌≤◌, ◌<◌, ◌≡◌, ◌≢◌, refl, Bool, true, false, Option, none, some, [], ◌∷◌,
  if◌then◌else◌, ◌==◌, ltb, Bytes, Result, ok, err, length, arith, Bool-cases, Option-cases, inl,
  inr,
}
use chobits.Int64.{ℤ, pos, negsuc}
use chobits.Text.{cut}
use chobits.Cache.{Error}
use chobits.Cache.Redis.{Value, Values}
use chobits.Cache.Redis.Wire.{
  Memory, Outcome, replied, panicked, out_of_fuel, read_line, parse_line, read_number, split_at,
  end_bulk, take_bulk, to_array, read_bulk, read_array, read_kind, read_reply, read_values,
  then_text, then_command, then_int, then_nil, then_bool, then_values, cons_value, nil_reply,
}

-- The call kept within its fuel, and if it read a value, less than `n` bytes are left.
pub data Ends {A : Type 0} (n : ℕ) : Outcome A → Type 0 where
  got : {a : A} {rest : Bytes} → length rest < n → Ends n (replied (ok a) rest)
  failed : {e : Error} {rest : Bytes} → Ends n (replied (err e) rest)
  panics : Ends n panicked

Ends-ne-out_of_fuel : {A : Type 0} {n : ℕ} {o : Outcome A} → Ends n o → o ≢ out_of_fuel
Ends-ne-out_of_fuel (got h) = cc
Ends-ne-out_of_fuel failed = cc
Ends-ne-out_of_fuel panics = cc

cut_shorter : (c : ℕ) (s a b : Bytes) → cut c s ≡ some (a, b) → length b ≤ length s
unfolding cut
cut_shorter c [] a b h = cc
cut_shorter c (x ∷ s) a b h = elim (Bool-cases (x == c)) [
  | inl e ↦ ground arith
  | inr e ↦ elim (Option-cases (cut c s)) [
    | inl n ↦ ground arith
    | inr ((a', b'), eq) ↦ ground (arith, cut_shorter c s a' b' eq)
  ]
]

read_line_shorter : (eof : Error) (s : Bytes) → length (read_line eof s).1 ≤ length s
unfolding read_line
read_line_shorter eof s = elim (Option-cases (cut b'\n' s)) [
  | inl e ↦ ground arith
  | inr ((a, b), e) ↦ ground (arith, cut_shorter b'\n' s a b e)
]

parse_line_rest : (p : Result Error Bytes × Bytes) → (parse_line p).1 ≡ p.1
unfolding parse_line
parse_line_rest (ok l, rest) = refl
parse_line_rest (err e, rest) = refl

read_number_shorter : (eof : Error) (s : Bytes) → length (read_number eof s).1 ≤ length s
unfolding read_number
read_number_shorter eof s = rw (parse_line_rest (read_line eof s)) (read_line_shorter eof s)

split_at_shorter : (n : ℕ) (s a b : Bytes) → split_at n s ≡ some (a, b) → length b ≤ length s
unfolding split_at
split_at_shorter zero s a b h = ground arith
split_at_shorter (suc n) [] a b h = cc
split_at_shorter (suc n) (x ∷ s) a b h = elim (Option-cases (split_at n s)) [
  | inl e ↦ ground arith
  | inr ((a', b'), eq) ↦ ground (arith, split_at_shorter n s a' b' eq)
]

-- What follows a line ends, whatever the line was.
Ends-then_text :
    (p : Result Error Bytes × Bytes) (n : ℕ) → length p.1 ≤ n → Ends (suc n) (then_text p)
unfolding then_text
Ends-then_text (ok l, rest) n h = got (omega arith)
Ends-then_text (err e, rest) n h = failed

Ends-then_command : (p : Result Error Bytes × Bytes) (n : ℕ) → Ends (suc n) (then_command p)
unfolding then_command
Ends-then_command (ok l, rest) n = failed
Ends-then_command (err e, rest) n = failed

Ends-then_int : (p : Result Error ℤ × Bytes) (n : ℕ) → length p.1 ≤ n → Ends (suc n) (then_int p)
unfolding then_int
Ends-then_int (ok z, rest) n h = got (omega arith)
Ends-then_int (err e, rest) n h = failed

Ends-nil_reply :
    (strict : Bool) (rest : Bytes) (n : ℕ)
    → length rest ≤ n
    → Ends (suc n) (replied (nil_reply strict) rest)
unfolding nil_reply
Ends-nil_reply true rest n h = failed
Ends-nil_reply false rest n h = got (omega arith)

Ends-then_nil :
    (strict : Bool) (p : Result Error Bytes × Bytes) (n : ℕ)
    → length p.1 ≤ n
    → Ends (suc n) (then_nil strict p)
unfolding then_nil
Ends-then_nil strict (ok l, rest) n h = Ends-nil_reply strict rest n h
Ends-then_nil strict (err e, rest) n h = failed

Ends-then_bool :
    (p : Result Error Bytes × Bytes) (n : ℕ) → length p.1 ≤ n → Ends (suc n) (then_bool p)
unfolding then_bool
Ends-then_bool (ok l, rest) n h = got (omega arith)
Ends-then_bool (err e, rest) n h = failed

Ends-if :
    {A : Type 0} {n : ℕ} (b : Bool) {x y : Outcome A}
    → Ends n x
    → Ends n y
    → Ends n (if b then x else y)
Ends-if true hx hy = hx
Ends-if false hx hy = hy

Ends-end_bulk :
    (eof : Error) (body s : Bytes) (o : Option (Bytes × Bytes)) (n : ℕ)
    → split_at 2 s ≡ o
    → length s ≤ n
    → Ends (suc n) (end_bulk eof body o)
unfolding end_bulk
Ends-end_bulk eof body s none n e h = failed
Ends-end_bulk eof body s (some (a, rest)) n e h = got (omega (arith, split_at_shorter 2 s a rest e))

Ends-take_bulk :
    (eof : Error) (k : ℕ) (s : Bytes) (o : Option (Bytes × Bytes)) (n : ℕ)
    → split_at k s ≡ o
    → length s ≤ n
    → Ends (suc n) (take_bulk eof o)
unfolding take_bulk
Ends-take_bulk eof k s none n e h = failed
Ends-take_bulk eof k s (some (body, rest)) n e h =
    Ends-end_bulk eof body rest (split_at 2 rest) n refl
      (omega (arith, split_at_shorter k s body rest e))

Ends-to_array : {n k : ℕ} {o : Outcome Values} → Ends n o → n ≤ k → Ends k (to_array o)
unfolding to_array
Ends-to_array (got h) le = got (omega arith)
Ends-to_array failed le = failed
Ends-to_array panics le = panics

Ends-cons_value : {n : ℕ} (v : Value) {o : Outcome Values} → Ends n o → Ends n (cons_value v o)
unfolding cons_value
Ends-cons_value v (got h) = got h
Ends-cons_value v failed = failed
Ends-cons_value v panics = panics

Ends_le : {A : Type 0} {n k : ℕ} {o : Outcome A} → Ends n o → n ≤ k → Ends k o
Ends_le (got h) le = got (omega arith)
Ends_le failed le = failed
Ends_le panics le = panics

-- The values after a value: what the value left is less than the whole.
Ends-then_values :
    {n : ℕ} (next : Bytes → Outcome Values) {o : Outcome Value}
    → Ends n o
    → ((rest : Bytes) → length rest < n → Ends (suc (length rest)) (next rest))
    → Ends (suc n) (then_values next o)
unfolding then_values
Ends-then_values next (got {a = v} {rest} h) more =
    Ends_le (Ends-cons_value v (more rest h)) (omega arith)
Ends-then_values next failed more = failed
Ends-then_values next panics more = panics

module _ (m : Memory) (eof : Error) where
  Ends-read_bulk :
      (strict : Bool) (r : Result Error ℤ) (s : Bytes) (n : ℕ)
      → length s ≤ n
      → Ends (suc n) (read_bulk m eof strict r s)
  unfolding read_bulk
  Ends-read_bulk strict (err e) s n h = failed
  Ends-read_bulk strict (ok (negsuc k)) s n h = Ends-nil_reply strict s n h
  Ends-read_bulk strict (ok (pos k)) s n h =
      Ends-if (ltb m.max_bytes (k + 2)) panics (Ends-take_bulk eof k s (split_at k s) n refl h)

  Ends-read_array :
      (read : ℕ → Bytes → Outcome Values) (strict : Bool) (r : Result Error ℤ) (s : Bytes) (n : ℕ)
      → length s ≤ n
      → ((k : ℕ) → Ends (suc (length s)) (read k s))
      → Ends (suc n) (read_array m read strict r s)
  unfolding read_array
  Ends-read_array read strict (err e) s n h reads = failed
  Ends-read_array read strict (ok (negsuc k)) s n h reads = Ends-nil_reply strict s n h
  Ends-read_array read strict (ok (pos k)) s n h reads =
      Ends-if (ltb m.max_values k) panics (Ends-to_array (reads k) (omega arith))

  Ends-read_kind :
      (read : ℕ → Bytes → Outcome Values) (strict : Bool) (p : ℕ) (s : Bytes)
      → ((k : ℕ) (rest : Bytes) → length rest ≤ length s → Ends (suc (length rest)) (read k rest))
      → Ends (suc (length s)) (read_kind m eof read strict p s)
  unfolding read_kind
  Ends-read_kind read strict p s reads =
      let line = read_line_shorter eof s in
      let number = read_number_shorter eof s in
      let (r, rest) = read_number eof s in
      Ends-if (p == b'+') (Ends-then_text (read_line eof s) (length s) line) (
        Ends-if (p == b'-') (Ends-then_command (read_line eof s) (length s)) (
          Ends-if (p == b':') (Ends-then_int (read_number eof s) (length s) number) (
            Ends-if (p == b'$') (Ends-read_bulk strict r rest (length s) number) (
              Ends-if (p == b'*')
                (Ends-read_array read strict r rest (length s) number (λ k. reads k rest number))
                (Ends-if (p == b'_') (Ends-then_nil strict (read_line eof s) (length s) line) (
                  Ends-if (p == b'#') (Ends-then_bool (read_line eof s) (length s) line)
                    failed))))))

  mutual
    unfolding read_reply

    Ends-reply :
        (f : ℕ) (strict : Bool) (s : Bytes)
        → 2 * length s < f
        → Ends (length s) (read_reply m eof f strict s)
    Ends-reply zero strict s h = absurd (omega arith)
    Ends-reply (suc f) strict [] h = failed
    Ends-reply (suc f) strict (p ∷ s) h =
        Ends-read_kind (read_values m eof f) strict p s
          (λ k rest le. Ends-values f k rest (omega arith))

    Ends-values :
        (f n : ℕ) (s : Bytes)
        → 2 * length s + 1 < f
        → Ends (suc (length s)) (read_values m eof f n s)
    Ends-values zero n s h = absurd (omega arith)
    Ends-values (suc f) zero s h = got (omega arith)
    Ends-values (suc f) (suc n) s h =
        Ends-then_values (read_values m eof f n) (Ends-reply f false s (omega arith))
          (λ rest lt. Ends-values f n rest (omega arith))

  -- Whatever the server sends, and however long it says that its strings and arrays are, the reader
  -- ends, with a value, an error or a panic: fuel above twice the length of the stream never runs
  -- out, and a reply that is read leaves less than it found.
  pub read_reply-Ends :
      (f : ℕ) (strict : Bool) (s : Bytes)
      → 2 * length s < f
      → Ends (length s) (read_reply m eof f strict s)
  read_reply-Ends f strict s h = Ends-reply f strict s h
