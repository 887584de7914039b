-- ===== src/Int64/Decimal.antt =====
-- strconv.FormatInt(z, 10) and strconv.ParseInt(s, 10, 64).
pub mod RoundTrip
use chobits.Prelude.{
  ℕ, zero, suc, ◌+◌, ◌-◌, ◌*◌, ◌/◌, ◌%◌, ◌≡◌, refl, Bool, ◌||◌, List, [], ◌∷◌, ◌++◌, Bytes, codes,
  ltb, leb, ◌==◌, if◌then◌else◌,
}
use chobits.Int64.{ℤ, pos, negsuc, half_range, full_range}

-- The digits of a number; the fuel bounds their count.
unfoldable pub digits : ℕ → ℕ → Bytes
digits zero n = []
digits (suc f) n =
    let front = digits f (n / 10) in
    if ltb n 10 then (b'0' + n) ∷ [] else front ++ (b'0' + n % 10) ∷ []

-- An int64 has at most 19 digits.
abbrev pub digit_fuel : ℕ
digit_fuel = 20

unfoldable pub format_int : ℤ → Bytes
unfolding digits
format_int (pos n) = digits digit_fuel n
format_int (negsuc n) = b'-' ∷ digits digit_fuel (suc n)

-- A call that fails with ErrRange still returns the nearest int64.
pub data Parsed : Type 0 where
  parsed : ℤ → Parsed
  bad_syntax : Parsed
  out_of_range : ℤ → Parsed

pub data Scan : Type 0 where
  scanned : ℕ → Scan
  not_digit : Scan
  too_big : Scan

-- The loop of ParseUint: `n >= cutoff` is tested before the next digit is added, and the sum
-- is compared with the largest uint64.
unfoldable pub scan : ℕ → Bytes → Scan
scan n [] = scanned n
scan n (c ∷ s) =
    let rest = scan (n * 10 + (c - b'0')) s in
    if ltb c b'0' || ltb b'9' c
    then not_digit
    else if leb 1844674407370955162 n
    then too_big
    else if leb full_range (n * 10 + (c - b'0'))
    then too_big
    else rest

unfoldable pub parse_uint : Bytes → Scan
unfolding scan
parse_uint [] = not_digit
parse_uint (c ∷ s) = scan 0 (c ∷ s)

unfoldable pub signed : Bool → Scan → Parsed
signed neg not_digit = bad_syntax
signed neg too_big = out_of_range (if neg then negsuc (half_range - 1) else pos (half_range - 1))
signed neg (scanned n) =
    if neg
    then (if leb n half_range
        then (if n == 0 then parsed (pos 0) else parsed (negsuc (n - 1)))
        else out_of_range (negsuc (half_range - 1)))
    else if ltb n half_range
    then parsed (pos n)
    else out_of_range (pos (half_range - 1))

unfoldable pub parse_int : Bytes → Parsed
unfolding parse_uint signed
parse_int [] = bad_syntax
parse_int (c ∷ s) =
    if c == b'-'
    then signed Bool.true (parse_uint s)
    else if c == b'+'
    then signed Bool.false (parse_uint s)
    else signed Bool.false (parse_uint (c ∷ s))

parse_lowest : parse_int (codes "-9223372036854775808") ≡ parsed (negsuc 9223372036854775807)
unfolding parse_int
parse_lowest = refl

parse_clamped : parse_int (codes "9223372036854775808") ≡ out_of_range (pos 9223372036854775807)
unfolding parse_int
parse_clamped = refl

parse_junk : (parse_int (codes "12x") ≡ bad_syntax) × (parse_int (codes "") ≡ bad_syntax)
unfolding parse_int
parse_junk = (refl, refl)

format_lowest : format_int (negsuc 9223372036854775807) ≡ codes "-9223372036854775808"
unfolding format_int
format_lowest = refl
