-- ===== src/Int64/Decimal/RoundTrip.antt =====
-- Every int64 is read back from its decimal print.
use chobits.Prelude.{
  ℕ, zero, suc, ◌+◌, ◌-◌, ◌*◌, ◌/◌, ◌%◌, ◌≤◌, ◌<◌, ◌≡◌, ap, ◌∙◌, true, false, [], ◌∷◌, ◌++◌, Bytes,
  arith, ltb, Bool-cases, inl, inr,
}
use chobits.Int64.{ℤ, pos, negsuc, IsInt64, full_range}
use chobits.Int64.Decimal.{digits, digit_fuel, format_int, scanned, scan, parsed, parse_int, signed}

-- 10 ^ f
abbrev bound : ℕ → ℕ
bound zero = 1
bound (suc f) = 10 * bound f

-- Appending one decimal digit to a text that scans to `m`.
scan_last :
    (acc m d : ℕ) (s : Bytes)
    → scan acc s ≡ scanned m
    → d < 10
    → m * 10 + d < full_range
    → scan acc (s ++ (b'0' + d) ∷ []) ≡ scanned (m * 10 + d)
unfolding scan
scan_last acc m d [] e h fits = ground arith
scan_last acc m d (c ∷ s) e h fits = ground (arith, scan_last (acc * 10 + (c - b'0')) m d s)

scan_digit : (d : ℕ) → d < 10 → scan 0 ((b'0' + d) ∷ []) ≡ scanned d
unfolding scan
scan_digit d h = ground arith

bound_pos : (f : ℕ) → 1 < bound f → 0 < f
bound_pos zero h = absurd (omega arith)
bound_pos (suc f) h = omega arith

scan-digits : (f n : ℕ) → n < bound f → 0 < f → n < full_range → scan 0 (digits f n) ≡ scanned n
unfolding digits
scan-digits zero n h p fits = absurd (omega arith)
scan-digits (suc f) n h p fits = elim (Bool-cases (ltb n 10)) [
  | inl small ↦ rw small (scan_digit n (ground arith))
  | inr large ↦ rw large (
      scan_last 0 (n / 10) (n % 10) (digits f (n / 10))
        (scan-digits f (n / 10) (omega arith) (bound_pos f (ground arith)) (omega arith))
        (omega arith) (omega arith)
      ∙ ap scanned (omega arith))
]

-- A print begins with a digit.
abbrev BeginsWithDigit : Bytes → Type 0
BeginsWithDigit s = (c : ℕ) × (rest : Bytes) × (s ≡ c ∷ rest) × (b'0' ≤ c) × (c ≤ b'9')

digits-BeginsWithDigit : (f n : ℕ) → n < bound (suc f) → BeginsWithDigit (digits (suc f) n)
unfolding digits
digits-BeginsWithDigit zero n h = (b'0' + n, [], ground arith, omega arith, omega arith)
digits-BeginsWithDigit (suc f) n h = elim (Bool-cases (ltb n 10)) [
  | inl small ↦ (b'0' + n, [], rw small, omega arith, ground arith)
  | inr large ↦
      let (c, rest, e, lo, hi) = digits-BeginsWithDigit f (n / 10) (omega arith) in
      (c, rest ++ (b'0' + n % 10) ∷ [], rw (large, e), lo, hi)
]

module _ (n : ℕ) (s : Bytes) (digit : BeginsWithDigit s) (reads : scan 0 s ≡ scanned n) where
  parse_int-print : parse_int s ≡ signed false (scanned n)
  unfolding parse_int
  parse_int-print = let (c, rest, e, lo, hi) = digit in rw e (ground arith)

  parse_int-minus : parse_int (b'-' ∷ s) ≡ signed true (scanned n)
  unfolding parse_int
  parse_int-minus = let (c, rest, e, lo, hi) = digit in rw e (ground arith)

abbrev print : ℕ → Bytes
print n = digits digit_fuel n

-- Every int64 is read back from its decimal print.
pub parse_int-format_int : (z : ℤ) → IsInt64 z → parse_int (format_int z) ≡ parsed z
unfolding format_int signed
parse_int-format_int (pos n) h =
    rw
      (parse_int-print n (print n) (digits-BeginsWithDigit 19 n (omega arith))
        (scan-digits 20 n (omega arith) (omega arith) (omega arith)))
      (ground arith)
parse_int-format_int (negsuc n) h =
    rw
      (parse_int-minus (suc n) (print (suc n)) (digits-BeginsWithDigit 19 (suc n) (omega arith))
        (scan-digits 20 (suc n) (omega arith) (omega arith) (omega arith)))
      (ground arith)
