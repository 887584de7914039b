-- ===== src/Cache/Redis/Millis.antt =====
-- Times to live in the milliseconds of the server.
use chobits.Prelude.{
  ℕ, ◌+◌, ◌*◌, ◌/◌, ◌<◌, ◌≡◌, refl, inl, inr, [], ◌∷◌, codes, ok, arith, Bool-cases, ltb,
  if◌then◌else◌,
}
use chobits.Int64.{pos, half_range, wrap64_fits}
use chobits.Cache.Redis.{
  int, text, signed, milliseconds, ttl_millis, of_millis, expiry_args, ttl_of, redis_int64,
}

-- The milliseconds that stand for a positive time to live.
abbrev pub shown : ℕ → ℕ
shown n = if ltb n 1000000 then 1 else n / 1000000

ttl_millis-shown : (n : ℕ) → 0 < n → ttl_millis (pos n) ≡ pos (shown n)
unfolding ttl_millis milliseconds
ttl_millis-shown n h = ground arith

of_millis_fits : (k : ℕ) → k * 1000000 < half_range → of_millis (pos k) ≡ pos (k * 1000000)
unfolding of_millis
of_millis_fits k h = wrap64_fits (pos (k * 1000000)) h

ttl_of_int : (k : ℕ) → k * 1000000 < half_range → ttl_of (ok (int (pos k))) ≡ ok (pos (k * 1000000))
unfolding ttl_of redis_int64
ttl_of_int k h = rw (of_millis_fits k h) refl

-- A positive time to live is sent as a positive number `k` of milliseconds, so that the server never
-- keeps the key for ever: as many as are in it, or one if it is shorter than one. A TTL that the
-- server replies as `k` is read back as `k` milliseconds, with no overflow, and differs from the
-- time to live by less than a millisecond.
pub expiry_args-ttl_of :
    (n : ℕ)
    → 0 < n
    → n < half_range
    → (k : ℕ) × (expiry_args (pos n) ≡ text (codes "PX") ∷ signed (pos k) ∷ [])
      × (0 < k)
      × (ttl_of (ok (int (pos k))) ≡ ok (pos (k * 1000000)))
      × (n < k * 1000000 + 1000000)
      × (k * 1000000 < n + 1000000)
unfolding expiry_args
expiry_args-ttl_of n h fits = elim (Bool-cases (ltb n 1000000)) [
  | inl e ↦ (
    1,
    ground (arith, ttl_millis-shown n),
    omega arith,
    ttl_of_int 1 (omega arith),
    ground arith,
    ground arith,
  )
  | inr e ↦ (
    n / 1000000,
    ground (arith, ttl_millis-shown n),
    ground arith,
    ttl_of_int (n / 1000000) (ground arith),
    ground arith,
    ground arith,
  )
]
