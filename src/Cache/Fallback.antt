-- ===== src/Cache/Fallback.antt =====
-- cache/fallback.go: a primary store with another behind it, either of which may be nil.
-- The two stores live in one world, so they may also share what they store. A call hands each
-- store its own clock reading.
pub mod Worlds
pub mod Outage
pub mod Twins
use chobits.Prelude.{
  ℕ, Bool, true, false, ◌&&◌, not, Option, none, some, Bytes, Result, ok, err, if◌then◌else◌,
}
use chobits.Int64.{ℤ}
use chobits.Int64.Decimal.{format_int}
use chobits.Cache.{Error, miss, Err, is_miss, join, Exec, Cache}

pub record Fallback (S : Type 0) : Type 0 where
  pub primary : Option (Cache S)
  pub fallback : Option (Cache S)

unfoldable pub new_fallback : {S : Type 0} → Option (Cache S) → Option (Cache S) → Fallback S
new_fallback primary fallback = record { primary = primary; fallback = fallback }

module _ {S A : Type 0} where
  -- What a read does without a fallback, given what the primary store said.
  unfoldable pub alone : Option (Result Error A) → Exec S A
  alone none s = (err miss, s)
  alone (some (ok a)) s = (ok a, s)
  alone (some (err e)) s = if is_miss e then (err miss, s) else (err e, s)

  -- `read` is Get or TTL: the fallback is asked whenever the primary store fails.
  unfoldable pub ask_second : (Cache S → Exec S A) → Option (Cache S) → Result Error A → Exec S A
  unfolding alone
  ask_second read second (ok a) s = (ok a, s)
  ask_second read none (err e) s = alone (some (err e)) s
  ask_second read (some f) (err e) s = read f s

  unfoldable pub ask : (Cache S → Exec S A) → (Cache S → Exec S A) → Fallback S → Exec S A
  unfolding ask_second alone
  ask first second c s = elim c.primary [
    | some p ↦ let (r, s') = first p s in ask_second second c.fallback r s'
    | none ↦ elim c.fallback [ none ↦ alone none s | some f ↦ second f s ]
  ]

module _ {S : Type 0} where
  unfoldable pub get : Fallback S → ℕ → ℕ → Bytes → Exec S Bytes
  unfolding ask
  get c now now' k = ask (λ p. p.get now k) (λ f. f.get now' k) c

  unfoldable pub ttl : Fallback S → ℕ → ℕ → Bytes → Exec S ℤ
  unfolding ask
  ttl c now now' k = ask (λ p. p.ttl now k) (λ f. f.ttl now' k) c

  -- Set, Delete and Close go to both stores, and join what fails.
  unfoldable pub to_second : (Cache S → S → Err × S) → Option (Cache S) → Err → S → Err × S
  to_second write none result s = (result, s)
  to_second write (some f) result s = let (e, s') = write f s in (join result e, s')

  unfoldable pub both : (Cache S → S → Err × S) → (Cache S → S → Err × S) → Fallback S → S → Err × S
  unfolding to_second
  both first second c s = elim c.primary [
    | none ↦ to_second second c.fallback none s
    | some p ↦ let (e, s') = first p s in to_second second c.fallback (join none e) s'
  ]

  unfoldable pub set : Fallback S → ℕ → ℕ → Bytes → Bytes → ℤ → S → Err × S
  unfolding both
  set c now now' k x life = both (λ p. p.set now k x life) (λ f. f.set now' k x life) c

  unfoldable pub drop : Fallback S → Bytes → S → Err × S
  unfolding both
  drop c k = both (λ p. p.delete k) (λ f. f.delete k) c

  unfoldable pub close : Fallback S → S → Err × S
  unfolding both
  close c = both (λ p. p.close) (λ f. f.close) c

  -- A value taken from the primary store is deleted from the fallback, whose error is dropped.
  unfoldable pub taken : Option (Cache S) → ℕ → Bytes → Result Error Bytes → Exec S Bytes
  unfolding alone
  taken none now k (ok x) s = (ok x, s)
  taken (some f) now k (ok x) s = let (e, s') = f.delete k s in (ok x, s')
  taken none now k (err e) s = alone (some (err e)) s
  taken (some f) now k (err e) s = f.take now k s

  unfoldable pub take : Fallback S → ℕ → ℕ → Bytes → Exec S Bytes
  unfolding taken
  take c now now' k s = elim c.primary [
    | some p ↦ let (r, s') = p.take now k s in taken c.fallback now' k r s'
    | none ↦ elim c.fallback [ none ↦ (err miss, s) | some f ↦ f.take now' k s ]
  ]

  -- `false` with no error, and `false` with one, both pass on to the fallback.
  unfoldable pub existing : Option (Cache S) → ℕ → Bytes → Result Error Bool → Exec S Bool
  existing second now k (ok true) s = (ok true, s)
  existing none now k (ok false) s = (ok false, s)
  existing none now k (err e) s = (err e, s)
  existing (some f) now k (ok false) s = f.exists now k s
  existing (some f) now k (err e) s = f.exists now k s

  unfoldable pub exists : Fallback S → ℕ → ℕ → Bytes → Exec S Bool
  unfolding existing
  exists c now now' k s = elim c.primary [
    | some p ↦ let (r, s') = p.exists now k s in existing c.fallback now' k r s'
    | none ↦ elim c.fallback [ none ↦ (ok false, s) | some f ↦ f.exists now' k s ]
  ]

  -- A count of the primary store is copied to the fallback, whose error is dropped.
  unfoldable pub counted : Option (Cache S) → ℕ → Bytes → ℤ → ℤ → Result Error ℤ → Exec S ℤ
  counted none now k delta life (ok next) s = (ok next, s)
  counted (some f) now k delta life (ok next) s =
      let (e, s') = f.set now k (format_int next) life s in (ok next, s')
  counted none now k delta life (err e) s = (err e, s)
  counted (some f) now k delta life (err e) s = f.increment now k delta life s

  unfoldable pub increment : Fallback S → ℕ → ℕ → Bytes → ℤ → ℤ → Exec S ℤ
  unfolding counted
  increment c now now' k delta life s = elim c.primary [
    | some p ↦
        let (r, s') = p.increment now k delta life s in counted c.fallback now' k delta life r s'
    | none ↦ elim c.fallback [ none ↦ (err miss, s) | some f ↦ f.increment now' k delta life s ]
  ]
