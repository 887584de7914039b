-- ===== src/Cache/Prefix.antt =====
-- cache/prefix.go: a store whose keys get a prefix.
pub mod Refinement
use chobits.Prelude.{ℕ, Bool, [], ◌∷◌, Bytes}
use chobits.Int64.{ℤ}
use chobits.Text.Trim.{trim_space}
use chobits.Cache.{Err, Exec, Cache}
use chobits.Cache.Key.{key}

pub record Prefixed (S : Type 0) : Type 0 where
  pub store : Cache S
  pub prefix : Bytes

module _ {S : Type 0} where
  unfoldable pub new_prefixed : Cache S → Bytes → Prefixed S
  new_prefixed store prefix = record { store = store; prefix = prefix }

  unfoldable pub full_key : Prefixed S → Bytes → Bytes
  full_key p k = key p.prefix k

  unfoldable pub get : Prefixed S → ℕ → Bytes → Exec S Bytes
  get p now k = p.store.get now (full_key p k)

  unfoldable pub set : Prefixed S → ℕ → Bytes → Bytes → ℤ → S → Err × S
  set p now k x ttl = p.store.set now (full_key p k) x ttl

  unfoldable pub take : Prefixed S → ℕ → Bytes → Exec S Bytes
  take p now k = p.store.take now (full_key p k)

  unfoldable pub exists : Prefixed S → ℕ → Bytes → Exec S Bool
  exists p now k = p.store.exists now (full_key p k)

  unfoldable pub increment : Prefixed S → ℕ → Bytes → ℤ → ℤ → Exec S ℤ
  increment p now k delta ttl = p.store.increment now (full_key p k) delta ttl

  unfoldable pub ttl : Prefixed S → ℕ → Bytes → Exec S ℤ
  ttl p now k = p.store.ttl now (full_key p k)

  unfoldable pub drop : Prefixed S → Bytes → S → Err × S
  drop p k = p.store.delete (full_key p k)

  unfoldable pub close : Prefixed S → S → Err × S
  close p = p.store.close

  abbrev pub prefixed_cache : Prefixed S → Cache S
  prefixed_cache p = record {
    get = get p;
    set = set p;
    take = take p;
    exists = exists p;
    increment = increment p;
    ttl = ttl p;
    delete = drop p;
    close = close p;
  }

  abbrev unless_blank : Bytes → Cache S → Cache S → Cache S
  unless_blank [] store other = store
  unless_blank (_ ∷ _) store other = other

  -- A blank prefix leaves the store as it is.
  unfoldable pub with_store_prefix : Cache S → Bytes → Cache S
  unfolding new_prefixed trim_space
  with_store_prefix store prefix =
      unless_blank (trim_space prefix) store (prefixed_cache (new_prefixed store prefix))
