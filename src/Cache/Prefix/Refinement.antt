-- ===== src/Cache/Prefix/Refinement.antt =====
-- The abstract map behind a prefix: the keys of its namespace.
use mathlib.Core.Path.{fun_ext}
use chobits.Prelude.{
  ℕ, zero, suc, ◌≡◌, refl, ◌∙◌, ap, ap₂, subst, Bool, true, false, [], ◌∷◌, ◌++◌, ◌==◌,
  if◌then◌else◌, Bytes, Result, ok, err, arith,
}
use chobits.Int64.{ℤ}
use chobits.Cache.{Error}
use chobits.Text.Trim.{trim_right}
use chobits.Cache.Key.{joined, key, text_eq-key}
use chobits.Cache.Spec.{Entry, View, live, put, remove, incremented, Agrees, Implements}
use chobits.Cache.Prefix.{
  Prefixed, full_key, prefixed_cache, get, set, take, exists, increment, ttl, drop,
}

-- A key in a namespace.
unfoldable pub in_namespace : Bytes → Bytes → Bytes
in_namespace [] k = k
in_namespace (c ∷ base) k = (c ∷ base) ++ b':' ∷ k

unfoldable pub colons : ℕ → Bytes
colons zero = []
colons (suc n) = b':' ∷ colons n

unfoldable pub ends_in_colon : Bytes → Bool
ends_in_colon [] = false
ends_in_colon (a ∷ []) = a == b':'
ends_in_colon (a ∷ b ∷ s) = ends_in_colon (b ∷ s)

without_colons : (s : Bytes) → (n : ℕ) × (s ≡ trim_right b':' s ++ colons n)
unfolding trim_right colons
without_colons [] = (0, refl)
without_colons (a ∷ s) =
    let (n, e) = without_colons s in
    elim (trim_right b':' s)
        as (λ t.
          s ≡ t ++ colons n
          → (m : ℕ) × (a ∷ s
              ≡ (elim t [ [] ↦ if a == b':' then [] else a ∷ [] | b ∷ u ↦ a ∷ b ∷ u ])
                ++ colons m)) [
                  | [] ↦ λ e.
                      elim (a == b':')
                          as (λ c.
                            (a == b':') ≡ c
                            → (m : ℕ) × (a ∷ s ≡ (if c then [] else a ∷ []) ++ colons m)) [
                              | true ↦ λ h. (suc n, ap₂ (λ x (t : Bytes). x ∷ t) (ground arith) e)
                              | false ↦ λ h. (n, ap (λ (t : Bytes). a ∷ t) e)
                            ]
                        refl
                  | b ∷ u ↦ λ e. (n, ap (λ (t : Bytes). a ∷ t) e)
                ]
      e

ends_in_colon-trim_right : (s : Bytes) → ends_in_colon (trim_right b':' s) ≡ false
unfolding trim_right ends_in_colon
ends_in_colon-trim_right [] = refl
ends_in_colon-trim_right (a ∷ s) =
    elim (trim_right b':' s)
        as (λ t.
          ends_in_colon t ≡ false
          → ends_in_colon (elim t [ [] ↦ if a == b':' then [] else a ∷ [] | b ∷ u ↦ a ∷ b ∷ u ])
            ≡ false) [ [] ↦ λ e. ground arith | b ∷ u ↦ λ e. e ]
      (ends_in_colon-trim_right s)

joined_lem : (base k : Bytes) → joined base k ≡ in_namespace base k
unfolding in_namespace
joined_lem [] k = refl
joined_lem (c ∷ base) k = refl

key_lem : (prefix k : Bytes) → key prefix k ≡ in_namespace (trim_right b':' prefix) k
unfolding key
key_lem prefix k = joined_lem (trim_right b':' prefix) k

-- What a world holds under a prefix.
abbrev under : {S : Type 0} → Bytes → (S → View) → S → View
under prefix entry s j = entry s (key prefix j)

module _ (p : Bytes) (v : View) where
  abbrev at_prefix : View
  at_prefix j = v (key p j)

  put-key : (k : Bytes) (e : Entry) (j : Bytes) → put (key p k) e v (key p j) ≡ put k e at_prefix j
  unfolding put
  put-key k e j = rw text_eq-key

  remove-key : (k j : Bytes) → remove (key p k) v (key p j) ≡ remove k at_prefix j
  unfolding remove
  remove-key k j = rw text_eq-key

  incremented-key :
      (now : ℕ) (k : Bytes) (life : ℤ) (total : Result Error ℤ) (j : Bytes)
      → incremented now (key p k) life total v (key p j) ≡ incremented now k life total at_prefix j
  unfolding incremented
  incremented-key now k life (ok z) j = put-key k _ j
  incremented-key now k life (err e) j = refl

Agrees-under :
    {S A : Type 0} {IsValid : S → Type 0} {entry : S → View} {now : ℕ} {r : A × S} {reply : A}
    {v : View} (p : Bytes) (w : View)
    → Agrees IsValid entry now r reply v
    → ((j : Bytes) → v (key p j) ≡ w j)
    → Agrees IsValid (under p entry) now r reply w
Agrees-under p w a same = record {
  replies = a.replies;
  shows = λ j t h. a.shows (key p j) t h ∙ ap (live t) (same j);
  valid = a.valid;
}

module _ {S : Type 0} (p : Prefixed S) (IsValid : S → Type 0) (entry : S → View)
    (inner : Implements p.store IsValid entry) where
  under-Implements : Implements (prefixed_cache p) IsValid (under p.prefix entry)
  unfolding full_key get set take exists increment ttl drop
  under-Implements = record {
    gets = λ now k s v h. Agrees-under p.prefix _ (inner.gets now _ s v h) (λ j. refl);
    sets = λ now k x life s v h.
        Agrees-under p.prefix _ (inner.sets now _ x life s v h) (put-key p.prefix _ k _);
    takes =
        λ now k s v h. Agrees-under p.prefix _ (inner.takes now _ s v h) (remove-key p.prefix _ k);
    existences = λ now k s v h. Agrees-under p.prefix _ (inner.existences now _ s v h) (λ j. refl);
    increments = λ now k delta life s v h.
        Agrees-under p.prefix _ (inner.increments now _ delta life s v h)
          (incremented-key p.prefix _ now k life _);
    ttls = λ now k s v h. Agrees-under p.prefix _ (inner.ttls now _ s v h) (λ j. refl);
    deletes =
        λ now k s v. Agrees-under p.prefix _ (inner.deletes now _ s v) (remove-key p.prefix _ k);
  }

  -- If the wrapped store implements the abstract map, then the store behind a prefix implements the
  -- map that this holds under the keys `base:k`, where `base` is the prefix without the colons at its
  -- end, or under `k` alone if `base` is empty.
  pub prefixed-Implements :
      (base : Bytes) × (n : ℕ) × (p.prefix ≡ base ++ colons n)
      × (ends_in_colon base ≡ false)
      × Implements (prefixed_cache p) IsValid (λ s j. entry s (in_namespace base j))
  prefixed-Implements =
      let (n, eq) = without_colons p.prefix in
      (
        trim_right b':' p.prefix,
        n,
        eq,
        ends_in_colon-trim_right p.prefix,
        subst (Implements (prefixed_cache p) IsValid)
            (fun_ext (λ s. fun_ext (λ j. ap (entry s) (key_lem p.prefix j)))) under-Implements,
      )
