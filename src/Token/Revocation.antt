-- ===== src/Token/Revocation.antt =====
-- Find after Revoke.
use chobits.Prelude.{ℕ, ◌≡◌, ◌<◌, refl, ◌∙◌, ap, false, Bytes, err, arith}
use chobits.Int64.{half_range}
use chobits.Text.{text_eq_refl}
use chobits.Cache.{miss}
use chobits.Cache.Spec.{View, live, remove, Implements}
use chobits.Cache.Spec
use chobits.Token.{Codecs, Service, of_cache, is_blank, key, revoke, find, found}
use native.Mathlib.Nat.{le_refl}

found_removed : (now : ℕ) (k : Bytes) (v : View) → Spec.found (live now (remove k v k)) ≡ err miss
unfolding Spec.found live remove
found_removed now k v = ground (arith, text_eq_refl k)

-- Over any store that implements the abstract map, and from any valid world, Find of a token that is
-- not blank misses after Revoke of that token, whether the token was issued or not.
pub find-revoke :
    {S : Type 0} (codecs : Codecs) (service : Service S) (IsValid : S → Type 0) (entry : S → View)
    (now later : ℕ) (raw : Bytes) (s : S)
    → Implements service.store IsValid entry
    → IsValid s
    → now < half_range
    → is_blank raw ≡ false
    → (find codecs service now later raw (revoke codecs service raw s).1).0 ≡ err (of_cache miss)
unfolding find revoke found
find-revoke codecs service IsValid entry now later raw s store valid era named =
    let k = key codecs service raw in
    let deletes = store.deletes now k s valid in
    let read : (service.store.get now k (service.store.delete k s).1).0 ≡ err miss =
      (store.gets now k _ deletes.valid era).replies
      ∙ ap Spec.found (deletes.shows k now (le_refl now))
      ∙ found_removed now k _ in
    simp (named, read) refl
