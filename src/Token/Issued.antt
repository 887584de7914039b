-- ===== src/Token/Issued.antt =====
-- Find after Issue.
use chobits.Prelude.{
  ℕ, ◌+◌, ◌≤◌, ◌<◌, ◌≡◌, refl, ◌∙◌, ap, true, false, none, ◌++◌, Bytes, ok, arith,
}
use chobits.Int64.{ℤ, pos, is_positive, pos_part, leb_ℤ}
use chobits.Text.{text_eq_refl}
use chobits.Cache.Spec.{Entry, View, live, put, deadline_after, InEra, Implements}
use chobits.Cache.Spec
use chobits.Token.{
  Codecs, Service, Claims, is_blank, key, issue, find, found, check, check_decoded, save,
  save_random, save_claims, time_left, dated, unix,
}

found_put :
    (now t : ℕ) (k x : Bytes) (ttl : ℤ) (v : View)
    → is_positive ttl ≡ true
    → t < now + pos_part ttl
    → Spec.found (live t (put k (record { value = x; deadline = deadline_after now ttl }) v k))
      ≡ ok x
unfolding Spec.found live put deadline_after
found_put now t k x ttl v positive h = ground (arith, text_eq_refl k)

module _ {S : Type 0} (codecs : Codecs) (service : Service S) (IsValid : S → Type 0)
    (entry : S → View) (store : Implements service.store IsValid entry) (now t later : ℕ) (s : S)
    (valid : IsValid s) (claims : Claims) (random bytes : Bytes) where
  abbrev raw : Bytes
  raw = service.prefix ++ codecs.base64 random

  abbrev ttl : ℤ
  ttl = time_left now service.ttl claims.expires

  abbrev stored : Claims
  stored = dated now service.ttl claims

  abbrev saved : S
  saved = (service.store.set now (key codecs service raw) bytes ttl s).1

  save_ok :
      (service.store.set now (key codecs service raw) bytes ttl s).0 ≡ none
      → save codecs service now raw stored ttl bytes s
        ≡ (ok (record { value = raw; claims = stored }), saved)
  unfolding save
  save_ok e = rw (e, save) refl

  issue_ok :
      is_blank claims.subject ≡ false
      → is_positive ttl ≡ true
      → codecs.encode stored ≡ ok bytes
      → issue codecs service now claims (ok random) s
        ≡ save codecs service now raw stored ttl bytes s
  unfolding issue save_random save_claims
  issue_ok subject positive encoded = simp (subject, positive, encoded) refl

  find_ok :
      is_blank raw ≡ false
      → (service.store.get t (key codecs service raw) saved).0 ≡ ok bytes
      → codecs.decode bytes ≡ ok stored
      → leb_ℤ stored.expires (pos (unix later)) ≡ false
      → (find codecs service t later raw saved).0 ≡ ok stored
  unfolding find found check_decoded check
  find_ok named read decoded current = ground (arith, named, read, decoded, current)

  -- Over any store that implements the abstract map: if the subject is not blank, there is time left
  -- to live, and the encoding of the claims can be decoded, then Issue succeeds; and a Find that
  -- asks the store before the time to live is over, and then reads a clock whose second is before
  -- the token's Expires, replies the claims of the token.
  pub find-issue :
      is_blank claims.subject ≡ false
      → is_blank raw ≡ false
      → is_positive ttl ≡ true
      → InEra now ttl
      → codecs.encode stored ≡ ok bytes
      → codecs.decode bytes ≡ ok stored
      → now ≤ t
      → t < now + pos_part ttl
      → leb_ℤ stored.expires (pos (unix later)) ≡ false
      → ((issue codecs service now claims (ok random) s).0
          ≡ ok (record { value = raw; claims = stored }))
        × ((find codecs service t later raw (issue codecs service now claims (ok random) s).1).0
            ≡ ok stored)
  find-issue subject named positive era encoded decoded le fresh current =
      let k = key codecs service raw in
      let sets = store.sets now k bytes ttl s valid era in
      let read : (service.store.get t k saved).0 ≡ ok bytes =
        (store.gets t k saved sets.valid (omega arith)).replies
        ∙ ap Spec.found (sets.shows k t le)
        ∙ found_put now t k bytes ttl _ positive fresh in
      let issued = issue_ok subject positive encoded ∙ save_ok sets.replies in
      (
        ap (λ r. r.0) issued,
        ap (λ r. (find codecs service t later raw r.1).0) issued
            ∙ find_ok named read decoded current,
      )
