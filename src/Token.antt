-- ===== src/Token.antt =====
-- token/token.go: tokens whose claims lie in a cache, under a key that is a hash of the token. The
-- random bytes of a token are an argument of Issue. `Codecs` has crypto/sha256, encoding/base64 and
-- encoding/json, whose results the service passes on.
pub mod Issued
pub mod Revocation
pub mod Tests
use chobits.Prelude.{
  ℕ, zero, suc, ◌+◌, ◌*◌, ◌/◌, Bool, true, false, ◌&&◌, not, Option, none, some, List, [], ◌∷◌,
  ◌++◌, if◌then◌else◌, Bytes, codes, Result, ok, err, leb,
}
use chobits.Int64.{ℤ, pos, negsuc, is_positive, pos_part, ◌+ℤ◌, leb_ℤ, sub_ℕ, half_range}
use chobits.Text.{text_eq}
use chobits.Text.Dict.{Dict}
use chobits.Text.Trim.{trim_space}
use chobits.Storage.{to_hex}
use chobits.Cache.{Cache}
use chobits.Cache

pub data Error : Type 0 where
  invalid expired : Error
  failure : ℕ → Error
  of_cache : Cache.Error → Error

abbrev pub Err : Type 0
Err = Option Error

pub record Claims : Type 0 where
  pub subject : Bytes
  pub kind : Bytes
  pub scopes : List Bytes
  pub issued_at : ℤ
  pub expires : ℤ
  pub meta : Dict Bytes

pub record Token : Type 0 where
  pub value : Bytes
  pub claims : Claims

pub record Codecs : Type 0 where
  pub sha256 : Bytes → Bytes
  pub base64 : Bytes → Bytes
  pub encode : Claims → Result Error Bytes
  pub decode : Bytes → Result Error Claims

pub record Service (S : Type 0) : Type 0 where
  pub store : Cache S
  pub prefix : Bytes
  pub ttl : ℤ

-- The service that New makes of a store, before its options: 120 hours to live.
unfoldable pub new_service : {S : Type 0} → Cache S → Service S
new_service store = record { store = store; prefix = codes "cbt_"; ttl = pos 432000000000000 }

unfoldable pub with_prefix : {S : Type 0} → Bytes → Service S → Service S
with_prefix p service = record { store = service.store; prefix = p; ttl = service.ttl }

unfoldable pub with_ttl : {S : Type 0} → ℤ → Service S → Service S
with_ttl t service = record { store = service.store; prefix = service.prefix; ttl = t }

-- strings.TrimSpace(s) == ""
unfoldable pub is_blank : Bytes → Bool
unfolding trim_space text_eq
is_blank s = text_eq (trim_space s) []

-- Unix: the whole seconds of an instant
unfoldable pub unix : ℕ → ℕ
unix now = now / 1000000000

-- time.Unix(seconds, 0).Sub(now), for seconds that are not negative. time.Unix counts from the year
-- 1, in an int64 that wraps around: an instant beyond it lies before all others, so that Sub replies
-- the smallest Duration. Sub replies the largest one if the difference is beyond an int64.
unfoldable pub until : ℤ → ℕ → ℤ
until seconds now =
    let d = sub_ℕ (pos_part seconds * 1000000000) now in
    if leb half_range (pos_part seconds + 62135596800)
    then negsuc 9223372036854775807
    else if leb_ℤ (pos half_range) d
    then pos 9223372036854775807
    else d

-- IssuedAt, which is set if it is zero
unfoldable pub issued : ℕ → ℤ → ℤ
unfolding unix
issued now (pos zero) = pos (unix now)
issued now (pos (suc n)) = pos (suc n)
issued now (negsuc n) = negsuc n

unfoldable pub time_left : ℕ → ℤ → ℤ → ℤ
unfolding until
time_left now ttl expires = if is_positive expires then until expires now else ttl

-- Expires, which is set if it is not positive; it is read only if the time to live is positive
unfoldable pub expiry : ℕ → ℤ → ℤ → ℤ
unfolding unix
expiry now ttl expires = if is_positive expires then expires else pos (unix (now + pos_part ttl))

unfoldable pub dated : ℕ → ℤ → Claims → Claims
unfolding issued expiry
dated now ttl c = record {
  subject = c.subject;
  kind = c.kind;
  scopes = c.scopes;
  issued_at = issued now c.issued_at;
  expires = expiry now ttl c.expires;
  meta = c.meta;
}

unfoldable pub of_store : Cache.Err → Err
of_store none = none
of_store (some e) = some (of_cache e)

module _ {S : Type 0} (codecs : Codecs) (service : Service S) where
  unfoldable pub key : Bytes → Bytes
  unfolding to_hex
  key raw = codes "token:" ++ to_hex (codecs.sha256 raw)

  -- from store.Set on
  unfoldable pub save : ℕ → Bytes → Claims → ℤ → Bytes → S → Result Error Token × S
  unfolding key
  save now raw claims ttl bytes s =
      let (e, s') = service.store.set now (key raw) bytes ttl s in
      elim e [
        | none ↦ (ok (record { value = raw; claims = claims }), s')
        | some x ↦ (err (of_cache x), s')
      ]

  -- from json.Marshal on
  unfoldable pub save_claims :
      ℕ → Bytes → Claims → ℤ → Result Error Bytes → S → Result Error Token × S
  unfolding save
  save_claims now raw claims ttl (ok bytes) s = save now raw claims ttl bytes s
  save_claims now raw claims ttl (err e) s = (err e, s)

  -- from the reading of random bytes on
  unfoldable pub save_random : ℕ → Claims → ℤ → Result Error Bytes → S → Result Error Token × S
  unfolding save_claims
  save_random now claims ttl (ok bytes) s =
      save_claims now (service.prefix ++ codecs.base64 bytes) claims ttl (codecs.encode claims) s
  save_random now claims ttl (err e) s = (err e, s)

  unfoldable pub issue : ℕ → Claims → Result Error Bytes → S → Result Error Token × S
  unfolding is_blank time_left dated save_random
  issue now claims random s =
      let ttl = time_left now service.ttl claims.expires in
      if is_blank claims.subject
      then (err invalid, s)
      else if not (is_positive ttl)
      then (err expired, s)
      else save_random now (dated now service.ttl claims) ttl random s

  unfoldable pub issue_subject : ℕ → Bytes → Result Error Bytes → S → Result Error Token × S
  unfolding issue
  issue_subject now subject = issue now (record {
    subject = subject;
    kind = [];
    scopes = [];
    issued_at = pos 0;
    expires = pos 0;
    meta = [];
  })

  unfoldable pub revoke : Bytes → S → Err × S
  unfolding key is_blank of_store
  revoke raw s =
      let (e, s') = service.store.delete (key raw) s in
      if is_blank raw then (none, s) else (of_store e, s')

  -- from the test of the expiry on, at the instant of its clock
  unfoldable pub check : ℕ → Bytes → Claims → S → Result Error Claims × S
  unfolding revoke unix
  check later raw claims s =
      if is_positive claims.expires && leb_ℤ claims.expires (pos (unix later))
      then (err expired, (revoke raw s).1)
      else (ok claims, s)

  unfoldable pub check_decoded : ℕ → Bytes → Result Error Claims → S → Result Error Claims × S
  unfolding check
  check_decoded later raw (ok claims) s = check later raw claims s
  check_decoded later raw (err e) s = (err e, s)

  unfoldable pub found : ℕ → Bytes → Result Cache.Error Bytes → S → Result Error Claims × S
  unfolding check_decoded
  found later raw (ok bytes) s = check_decoded later raw (codecs.decode bytes) s
  found later raw (err e) s = (err (of_cache e), s)

  unfoldable pub find : ℕ → ℕ → Bytes → S → Result Error Claims × S
  unfolding key is_blank found
  find now later raw s =
      let (r, s') = service.store.get now (key raw) s in
      if is_blank raw then (err invalid, s) else found later raw r s'
