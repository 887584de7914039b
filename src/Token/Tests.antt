-- ===== src/Token/Tests.antt =====
-- A service over the in-process store, and the theorem at it.
use chobits.Prelude.{Bytes, ◌≡◌, refl, none, [], ◌∷◌, codes, ok, err, arith}
use chobits.Int64.{pos}
use chobits.Text.{text_eq}
use chobits.Text.Trim.{trim_space}
use chobits.Cache.{miss}
use chobits.Cache.Memory.{Memory, memory_cache}
use chobits.Cache.Memory.Refinement.{Any, entries, memory-Implements}
use chobits.Token.{Codecs, Service, of_cache, is_blank, key, revoke, find}
use chobits.Token.{Claims, issue, dated, issued, expiry, unix, until, time_left}
use chobits.Token.Issued.{find-issue}
use chobits.Token.Revocation.{find-revoke}

-- The claims of a subject, which run out one second after 1970 begins.
abbrev claims_of : Bytes → Claims
claims_of s = record {
  subject = s;
  kind = [];
  scopes = [];
  issued_at = pos 0;
  expires = pos 1;
  meta = [];
}

abbrev codecs : Codecs
codecs = record {
  sha256 = λ s. s;
  base64 = λ s. s;
  encode = λ c. ok c.subject;
  decode = λ s. ok (claims_of s);
}

abbrev service : Service Memory
service = record { store = memory_cache; prefix = codes "cbt_"; ttl = pos 100 }

-- A token that has not run out.
abbrev held : Memory
held = record {
  items =
      (key codecs service (codes "cbt_a"), record { value = codes "ann"; expires_at = none }) ∷ [];
}

find-revoke_example :
    (find codecs service 20 21 (codes "cbt_a") (revoke codecs service (codes "cbt_a") held).1).0
    ≡ err (of_cache miss)
unfolding is_blank trim_space text_eq
find-revoke_example =
    find-revoke codecs service Any entries 20 21 (codes "cbt_a") held memory-Implements tt
      (omega arith) refl

find-issue_example :
    ((issue codecs service 20 (claims_of (codes "ann")) (ok (codes "a")) held).0
      ≡ ok (record { value = codes "cbt_a"; claims = claims_of (codes "ann") }))
    × ((find codecs service 30 40
          (codes "cbt_a")
          (issue codecs service 20 (claims_of (codes "ann")) (ok (codes "a")) held).1).0
        ≡ ok (claims_of (codes "ann")))
unfolding is_blank trim_space text_eq dated issued expiry unix until time_left
find-issue_example =
    find-issue codecs service Any entries memory-Implements 20 30 40 held tt
      (claims_of (codes "ann")) (codes "a") (codes "ann") refl refl refl (omega arith) refl refl
      (omega arith) (omega arith) refl
