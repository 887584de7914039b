-- ===== src/Cache/Key.antt =====
-- `Key` of cache/redis.go, which every namespacing store calls.
use chobits.Prelude.{◌∙◌, ◌≡◌, refl, [], ◌∷◌, ◌++◌, Bytes, arith}
use chobits.Text.{text_eq}
use chobits.Text.Trim.{trim_right}

abbrev pub joined : Bytes → Bytes → Bytes
joined [] k = k
joined (c ∷ p) k = (c ∷ p) ++ b':' ∷ k

unfoldable pub key : Bytes → Bytes → Bytes
unfolding trim_right
key prefix k = joined (trim_right b':' prefix) k

text_eq-append : (p s t : Bytes) → text_eq (p ++ s) (p ++ t) ≡ text_eq s t
unfolding text_eq
text_eq-append [] s t = refl
text_eq-append (c ∷ p) s t = ground (arith, text_eq-append p s t)

text_eq-joined : (p k j : Bytes) → text_eq (joined p k) (joined p j) ≡ text_eq k j
unfolding text_eq
text_eq-joined [] k j = refl
text_eq-joined (c ∷ p) k j = text_eq-append (c ∷ p) (b':' ∷ k) (b':' ∷ j) ∙ same
  where
    same : text_eq (b':' ∷ k) (b':' ∷ j) ≡ text_eq k j
    same = ground arith

-- Under one prefix, different keys stay different.
pub text_eq-key : (p k j : Bytes) → text_eq (key p k) (key p j) ≡ text_eq k j
unfolding key
text_eq-key p k j = text_eq-joined (trim_right b':' p) k j

key_test : key (b'a' ∷ b':' ∷ b':' ∷ []) (b'x' ∷ []) ≡ b'a' ∷ b':' ∷ b'x' ∷ []
unfolding key
key_test = refl
