-- ===== src/Text.antt =====
-- Go's byte strings: equality, and the functions of package strings that the program uses.
pub mod Dict
pub mod Path
pub mod Trim
pub mod Case
use chobits.Prelude.{
  ℕ, ◌≡◌, refl, ap, ◌↔◌, Bool, true, false, ◌&&◌, Option, none, some, List, [], ◌∷◌, ◌++◌, arith,
  Bytes, codes, ◌==◌, if◌then◌else◌, Bool-cases,
}

unfoldable pub text_eq : Bytes → Bytes → Bool
text_eq [] [] = true
text_eq (a ∷ s) (b ∷ t) = (a == b) && text_eq s t
text_eq _ _ = false

pub text_eq_refl : (s : Bytes) → text_eq s s ≡ true
unfolding text_eq
text_eq_refl [] = refl
text_eq_refl (a ∷ s) = ground (arith, text_eq_refl s)

pub text_eq-eq : (s t : Bytes) → text_eq s t ≡ true → s ≡ t
unfolding text_eq
text_eq-eq [] [] h = refl
text_eq-eq [] (b ∷ t) h = cc
text_eq-eq (a ∷ s) [] h = cc
text_eq-eq (a ∷ s) (b ∷ t) h = ground (arith, text_eq-eq s t)

pub text_eq_iff : (s t : Bytes) → (text_eq s t ≡ true) ↔ (s ≡ t)
text_eq_iff s t = (text_eq-eq s t, λ e. ground (arith, text_eq_refl s, e))

unfoldable pub has_prefix : Bytes → Bytes → Bool
has_prefix s [] = true
has_prefix [] (p ∷ ps) = false
has_prefix (a ∷ s) (p ∷ ps) = (a == p) && has_prefix s ps

-- The rest after as many bytes as the second text has.
unfoldable pub drop_text : Bytes → Bytes → Bytes
drop_text s [] = s
drop_text [] (p ∷ ps) = []
drop_text (a ∷ s) (p ∷ ps) = drop_text s ps

unfoldable pub trim_prefix : Bytes → Bytes → Bytes
unfolding has_prefix drop_text
trim_prefix s p = if has_prefix s p then drop_text s p else s

-- strings.Cut at a one-byte separator
unfoldable pub cut : ℕ → Bytes → Option (Bytes × Bytes)
cut c [] = none
cut c (a ∷ s) =
    if a == c
    then some ([], s)
    else elim (cut c s) [ none ↦ none | some (before, after) ↦ some (a ∷ before, after) ]
