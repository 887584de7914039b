-- ===== src/Text/Case.antt =====
-- strings.ToLower and strings.EqualFold, as far as they reach ASCII letters. Other
-- letters are left as they are, which no comparison with an ASCII name can see.
use chobits.Prelude.{
  ℕ, ◌+◌, ◌≡◌, refl, Bool, ◌&&◌, [], ◌∷◌, ◌++◌, Bytes, codes, leb, ◌==◌, if◌then◌else◌,
}
use chobits.Text.{text_eq}

unfoldable pub lower_byte : ℕ → ℕ
lower_byte c = if leb b'A' c && leb c b'Z' then c + 32 else c

-- A text with some letters of two and of three bytes put for ASCII letters.
unfoldable pub fold_text : (ℕ → ℕ) → (ℕ → ℕ → Bytes) → (ℕ → ℕ → ℕ → Bytes) → Bytes → Bytes
fold_text one two three [] = []
fold_text one two three (a ∷ []) = one a ∷ []
fold_text one two three (a ∷ b ∷ []) = elim (two a b) [ [] ↦ one a ∷ one b ∷ [] | c ∷ cs ↦ c ∷ cs ]
fold_text one two three (a ∷ b ∷ c ∷ s) = elim (two a b) [
  | x ∷ xs ↦ x ∷ xs ++ fold_text one two three (c ∷ s)
  | [] ↦ elim (three a b c) [
    | x ∷ xs ↦ x ∷ xs ++ fold_text one two three s
    | [] ↦ one a ∷ fold_text one two three (b ∷ c ∷ s)
  ]
]

-- U+0130, the capital I with a dot, whose lower case is i
unfoldable pub dotted_i : ℕ → ℕ → Bytes
dotted_i a b = if a == 196 && b == 176 then b'i' ∷ [] else []

-- U+017F, the long s, which is an s under folding
unfoldable pub long_s : ℕ → ℕ → Bytes
long_s a b = if a == 197 && b == 191 then b's' ∷ [] else []

-- U+212A, the Kelvin sign
unfoldable pub kelvin : ℕ → ℕ → ℕ → Bytes
kelvin a b c = if a == 226 && b == 132 && c == 170 then b'k' ∷ [] else []

unfoldable pub to_lower : Bytes → Bytes
unfolding fold_text lower_byte dotted_i kelvin
to_lower = fold_text lower_byte dotted_i kelvin

-- strings.EqualFold(s, name) for an ASCII name in lower case
unfoldable pub equal_fold : Bytes → Bytes → Bool
unfolding fold_text lower_byte long_s kelvin text_eq
equal_fold s name = text_eq (fold_text lower_byte long_s kelvin s) name

lower_test : to_lower (b'R' ∷ 196 ∷ 176 ∷ b'S' ∷ []) ≡ codes "ris"
unfolding to_lower
lower_test = refl
