-- ===== src/Text/Trim.antt =====
-- strings.TrimRight and strings.TrimSpace.
use chobits.Prelude.{
  ℕ, Bool, ◌&&◌, ◌||◌, [], ◌∷◌, Bytes, codes, reverse, ◌==◌, leb, if◌then◌else◌, ◌≡◌, refl,
}

-- strings.TrimRight(s, cutset) for a cutset of one ASCII byte
unfoldable pub trim_right : ℕ → Bytes → Bytes
trim_right c [] = []
trim_right c (a ∷ s) = elim (trim_right c s) [
  | [] ↦ if a == c then [] else a ∷ []
  | b ∷ t ↦ a ∷ b ∷ t
]

-- strings.TrimLeft(s, cutset) for a cutset of one ASCII byte
unfoldable pub trim_left : ℕ → Bytes → Bytes
trim_left c [] = []
trim_left c (a ∷ s) = let rest = trim_left c s in if a == c then rest else a ∷ s

-- the ASCII spaces: tab, line feed, vertical tab, form feed, carriage return, space
unfoldable pub is_space : ℕ → Bool
is_space c = (leb 9 c && leb c 13) || (c == 32)

-- U+0085 and U+00A0: the byte 194, then 133 or 160
unfoldable pub is_space2 : ℕ → ℕ → Bool
is_space2 a b = (a == 194) && ((b == 133) || (b == 160))

-- U+1680, U+2000 to U+200A, U+2028, U+2029, U+202F, U+205F and U+3000, three bytes each
unfoldable pub is_space3 : ℕ → ℕ → ℕ → Bool
is_space3 a b c =
    ((a == 0xe1) && ((b == 0x9a) && (c == 0x80)))
    || ((a == 0xe2)
        && (((b == 0x80)
              && ((leb 0x80 c && leb c 0x8a) || ((c == 0xa8) || ((c == 0xa9) || (c == 0xaf)))))
            || ((b == 0x81) && (c == 0x9f))))
    || ((a == 0xe3) && ((b == 0x80) && (c == 0x80)))

-- The white space of Unicode, in UTF-8, at the front of a text.
unfoldable pub trim_front : Bytes → Bytes
unfolding is_space is_space2 is_space3
trim_front [] = []
trim_front (a ∷ []) = if is_space a then [] else a ∷ []
trim_front (a ∷ b ∷ []) =
    let rest = trim_front (b ∷ []) in
    if is_space a then rest else if is_space2 a b then [] else a ∷ b ∷ []
trim_front (a ∷ b ∷ c ∷ s) =
    let one = trim_front (b ∷ c ∷ s) in
    let two = trim_front (c ∷ s) in
    let three = trim_front s in
    if is_space a
    then one
    else if is_space2 a b
    then two
    else if is_space3 a b c
    then three
    else a ∷ b ∷ c ∷ s

-- The same at the back: the text is given reversed, and so is the result.
unfoldable pub trim_back : Bytes → Bytes
unfolding is_space is_space2 is_space3
trim_back [] = []
trim_back (a ∷ []) = if is_space a then [] else a ∷ []
trim_back (b ∷ a ∷ []) =
    let rest = trim_back (a ∷ []) in
    if is_space b then rest else if is_space2 a b then [] else b ∷ a ∷ []
trim_back (c ∷ b ∷ a ∷ s) =
    let one = trim_back (b ∷ a ∷ s) in
    let two = trim_back (a ∷ s) in
    let three = trim_back s in
    if is_space c
    then one
    else if is_space2 b c
    then two
    else if is_space3 a b c
    then three
    else c ∷ b ∷ a ∷ s

unfoldable pub trim_space : Bytes → Bytes
unfolding trim_front trim_back
trim_space s = reverse (trim_back (reverse (trim_front s)))

trim_space_test : trim_space (codes "  a b\t ") ≡ codes "a b"
unfolding trim_space
trim_space_test = refl

-- a no-break space in front, an ideographic space behind
trim_unicode_test : trim_space (0xc2 ∷ 0xa0 ∷ b'x' ∷ 0xe3 ∷ 0x80 ∷ 0x80 ∷ []) ≡ b'x' ∷ []
unfolding trim_space
trim_unicode_test = refl
