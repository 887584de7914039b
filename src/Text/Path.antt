-- ===== src/Text/Path.antt =====
-- Package path, and path/filepath as it is where the separator is a slash: Clean and Join.
use chobits.Prelude.{
  ℕ, Bool, true, false, List, [], ◌∷◌, ◌++◌, reverse, if◌then◌else◌, Bytes, codes, ◌==◌,
}
use chobits.Text.{text_eq}

-- "/", "." and ".."
abbrev pub slash : ℕ
slash = 47

abbrev pub dot : Bytes
dot = codes "."

abbrev pub dotdot : Bytes
dotdot = codes ".."

-- A byte before the first segment's bytes.
unfoldable pub into_first : ℕ → List Bytes → List Bytes
into_first a [] = (a ∷ []) ∷ []
into_first a (x ∷ xs) = (a ∷ x) ∷ xs

-- strings.Split(s, "/")
unfoldable pub split : Bytes → List Bytes
unfolding into_first
split [] = [] ∷ []
split (a ∷ s) = let rest = split s in if a == slash then [] ∷ rest else into_first a rest

-- strings.Join(segments, "/")
unfoldable pub join_segments : List Bytes → Bytes
join_segments [] = []
join_segments (x ∷ []) = x
join_segments (x ∷ y ∷ xs) = x ++ (slash ∷ join_segments (y ∷ xs))

unfoldable pub is_rooted : Bytes → Bool
is_rooted [] = false
is_rooted (a ∷ s) = a == slash

-- `..`, after the segments kept so far, of which the last comes first
unfoldable pub go_up : Bool → List Bytes → List Bytes
unfolding text_eq
go_up rooted [] = if rooted then [] else dotdot ∷ []
go_up rooted (x ∷ xs) = if text_eq x dotdot then dotdot ∷ x ∷ xs else xs

-- one segment
unfoldable pub visit : Bool → List Bytes → Bytes → List Bytes
unfolding text_eq go_up
visit rooted kept x =
    if text_eq x []
    then kept
    else if text_eq x dot
    then kept
    else if text_eq x dotdot
    then go_up rooted kept
    else x ∷ kept

unfoldable pub walk : Bool → List Bytes → List Bytes → List Bytes
unfolding visit
walk rooted kept [] = kept
walk rooted kept (x ∷ xs) = walk rooted (visit rooted kept x) xs

-- The path whose segments, the last first, are these.
unfoldable pub render : Bool → List Bytes → Bytes
unfolding join_segments
render true kept = slash ∷ join_segments (reverse kept)
render false [] = dot
render false (x ∷ kept) = join_segments (reverse (x ∷ kept))

-- path.Clean
unfoldable pub clean : Bytes → Bytes
unfolding split is_rooted walk render
clean s = render (is_rooted s) (walk (is_rooted s) [] (split s))

-- path.Join(a, b)
unfoldable pub join_path : Bytes → Bytes → Bytes
unfolding clean
join_path [] [] = []
join_path [] (b ∷ t) = clean (b ∷ t)
join_path (a ∷ s) [] = clean (a ∷ s)
join_path (a ∷ s) (b ∷ t) = clean ((a ∷ s) ++ (slash ∷ b ∷ t))

-- A reversed path from its last slash on.
unfoldable pub from_slash : Bytes → Bytes
from_slash [] = []
from_slash (a ∷ s) = let rest = from_slash s in if a == slash then a ∷ s else rest

-- Dir: the path up to its last slash, cleaned
unfoldable pub dir : Bytes → Bytes
unfolding from_slash clean
dir s = clean (reverse (from_slash (reverse s)))
