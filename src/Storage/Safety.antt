-- ===== src/Storage/Safety.antt =====
-- Which object paths clean_object_path accepts.
pub mod Root
use mathlib.Core.List.{append_assoc, append-nil, reverse-cons}
use chobits.Prelude.{
  ℕ, ◌≡◌, refl, sym, ◌∙◌, ap, Bool, true, false, ◌&&◌, not, List, [], ◌∷◌, ◌++◌, reverse,
  if◌then◌else◌, Bytes, codes, arith, ◌==◌, Bool-cases, inl, inr, ◌⊎◌, ok, err,
}
use chobits.Text.{text_eq, text_eq_iff, has_prefix}
use chobits.Text.Path.{
  slash, dot, dotdot, split, into_first, join_segments, walk, visit, go_up, render, clean,
  is_rooted,
}
use chobits.Storage.{invalid_path, accept_path, clean_object_path}

-- A segment that Clean keeps as it is: not empty, not "." and not "..", with no slash in it.
unfoldable pub has_slash : Bytes → Bool
has_slash [] = false
has_slash (a ∷ s) = if a == slash then true else has_slash s

unfoldable pub is_name : Bytes → Bool
unfolding text_eq has_slash
is_name x = not (text_eq x []) && not (text_eq x dot) && not (text_eq x dotdot) && not (has_slash x)

unfoldable pub all_names : List Bytes → Bool
unfolding is_name
all_names [] = true
all_names (x ∷ xs) = is_name x && all_names xs

unfoldable pub no_slashes : List Bytes → Bool
unfolding has_slash
no_slashes [] = true
no_slashes (x ∷ xs) = not (has_slash x) && no_slashes xs

no_slashes-into_first :
    (a : ℕ) (xs : List Bytes)
    → (a == slash) ≡ false
    → no_slashes xs ≡ true
    → no_slashes (into_first a xs) ≡ true
unfolding no_slashes into_first has_slash
no_slashes-into_first a [] h plain = ground arith
no_slashes-into_first a (x ∷ xs) h plain = ground arith

no_slashes-split : (s : Bytes) → no_slashes (split s) ≡ true
unfolding split no_slashes has_slash
no_slashes-split [] = refl
no_slashes-split (a ∷ s) = elim (Bool-cases (a == slash)) [
  | inl e ↦ ground (arith, no_slashes-split s)
  | inr e ↦ ground (arith, no_slashes-split s, no_slashes-into_first a (split s) e)
]

unfoldable pub all_up : List Bytes → Bool
unfolding text_eq
all_up [] = true
all_up (x ∷ xs) = text_eq x dotdot && all_up xs

-- The segments that Clean keeps of a rooted path are names, and so are those of a path that is not
-- rooted, above the ".."s that it begins with.
unfoldable pub is_stack : Bool → List Bytes → Bool
unfolding is_name text_eq all_up
is_stack rooted [] = true
is_stack rooted (x ∷ xs) =
    let rest = is_stack rooted xs in
    if text_eq x dotdot then not rooted && all_up xs else is_name x && rest

stack_of_ups : (xs : List Bytes) → all_up xs ≡ true → is_stack false xs ≡ true
unfolding all_up is_stack
stack_of_ups [] h = refl
stack_of_ups (x ∷ xs) h = ground (arith, stack_of_ups xs)

is_stack-go_up :
    (r : Bool) (kept : List Bytes) → is_stack r kept ≡ true → is_stack r (go_up r kept) ≡ true
unfolding is_stack go_up all_up text_eq
is_stack-go_up true [] h = refl
is_stack-go_up false [] h = refl
is_stack-go_up r (x ∷ xs) h = ground (arith, stack_of_ups xs)

is_stack-visit :
    (r : Bool) (kept : List Bytes) (x : Bytes)
    → is_stack r kept ≡ true
    → has_slash x ≡ false
    → is_stack r (visit r kept x) ≡ true
unfolding visit is_stack is_name
is_stack-visit r kept x h plain = ground (arith, is_stack-go_up r kept h)

is_stack-walk :
    (r : Bool) (kept xs : List Bytes)
    → is_stack r kept ≡ true
    → no_slashes xs ≡ true
    → is_stack r (walk r kept xs) ≡ true
unfolding walk no_slashes
is_stack-walk r kept [] h plain = h
is_stack-walk r kept (x ∷ xs) h plain =
    let first : has_slash x ≡ false = ground arith in
    is_stack-walk r (visit r kept x) xs (is_stack-visit r kept x h first) (ground arith)

is_stack-names : (kept : List Bytes) → is_stack true kept ≡ true → all_names kept ≡ true
unfolding is_stack all_names
is_stack-names [] h = refl
is_stack-names (x ∷ xs) h = ground (arith, is_stack-names xs)

-- "..", in a list whose last element it is
ups_end :
    (x : Bytes) (xs : List Bytes)
    → text_eq x dotdot ≡ true
    → all_up xs ≡ true
    → (ns : List Bytes) × (x ∷ xs ≡ ns ++ (dotdot ∷ []))
unfolding all_up
ups_end x [] e h = ([], ground (arith, text_eq_iff x dotdot))
ups_end x (y ∷ ys) e h =
    let first : text_eq y dotdot ≡ true = ground arith in
    let (ns, eq) = ups_end y ys first (ground arith) in (x ∷ ns, ap (λ (l : List Bytes). x ∷ l) eq)

-- The segments kept are names, or the first of the path is "..".
stack_cases :
    (kept : List Bytes)
    → is_stack false kept ≡ true
    → (all_names kept ≡ true) ⊎ ((ns : List Bytes) × (kept ≡ ns ++ (dotdot ∷ [])))
unfolding is_stack all_names
stack_cases [] h = inl refl
stack_cases (x ∷ xs) h = elim (Bool-cases (text_eq x dotdot)) [
  | inl e ↦ inr (ups_end x xs e (ground arith))
  | inr e ↦
      let named : is_name x ≡ true = ground arith in
      elim (stack_cases xs (ground arith)) [
        | inl names ↦ inl (ground arith)
        | inr (ns, eq) ↦ inr (x ∷ ns, ap (λ (l : List Bytes). x ∷ l) eq)
      ]
]

reverse_snoc : (xs : List Bytes) (x : Bytes) → reverse (xs ++ (x ∷ [])) ≡ x ∷ reverse xs
reverse_snoc [] x = refl
reverse_snoc (y ∷ ys) x =
    reverse-cons y (ys ++ (x ∷ []))
    ∙ ap (λ (l : List Bytes). l ++ (y ∷ [])) (reverse_snoc ys x)
    ∙ ap (λ (l : List Bytes). x ∷ l) (sym (reverse-cons y ys))

rejected_up : (rest : List Bytes) → accept_path (join_segments (dotdot ∷ rest)) ≡ err invalid_path
unfolding accept_path join_segments text_eq has_prefix
rejected_up [] = refl
rejected_up (x ∷ xs) = refl

render_up :
    (ns : List Bytes) → render false (ns ++ (dotdot ∷ [])) ≡ join_segments (dotdot ∷ reverse ns)
unfolding render
render_up [] = refl
render_up (x ∷ ns) = ap join_segments (reverse_snoc (x ∷ ns) dotdot)

-- What a rendered stack is, when it is accepted.
accepted :
    (r : Bool) (kept : List Bytes) (p : Bytes)
    → is_stack r kept ≡ true
    → accept_path (render r kept) ≡ ok p
    → (p ≡ render r kept) × (all_names kept ≡ true)
unfolding accept_path
accepted true kept p h a = (ground arith, is_stack-names kept h)
accepted false kept p h a = elim (stack_cases kept h) [
  | inl names ↦ (ground arith, names)
  | inr (ns, eq) ↦
      (let clash =
          sym (
            ap (λ k. accept_path (render false k)) eq
            ∙ ap accept_path (render_up ns)
            ∙ rejected_up (reverse ns))
          ∙ a in
        cc)
]
