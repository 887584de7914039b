-- ===== src/Storage/Safety/Root.antt =====
-- Where the file of an accepted object path stands.
use mathlib.Core.List.{reverse-cons}
use chobits.Prelude.{
  ℕ, ◌≡◌, refl, sym, ◌∙◌, ap, ap₂, Bool, true, false, ◌&&◌, List, [], ◌∷◌, ◌++◌, reverse, Bytes,
  arith, ◌==◌, Bool-cases, inl, inr, ok, err, Result,
}
use chobits.Text.{trim_prefix}
use chobits.Text.Path.{
  slash, split, into_first, join_segments, walk, visit, render, clean, is_rooted, join_path,
}
use chobits.Storage.{Error, clean_object_path, to_slashes}
use chobits.Storage.Local.{Files, Tools, Local, open_path}
use chobits.Storage.Safety.{
  has_slash, is_name, all_names, no_slashes, no_slashes-split, is_stack-walk, accepted, is_stack,
}

split_nonempty : (s : Bytes) → (x : Bytes) × (xs : List Bytes) × (split s ≡ x ∷ xs)
unfolding split into_first
split_nonempty [] = ([], [], refl)
split_nonempty (a ∷ s) =
    let (x, xs, e) = split_nonempty s in
    elim (Bool-cases (a == slash)) [
      | inl b ↦ ([], split s, simp b refl)
      | inr b ↦ (a ∷ x, xs, simp (b, e) refl)
    ]

-- Two paths with a slash between them.
split-append : (s t : Bytes) → split (s ++ (slash ∷ t)) ≡ split s ++ split t
unfolding split into_first
split-append [] t = refl
split-append (a ∷ s) t =
    let (x, xs, e) = split_nonempty s in
    let rest : split (s ++ (slash ∷ t)) ≡ x ∷ (xs ++ split t) =
      split-append s t ∙ ap (λ (l : List Bytes). l ++ split t) e in
    elim (Bool-cases (a == slash)) [
      | inl b ↦ simp (b, rest, e) refl
      | inr b ↦ simp (b, rest, e) refl
    ]

split_plain : (x : Bytes) → has_slash x ≡ false → split x ≡ x ∷ []
unfolding split into_first has_slash
split_plain [] h = refl
split_plain (a ∷ s) h = ground (arith, split_plain s)

walk-append :
    (r : Bool) (kept xs ys : List Bytes) → walk r kept (xs ++ ys) ≡ walk r (walk r kept xs) ys
unfolding walk
walk-append r kept [] ys = refl
walk-append r kept (x ∷ xs) ys = walk-append r (visit r kept x) xs ys

-- Segments with no slash in them are not split further.
walk-join_segments :
    (r : Bool) (kept xs : List Bytes)
    → no_slashes xs ≡ true
    → walk r kept (split (join_segments xs)) ≡ walk r kept xs
unfolding walk join_segments no_slashes split visit
walk-join_segments r kept [] h = refl
walk-join_segments r kept (x ∷ []) h = ap (walk r kept) (split_plain x (ground arith))
walk-join_segments r kept (x ∷ y ∷ xs) h =
    ap (walk r kept) (
      split-append x (join_segments (y ∷ xs))
      ∙ ap (λ (l : List Bytes). l ++ split (join_segments (y ∷ xs))) (split_plain x (ground arith)))
    ∙ walk-join_segments r (visit r kept x) (y ∷ xs) (ground arith)

no_slashes-append : (xs ys : List Bytes) → no_slashes (xs ++ ys) ≡ (no_slashes xs && no_slashes ys)
unfolding no_slashes
no_slashes-append [] ys = refl
no_slashes-append (x ∷ xs) ys = ground (arith, no_slashes-append xs ys)

no_slashes-reverse : (ns : List Bytes) → all_names ns ≡ true → no_slashes (reverse ns) ≡ true
unfolding all_names is_name no_slashes
no_slashes-reverse [] h = refl
no_slashes-reverse (x ∷ xs) h =
    ap no_slashes (reverse-cons x xs)
    ∙ no_slashes-append (reverse xs) (x ∷ [])
    ∙ ground (arith, no_slashes-reverse xs)

visit_name :
    (r : Bool) (kept : List Bytes) (x : Bytes) → is_name x ≡ true → visit r kept x ≡ x ∷ kept
unfolding visit is_name
visit_name r kept x h = ground arith

-- Names are kept.
walk-reverse :
    (r : Bool) (kept ns : List Bytes) → all_names ns ≡ true → walk r kept (reverse ns) ≡ ns ++ kept
unfolding walk all_names
walk-reverse r kept [] h = refl
walk-reverse r kept (x ∷ ns) h =
    ap (walk r kept) (reverse-cons x ns)
    ∙ walk-append r kept (reverse ns) (x ∷ [])
    ∙ ap (λ (l : List Bytes). visit r l x) (walk-reverse r kept ns (ground arith))
    ∙ visit_name r (ns ++ kept) x (ground arith)

-- A path of names leads that many names down from where one stands.
walk-render :
    (r down : Bool) (kept ns : List Bytes)
    → all_names ns ≡ true
    → walk r kept (split (render down ns)) ≡ ns ++ kept
unfolding render walk split visit
walk-render r true kept ns h =
    walk-join_segments r kept (reverse ns) (no_slashes-reverse ns h) ∙ walk-reverse r kept ns h
walk-render r false kept [] h = refl
walk-render r false kept (x ∷ ns) h =
    walk-join_segments r kept (reverse (x ∷ ns)) (no_slashes-reverse (x ∷ ns) h)
    ∙ walk-reverse r kept (x ∷ ns) h

-- What an accepted object path is: names, under a slash or under nothing.
pub clean_object_path-names :
    (value p : Bytes)
    → clean_object_path value ≡ ok p
    → (r : Bool) × (ns : List Bytes) × (p ≡ render r ns) × (all_names ns ≡ true)
unfolding clean_object_path clean is_stack
clean_object_path-names value p h =
    let s = trim_prefix (to_slashes value) (slash ∷ []) in
    let r = is_rooted s in
    let kept = walk r [] (split s) in
    let (eq, names) =
      accepted r kept p (is_stack-walk r [] (split s) refl (no_slashes-split s)) h in
    (r, kept, eq, names)

is_rooted-append : (a : ℕ) (s t : Bytes) → is_rooted ((a ∷ s) ++ t) ≡ is_rooted (a ∷ s)
unfolding is_rooted
is_rooted-append a s t = refl

-- The stack of segments of a root.
unfoldable pub segments : Bytes → List Bytes
unfolding walk split is_rooted
segments s = walk (is_rooted s) [] (split s)

join_path-render :
    (a : ℕ) (s p : Bytes)
    → join_path (a ∷ s) p
      ≡ render (is_rooted (a ∷ s)) (walk (is_rooted (a ∷ s)) (segments (a ∷ s)) (split p))
unfolding join_path clean segments is_rooted
join_path-render a s [] = ap (render (a == slash)) (
    sym (walk-append (a == slash) [] (split (a ∷ s)) ([] ∷ []))
    ∙ walk-append (a == slash) [] (split (a ∷ s)) ([] ∷ []))
join_path-render a s (b ∷ t) = ap (render (a == slash)) (
    ap (walk (a == slash) []) (split-append (a ∷ s) (b ∷ t))
    ∙ walk-append (a == slash) [] (split (a ∷ s)) (split (b ∷ t)))

opened :
    (root q : Bytes) (r : Result Error Bytes)
    → (elim r as (λ _. Result Error Bytes) [ err e ↦ err e | ok c ↦ ok (join_path root c) ]) ≡ ok q
    → (c : Bytes) × (r ≡ ok c) × (q ≡ join_path root c)
opened root q (ok c) h = (c, refl, ground arith)
opened root q (err e) h = cc

-- If the root directory of a local disk is not the empty text, then whatever object path a caller
-- gives, OpenPath replies an error or the cleaned root followed by segments that are names: not
-- empty, neither "." nor "..", and without a slash. No object path leads out of the root.
pub open_path-below :
    {W : Type 0} (tools : Tools W) (files : Files W) (l : Local) (a : ℕ) (s value q : Bytes)
    → l.root_dir ≡ a ∷ s
    → open_path tools files l value ≡ ok q
    → (ns : List Bytes) × (all_names ns ≡ true)
      × (q ≡ render (is_rooted (a ∷ s)) (ns ++ segments (a ∷ s)))
      × (clean (a ∷ s) ≡ render (is_rooted (a ∷ s)) (segments (a ∷ s)))
unfolding open_path clean segments
open_path-below tools files l a s value q root h =
    let (c, accepts, eq) = opened l.root_dir q (clean_object_path value) h in
    let (down, ns, shape, names) = clean_object_path-names value c accepts in
    let r = is_rooted (a ∷ s) in
    (
      ns,
      names,
      eq
          ∙ ap₂ join_path root shape
          ∙ join_path-render a s (render down ns)
          ∙ ap (render r) (walk-render r down (segments (a ∷ s)) ns names),
      refl,
    )
