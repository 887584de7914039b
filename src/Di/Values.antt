-- ===== src/Di/Values.antt =====
-- What Resolve and ResolveName find after a value was registered or replaced.
use chobits.Prelude.{
  ℕ, ◌≡◌, ok, err, Bool, true, false, Option, none, some, ◌∷◌, if◌then◌else◌, Bytes, arith,
}
use chobits.Text.{text_eq, text_eq_iff}
use chobits.Text.Dict.{lookup, lookup-insert}
use chobits.Di.{
  duplicate, unexpected_type, Value, Container, collect_lifecycle, set_value, set_name, register,
  replace, typed, resolve, register_name, resolve_name,
}

module _ {W : Type 0} (type_name : Bytes → Bytes) (is_a : Bytes → Value W → Bool) where
  unfoldable pub is_registered : Bytes → Container W → Bool
  is_registered t c = elim (lookup t c.values) [ none ↦ false | some _ ↦ true ]

  -- Register, with or without the lifecycle: a type that has a value keeps it, and the reply is the
  -- error ErrDuplicate with the type's name. A type that has none gets the value,
  -- which Resolve then replies if it is of that type, and the error of an unexpected type if not or if
  -- it is nil. Every other type resolves as before.
  pub resolve-register :
      (collect : Bool) (t u : Bytes) (v : Option (Value W)) (c : Container W)
      → ((register type_name is_a collect t v (some c)).0
          ≡ (if is_registered t c then some (duplicate (type_name t)) else none))
        × (resolve type_name is_a u (register type_name is_a collect t v (some c)).1 ≡ (
            if is_registered t c
            then resolve type_name is_a u (some c)
            else if text_eq t u
            then (elim v [
              | none ↦ err (unexpected_type (type_name u))
              | some x ↦ if is_a u x then ok x else err (unexpected_type (type_name u))
            ])
            else resolve type_name is_a u (some c)))
  unfolding register resolve typed is_registered collect_lifecycle set_value
  resolve-register collect t u v c =
      (ground arith, ground (arith, lookup-insert t u v c.values, text_eq_iff t u))

  -- Replace: the type has the new value, whether it had one or not, which Resolve then replies if it
  -- is of that type, and the error of an unexpected type if not or if it is nil. Every other type
  -- resolves as before.
  pub resolve-replace :
      (t u : Bytes) (v : Option (Value W)) (c : Container W)
      → resolve type_name is_a u (replace t v (some c)) ≡ (
          if text_eq t u
          then (elim v [
            | none ↦ err (unexpected_type (type_name u))
            | some x ↦ if is_a u x then ok x else err (unexpected_type (type_name u))
          ])
          else resolve type_name is_a u (some c))
  unfolding replace resolve typed collect_lifecycle set_value
  resolve-replace t u v c = ground (arith, lookup-insert t u v c.values, text_eq_iff t u)

  unfoldable pub is_named : Bytes → Container W → Bool
  is_named n c = elim (lookup n c.names) [ none ↦ false | some _ ↦ true ]

  -- RegisterName, for a name that is not empty: a name that has a value keeps it, and the reply is
  -- the error ErrDuplicate. A name that has none gets the value, which ResolveName then
  -- replies if it is of the type asked for, and the error of an unexpected type if not or if it is
  -- nil. Every other name resolves as before, at any type, and so does every type.
  pub resolve_name-register_name :
      (n m t : Bytes) (a b : ℕ) (v : Option (Value W)) (c : Container W)
      → ((register_name (a ∷ n) v (some c)).0
          ≡ (if is_named (a ∷ n) c then some (duplicate (a ∷ n)) else none))
        × (resolve_name type_name is_a t (b ∷ m) (register_name (a ∷ n) v (some c)).1 ≡ (
            if is_named (a ∷ n) c
            then resolve_name type_name is_a t (b ∷ m) (some c)
            else if text_eq (a ∷ n) (b ∷ m)
            then (elim v [
              | none ↦ err (unexpected_type (b ∷ m))
              | some x ↦ if is_a t x then ok x else err (unexpected_type (b ∷ m))
            ])
            else resolve_name type_name is_a t (b ∷ m) (some c)))
        × (resolve type_name is_a t (register_name (a ∷ n) v (some c)).1
            ≡ resolve type_name is_a t (some c))
  unfolding register_name resolve_name typed is_named collect_lifecycle set_name resolve
  resolve_name-register_name n m t a b v c = (
    ground arith,
    ground (arith, lookup-insert (a ∷ n) (b ∷ m) v c.names, text_eq_iff (a ∷ n) (b ∷ m)),
    ground arith,
  )
