-- ===== src/Config/Override.antt =====
-- ApplyEnv twice is ApplyEnv once, as LoadYAML calls it.
use chobits.Prelude.{
  ℕ, ◌≡◌, refl, ap, ap₂, subst, sym, ◌∙◌, Bool, true, false, Option, none, some, List, [], ◌∷◌,
  ◌++◌, Bytes, Result, ok, err, if◌then◌else◌, ltb, ◌^◌,
}
use chobits.Int64.Decimal.{
  Parsed, parsed, bad_syntax, out_of_range, parse_int, Scan, scanned, not_digit, too_big,
  parse_uint,
}
use chobits.Config.Env.{
  not_in_range, Error, Scalar, text, bool, int, uint, float, texts, other, Value, Fields, Items,
  pointer, struct, dict, other_map, scalar, no_fields, field, no_items, item, Field, Environment,
  set_value, bool_of, int_of, uint_of, float_of, parse_bool, named_error, set_from, apply_scalar,
  env_name, within, with_field, with_item, field_path, apply_value, apply_fields, apply_items,
  apply_env, prefix_parts, fits,
}

-- A result that the function leaves as it is, or an error.
unfoldable pub Fixes : {A : Type 0} → (A → Result Error A) → Result Error A → Type 0
Fixes f (ok a) = f a ≡ ok a
Fixes f (err e) = true ≡ true

module _ (env : Environment) (prefix : List Bytes) where
  bool-Fixes :
      (raw : Bytes) (r : Result Error Bool)
      → parse_bool raw ≡ r
      → Fixes (λ s. set_value env prefix s raw) (bool_of r)
  unfolding Fixes bool_of set_value
  bool-Fixes raw (ok b) e = ap bool_of e
  bool-Fixes raw (err x) e = refl

  float-Fixes :
      (bits : ℕ) (raw : Bytes) (r : Result Error ℕ)
      → env.parse_float bits raw ≡ r
      → Fixes (λ s. set_value env prefix s raw) (float_of bits r)
  unfolding Fixes float_of set_value
  float-Fixes bits raw (ok n) e = ap (float_of bits) e
  float-Fixes bits raw (err x) e = refl

  int-Fixes :
      (bits : ℕ) (raw : Bytes) (p : Parsed)
      → parse_int raw ≡ p
      → Fixes (λ s. set_value env prefix s raw) (int_of bits p)
  unfolding Fixes int_of set_value
  int-Fixes bits raw (parsed z) e =
      elim (fits bits z)
          as (λ b.
            fits bits z ≡ b
            → Fixes (λ s. set_value env prefix s raw)
                (if b then ok (int bits z) else err not_in_range)) [
                  | true ↦ λ f. ap (int_of bits) e ∙ rw f refl
                  | false ↦ λ f. refl
                ]
        refl
  int-Fixes bits raw bad_syntax e = refl
  int-Fixes bits raw (out_of_range z) e = refl

  uint-Fixes :
      (bits : ℕ) (raw : Bytes) (p : Scan)
      → parse_uint raw ≡ p
      → Fixes (λ s. set_value env prefix s raw) (uint_of bits p)
  unfolding Fixes uint_of set_value
  uint-Fixes bits raw (scanned n) e =
      elim (ltb n (2 ^ bits))
          as (λ b.
            ltb n (2 ^ bits) ≡ b
            → Fixes (λ s. set_value env prefix s raw)
                (if b then ok (uint bits n) else err not_in_range)) [
                  | true ↦ λ f. ap (uint_of bits) e ∙ rw f refl
                  | false ↦ λ f. refl
                ]
        refl
  uint-Fixes bits raw not_digit e = refl
  uint-Fixes bits raw too_big e = refl

  set_value-Fixes :
      (s : Scalar) (raw : Bytes)
      → Fixes (λ s. set_value env prefix s raw) (set_value env prefix s raw)
  unfolding Fixes set_value
  set_value-Fixes (text s) raw = refl
  set_value-Fixes (bool b) raw = bool-Fixes raw (parse_bool raw) refl
  set_value-Fixes (int bits z) raw = int-Fixes bits raw (parse_int raw) refl
  set_value-Fixes (uint bits n) raw = uint-Fixes bits raw (parse_uint raw) refl
  set_value-Fixes (float bits n) raw = float-Fixes bits raw (env.parse_float bits raw) refl
  set_value-Fixes (texts ts) raw = refl
  set_value-Fixes other raw = refl

  named_error-Fixes :
      (path : List Bytes) (name : Bytes) (raw : Bytes) (r : Result Error Scalar)
      → ((s : Scalar)
          → apply_scalar env prefix path s
            ≡ named_error env prefix name (set_value env prefix s raw))
      → Fixes (λ s. set_value env prefix s raw) r
      → Fixes (apply_value env prefix path) (named_error env prefix name r)
  unfolding Fixes named_error apply_value
  named_error-Fixes path name raw (ok s) same h = same s ∙ ap (named_error env prefix name) h
  named_error-Fixes path name raw (err e) same h = refl

  unnamed :
      (path : List Bytes) (s : Scalar)
      → env_name env.upper prefix path ≡ []
      → apply_scalar env prefix path s ≡ ok (scalar s)
  unfolding apply_scalar
  unnamed path s e =
      ap
        (λ n. elim n [
          | [] ↦ ok (scalar s)
          | a ∷ name ↦ set_from env prefix (a ∷ name) s (env.lookup_env (a ∷ name))
        ])
        e

  apply_scalar_named :
      (path : List Bytes) (a : ℕ) (name : Bytes) (o : Option Bytes) (s : Scalar)
      → env_name env.upper prefix path ≡ a ∷ name
      → env.lookup_env (a ∷ name) ≡ o
      → apply_scalar env prefix path s ≡ set_from env prefix (a ∷ name) s o
  unfolding apply_scalar
  apply_scalar_named path a name o s e f =
      ap
        (λ n. elim n [
          | [] ↦ ok (scalar s)
          | a ∷ name ↦ set_from env prefix (a ∷ name) s (env.lookup_env (a ∷ name))
        ])
        e
      ∙ ap (set_from env prefix (a ∷ name) s) f

  set_from-Fixes :
      (path : List Bytes) (a : ℕ) (name : Bytes) (s : Scalar) (o : Option Bytes)
      → env_name env.upper prefix path ≡ a ∷ name
      → env.lookup_env (a ∷ name) ≡ o
      → Fixes (apply_value env prefix path) (set_from env prefix (a ∷ name) s o)
  unfolding Fixes set_from apply_value
  set_from-Fixes path a name s none e f = apply_scalar_named path a name none s e f
  set_from-Fixes path a name s (some raw) e f =
      named_error-Fixes path (a ∷ name) raw (set_value env prefix s raw)
        (λ t. apply_scalar_named path a name (some raw) t e f) (set_value-Fixes s raw)

  apply_scalar-Fixes :
      (path : List Bytes) (s : Scalar)
      → Fixes (apply_value env prefix path) (apply_scalar env prefix path s)
  unfolding Fixes apply_value
  apply_scalar-Fixes path s =
      elim (env_name env.upper prefix path)
          as (λ n.
            env_name env.upper prefix path ≡ n
            → Fixes (apply_value env prefix path) (apply_scalar env prefix path s)) [
              | [] ↦ λ e.
                  subst (Fixes (apply_value env prefix path)) (sym (unnamed path s e))
                    (unnamed path s e)
              | a ∷ name ↦ λ e.
                  subst (Fixes (apply_value env prefix path))
                    (sym (apply_scalar_named path a name (env.lookup_env (a ∷ name)) s e refl))
                    (set_from-Fixes path a name s (env.lookup_env (a ∷ name)) e refl)
            ]
        refl

  pointer-Fixes :
      (path : List Bytes) (r : Result Error Value)
      → Fixes (apply_value env prefix path) r
      → Fixes (apply_value env prefix path) (within env prefix (pointer false) r)
  unfolding Fixes within apply_value
  pointer-Fixes path (ok v) h = ap (within env prefix (pointer false)) h
  pointer-Fixes path (err e) h = refl

  struct-Fixes :
      (path : List Bytes) (r : Result Error Fields)
      → Fixes (apply_fields env prefix path) r
      → Fixes (apply_value env prefix path) (within env prefix struct r)
  unfolding Fixes within apply_value
  struct-Fixes path (ok v) h = ap (within env prefix struct) h
  struct-Fixes path (err e) h = refl

  dict-Fixes :
      (path : List Bytes) (r : Result Error Items)
      → Fixes (apply_items env prefix path) r
      → Fixes (apply_value env prefix path) (within env prefix dict r)
  unfolding Fixes within apply_value
  dict-Fixes path (ok v) h = ap (within env prefix dict) h
  dict-Fixes path (err e) h = refl

  with_item-Fixes :
      (path : List Bytes) (key : Bytes) (r : Result Error Value) (rest : Result Error Items)
      → Fixes (apply_value env prefix (path ++ key ∷ [])) r
      → Fixes (apply_items env prefix path) rest
      → Fixes (apply_items env prefix path) (with_item env prefix key r rest)
  unfolding Fixes within with_item apply_items
  with_item-Fixes path key (ok v) (ok is) h k = rw (h, k) refl
  with_item-Fixes path key (ok v) (err e) h k = refl
  with_item-Fixes path key (err e) rest h k = refl

  skipped-Fixes :
      (path : List Bytes) (f : Field) (v : Value) (rest : Result Error Fields)
      → field_path env prefix path f ≡ none
      → Fixes (apply_fields env prefix path) rest
      → Fixes (apply_fields env prefix path) (with_field env prefix f (ok v) rest)
  unfolding Fixes within with_field apply_fields
  skipped-Fixes path f v (ok fs) e k =
      ap
        (λ o. elim o [
          | none ↦ with_field env prefix f (ok v) (apply_fields env prefix path fs)
          | some q ↦
              with_field env prefix f (apply_value env prefix q v) (apply_fields env prefix path fs)
        ])
        e
      ∙ ap (with_field env prefix f (ok v)) k
  skipped-Fixes path f v (err x) e k = refl

  with_field-Fixes :
      (path p : List Bytes) (f : Field) (r : Result Error Value) (rest : Result Error Fields)
      → field_path env prefix path f ≡ some p
      → Fixes (apply_value env prefix p) r
      → Fixes (apply_fields env prefix path) rest
      → Fixes (apply_fields env prefix path) (with_field env prefix f r rest)
  unfolding Fixes within with_field apply_fields
  with_field-Fixes path p f (ok v) (ok fs) e h k =
      ap
        (λ o. elim o [
          | none ↦ with_field env prefix f (ok v) (apply_fields env prefix path fs)
          | some q ↦
              with_field env prefix f (apply_value env prefix q v) (apply_fields env prefix path fs)
        ])
        e
      ∙ ap₂ (with_field env prefix f) h k
  with_field-Fixes path p f (ok v) (err x) e h k = refl
  with_field-Fixes path p f (err x) rest e h k = refl

  other-Fixes : (path : List Bytes) → Fixes (apply_value env prefix path) (ok other_map)
  unfolding Fixes apply_value
  other-Fixes path = refl

  none-Fixes : (path : List Bytes) → Fixes (apply_fields env prefix path) (ok no_fields)
  unfolding Fixes apply_fields
  none-Fixes path = refl

  empty-Fixes : (path : List Bytes) → Fixes (apply_items env prefix path) (ok no_items)
  unfolding Fixes apply_items
  empty-Fixes path = refl

  mutual
    unfolding apply_value apply_fields apply_items

    apply_value-Fixes :
        (path : List Bytes) (v : Value)
        → Fixes (apply_value env prefix path) (apply_value env prefix path v)
    apply_value-Fixes path (pointer is_nil v) =
        pointer-Fixes path (apply_value env prefix path v) (apply_value-Fixes path v)
    apply_value-Fixes path (struct fs) =
        struct-Fixes path (apply_fields env prefix path fs) (apply_fields-Fixes path fs)
    apply_value-Fixes path (dict is) =
        dict-Fixes path (apply_items env prefix path is) (apply_items-Fixes path is)
    apply_value-Fixes path other_map = other-Fixes path
    apply_value-Fixes path (scalar s) = apply_scalar-Fixes path s

    apply_fields-Fixes :
        (path : List Bytes) (fs : Fields)
        → Fixes (apply_fields env prefix path) (apply_fields env prefix path fs)
    apply_fields-Fixes path no_fields = none-Fixes path
    apply_fields-Fixes path (field f v fs) =
        let rest = apply_fields env prefix path fs in
        let ih = apply_fields-Fixes path fs in
        elim (field_path env prefix path f)
            as (λ o.
              field_path env prefix path f ≡ o
              → Fixes (apply_fields env prefix path) (elim o [
                | none ↦ with_field env prefix f (ok v) rest
                | some p ↦ with_field env prefix f (apply_value env prefix p v) rest
              ])) [
                | none ↦ λ e. skipped-Fixes path f v rest e ih
                | some p ↦ λ e.
                    with_field-Fixes path p f (apply_value env prefix p v) rest e
                      (apply_value-Fixes p v) ih
              ]
          refl

    apply_items-Fixes :
        (path : List Bytes) (is : Items)
        → Fixes (apply_items env prefix path) (apply_items env prefix path is)
    apply_items-Fixes path no_items = empty-Fixes path
    apply_items-Fixes path (item key v is) =
        with_item-Fixes path key (apply_value env prefix (path ++ key ∷ []) v)
          (apply_items env prefix path is) (apply_value-Fixes (path ++ key ∷ []) v)
          (apply_items-Fixes path is)

-- If ApplyEnv changes a target without an error, then with the same environment it changes nothing
-- in what it left, and replies no error.
pub apply_env-Fixes :
    (env : Environment) (prefix : Bytes) (v : Value)
    → Fixes (apply_env env prefix) (apply_env env prefix v)
unfolding apply_env Fixes
apply_env-Fixes env prefix v = apply_value-Fixes env (prefix_parts prefix) [] v
