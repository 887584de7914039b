-- ===== src/Config/Env.antt =====
-- config/env.go: ApplyEnv on a value of a struct type, which reflection reads as a tree. The upper
-- case of package strings and ParseFloat are parameters; a float is known by its bits. A value that
-- is half changed when an error comes is not modelled: the result is then the error alone.
use chobits.Prelude.{
  ℕ, ◌-◌, ◌^◌, Bool, true, false, ◌||◌, Option, none, some, List, [], ◌∷◌, ◌++◌, Bytes, codes,
  if◌then◌else◌, Result, ok, err, map, ◌==◌, ltb,
}
use chobits.Int64.{ℤ, pos, negsuc}
use chobits.Int64.Decimal.{
  Parsed, parsed, bad_syntax, out_of_range, parse_int, Scan, scanned, not_digit, too_big,
  parse_uint,
}
use chobits.Text.{text_eq}
use chobits.Text.Path.{into_first}
use chobits.Text.Trim.{trim_space}
use chobits.Config.Dsn.{is_empty}

-- `of_variable` holds the name of the variable.
pub data Error : Type 0 where
  bad_value not_in_range unsupported : Error
  of_variable : Bytes → Error → Error

-- A value that is neither a struct, a map nor a pointer; numbers have their bits.
pub data Scalar : Type 0 where
  text : Bytes → Scalar
  bool : Bool → Scalar
  int : ℕ → ℤ → Scalar
  uint : ℕ → ℕ → Scalar
  float : ℕ → ℕ → Scalar
  texts : List Bytes → Scalar
  other : Scalar

-- A field of a struct type: its name in Go, its yaml tag, and whether it is exported.
pub record Field : Type 0 where
  pub name : Bytes
  pub tag : Bytes
  pub exported : Bool

-- A pointer says whether it is nil, and has what it points to, or the zero of its type.
mutual
  pub data Value : Type 0 where
    pointer : Bool → Value → Value
    struct : Fields → Value
    dict : Items → Value
    other_map : Value
    scalar : Scalar → Value

  pub data Fields : Type 0 where
    no_fields : Fields
    field : Field → Value → Fields → Fields

  pub data Items : Type 0 where
    no_items : Items
    item : Bytes → Value → Items → Items

-- strings.Split(s, ",")
unfoldable pub split_commas : Bytes → List Bytes
unfolding into_first
split_commas [] = [] ∷ []
split_commas (a ∷ s) =
    let rest = split_commas s in if a == b',' then [] ∷ rest else into_first a rest

unfoldable pub has_inline : List Bytes → Bool
unfolding text_eq
has_inline [] = false
has_inline (option ∷ options) = text_eq option (codes "inline") || has_inline options

-- yamlFieldName: nothing for a field that is skipped, or the name, and whether it is inline
unfoldable pub name_of : Bytes → List Bytes → Bytes × Bool
unfolding has_inline
name_of go_name [] = (go_name, false)
name_of go_name ([] ∷ options) = (go_name, has_inline options)
name_of go_name ((a ∷ name) ∷ options) = (a ∷ name, has_inline options)

unfoldable pub yaml_field_name : Field → Option (Bytes × Bool)
unfolding text_eq name_of split_commas
yaml_field_name f =
    if text_eq f.tag (codes "-") then none else some (name_of f.name (split_commas f.tag))

-- both calls of strings.ReplaceAll
unfoldable pub underscored : Bytes → Bytes
underscored [] = []
underscored (a ∷ s) =
    let rest = underscored s in (if (a == b'-') || (a == b'.') then b'_' else a) ∷ rest

-- strings.Join(parts, "_")
unfoldable pub join_parts : List Bytes → Bytes
join_parts [] = []
join_parts (x ∷ []) = x
join_parts (x ∷ y ∷ xs) = x ++ b'_' ∷ join_parts (y ∷ xs)

unfoldable pub prefix_parts : Bytes → List Bytes
unfolding trim_space
prefix_parts prefix = elim (trim_space prefix) [ [] ↦ [] | a ∷ s ↦ (a ∷ s) ∷ [] ]

-- envName: the empty text if there is no path
unfoldable pub env_name : (Bytes → Bytes) → List Bytes → List Bytes → Bytes
unfolding underscored join_parts
env_name upper prefix [] = []
env_name upper prefix (p ∷ path) =
    join_parts (map (λ part. upper (underscored part)) (prefix ++ p ∷ path))

-- strconv.ParseBool
unfoldable pub one_of : Bytes → List Bytes → Bool
unfolding text_eq
one_of s [] = false
one_of s (t ∷ ts) = text_eq s t || one_of s ts

unfoldable pub parse_bool : Bytes → Result Error Bool
unfolding one_of
parse_bool s =
    if one_of s
      (codes "1" ∷ codes "t" ∷ codes "T" ∷ codes "TRUE" ∷ codes "true" ∷ codes "True" ∷ [])
    then ok true
    else if one_of s
        (codes "0" ∷ codes "f" ∷ codes "F" ∷ codes "FALSE" ∷ codes "false" ∷ codes "False" ∷ [])
    then ok false
    else err bad_value

-- strconv.ParseInt(raw, 10, bits) and strconv.ParseUint
unfoldable pub fits : ℕ → ℤ → Bool
fits bits (pos n) = ltb n (2 ^ (bits - 1))
fits bits (negsuc n) = ltb n (2 ^ (bits - 1))

unfoldable pub int_of : ℕ → Parsed → Result Error Scalar
unfolding fits
int_of bits (parsed z) = if fits bits z then ok (int bits z) else err not_in_range
int_of bits bad_syntax = err bad_value
int_of bits (out_of_range z) = err not_in_range

unfoldable pub uint_of : ℕ → Scan → Result Error Scalar
uint_of bits (scanned n) = if ltb n (2 ^ bits) then ok (uint bits n) else err not_in_range
uint_of bits not_digit = err bad_value
uint_of bits too_big = err not_in_range

unfoldable pub bool_of : Result Error Bool → Result Error Scalar
bool_of (ok b) = ok (bool b)
bool_of (err e) = err e

unfoldable pub float_of : ℕ → Result Error ℕ → Result Error Scalar
float_of bits (ok n) = ok (float bits n)
float_of bits (err e) = err e

-- What stands between the commas, trimmed; nothing for a blank text.
unfoldable pub list_of : Bytes → List Bytes
unfolding trim_space is_empty split_commas
list_of raw = if is_empty (trim_space raw) then [] else map trim_space (split_commas raw)

pub record Environment : Type 0 where
  pub lookup_env : Bytes → Option Bytes
  pub upper : Bytes → Bytes
  pub parse_float : ℕ → Bytes → Result Error ℕ

module _ (env : Environment) (prefix : List Bytes) where
  -- setValueFromString
  unfoldable pub set_value : Scalar → Bytes → Result Error Scalar
  unfolding parse_bool bool_of int_of uint_of float_of list_of
  set_value (text s) raw = ok (text raw)
  set_value (bool b) raw = bool_of (parse_bool raw)
  set_value (int bits z) raw = int_of bits (parse_int raw)
  set_value (uint bits n) raw = uint_of bits (parse_uint raw)
  set_value (float bits n) raw = float_of bits (env.parse_float bits raw)
  set_value (texts ts) raw = ok (texts (list_of raw))
  set_value other raw = err unsupported

  unfoldable pub named_error : Bytes → Result Error Scalar → Result Error Value
  named_error name (ok s) = ok (scalar s)
  named_error name (err e) = err (of_variable name e)

  -- the value of the variable, if it is set
  unfoldable pub set_from : Bytes → Scalar → Option Bytes → Result Error Value
  unfolding set_value named_error
  set_from name s none = ok (scalar s)
  set_from name s (some raw) = named_error name (set_value s raw)

  unfoldable pub apply_scalar : List Bytes → Scalar → Result Error Value
  unfolding env_name set_from
  apply_scalar path s = elim (env_name env.upper prefix path) [
    | [] ↦ ok (scalar s)
    | a ∷ name ↦ set_from (a ∷ name) s (env.lookup_env (a ∷ name))
  ]

  -- a part that may fail, and the whole with it
  unfoldable pub within : {A B : Type 0} → (A → B) → Result Error A → Result Error B
  within f (ok a) = ok (f a)
  within f (err e) = err e

  -- the field with its value, in front of the others
  unfoldable pub with_field : Field → Result Error Value → Result Error Fields → Result Error Fields
  unfolding within
  with_field f (ok v) rest = within (field f v) rest
  with_field f (err e) rest = err e

  unfoldable pub with_item : Bytes → Result Error Value → Result Error Items → Result Error Items
  unfolding within
  with_item key (ok v) rest = within (item key v) rest
  with_item key (err e) rest = err e

  -- the path of a field that is exported and not skipped
  unfoldable pub field_path : List Bytes → Field → Option (List Bytes)
  unfolding yaml_field_name
  field_path path f =
      if f.exported
      then (elim (yaml_field_name f) [
        | none ↦ none
        | some (name, inline) ↦ some (if inline then path else path ++ name ∷ [])
      ])
      else none

  unfoldable mutual
    unfolding within apply_scalar field_path with_field with_item

    pub apply_value : List Bytes → Value → Result Error Value
    apply_value path (pointer is_nil v) = within (pointer false) (apply_value path v)
    apply_value path (struct fs) = within struct (apply_fields path fs)
    apply_value path (dict is) = within dict (apply_items path is)
    apply_value path other_map = ok other_map
    apply_value path (scalar s) = apply_scalar path s

    pub apply_fields : List Bytes → Fields → Result Error Fields
    apply_fields path no_fields = ok no_fields
    apply_fields path (field f v fs) =
        let rest = apply_fields path fs in
        elim (field_path path f) [
          | none ↦ with_field f (ok v) rest
          | some p ↦ with_field f (apply_value p v) rest
        ]

    pub apply_items : List Bytes → Items → Result Error Items
    apply_items path no_items = ok no_items
    apply_items path (item key v is) =
        with_item key (apply_value (path ++ key ∷ []) v) (apply_items path is)

-- ApplyEnv of a target that is a pointer and not nil
unfoldable pub apply_env : Environment → Bytes → Value → Result Error Value
unfolding prefix_parts apply_value
apply_env env prefix v = apply_value env (prefix_parts prefix) [] v
