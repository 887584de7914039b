-- ===== src/Config/Tests/Env.antt =====
-- Variables of the environment over a concrete target.
use chobits.Prelude.{
  ℕ, ◌-◌, ◌≡◌, refl, true, false, ◌&&◌, [], ◌∷◌, Bytes, codes, ok, err, if◌then◌else◌, map, leb,
}
use chobits.Int64.{pos, negsuc}
use chobits.Int64.Decimal.{parse_int}
use chobits.Text.{text_eq}
use chobits.Text.Dict.{Dict, lookup}
use chobits.Config.Env.{
  Environment, Value, Field, bad_value, of_variable, bool, int, texts, pointer, struct, dict,
  scalar, no_fields, field, no_items, item, apply_env,
}
use chobits.Config.Override.{Fixes, apply_env-Fixes}

abbrev variables : Dict Bytes
variables =
    (codes "APP_SERVER_PORT", codes "-12")
    ∷ (codes "APP_ORIGINS", codes "a, b")
    ∷ (codes "APP_FEATURES_NEW_UI", codes "T")
    ∷ []

abbrev upper_byte : ℕ → ℕ
upper_byte c = if leb b'a' c && leb c b'z' then c - 32 else c

abbrev environment : Environment
environment = record {
  lookup_env = λ name. lookup name variables;
  upper = map upper_byte;
  parse_float = λ bits s. err bad_value;
}

abbrev exported_field : Bytes → Bytes → Field
exported_field name tag = record { name = name; tag = tag; exported = true }

abbrev target : Value
target = struct (
    field (exported_field (codes "Server") (codes "server,omitempty"))
      (pointer true
        (struct (field (exported_field (codes "Port") []) (scalar (int 64 (pos 0))) no_fields)))
      (field (exported_field (codes "Origins") (codes "origins")) (scalar (texts [])) (
        field (exported_field (codes "Features") (codes "features"))
          (dict (item (codes "new-ui") (scalar (bool false)) no_items)) no_fields)))

abbrev changed : Value
changed = struct (
    field (exported_field (codes "Server") (codes "server,omitempty"))
      (pointer false
        (struct (field (exported_field (codes "Port") []) (scalar (int 64 (negsuc 11))) no_fields)))
      (field (exported_field (codes "Origins") (codes "origins"))
        (scalar (texts (codes "a" ∷ codes "b" ∷ [])))
        (field (exported_field (codes "Features") (codes "features"))
          (dict (item (codes "new-ui") (scalar (bool true)) no_items)) no_fields)))

changes_all : apply_env environment (codes "app") target ≡ ok changed
unfolding apply_env lookup text_eq parse_int
changes_all = refl

names_the_variable :
    apply_env environment (codes "app") (
      struct (
        field
          (exported_field (codes "Origins") (codes "origins"))
          (scalar (int 8 (pos 0)))
          no_fields))
    ≡ err (of_variable (codes "APP_ORIGINS") bad_value)
unfolding apply_env lookup text_eq parse_int
names_the_variable = refl

apply_env-Fixes_example :
    Fixes (apply_env environment (codes "app")) (apply_env environment (codes "app") target)
apply_env-Fixes_example = apply_env-Fixes environment (codes "app") target
