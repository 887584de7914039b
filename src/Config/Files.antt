-- ===== src/Config/Files.antt =====
-- FindFile, ResolvePath and LoadYAML of config/config.go. A target that LoadYAML can fill is a value
-- of a type `T`; `Loader` has what it calls of it, of the file system and of the YAML decoder.
use chobits.Prelude.{
  Bool, true, Option, none, some, List, [], ◌∷◌, ◌++◌, Bytes, codes, Result, ok, err, if◌then◌else◌,
  ◌||◌,
}
use chobits.Text.Path.{is_rooted, join_path, clean}
use chobits.Cache.Config.{or_text}
use chobits.Config.Dsn.{is_empty}

-- The errors of these functions; `unmarshal` holds the path, `failure` stands for the others.
pub data Error : Type 0 where
  nil_target file_not_found : Error
  failure : Bytes → Error
  unmarshal : Bytes → Error → Error

abbrev pub Err : Type 0
Err = Option Error

pub record Options : Type 0 where
  pub dot_env_paths : List Bytes
  pub env_prefix : Bytes
  pub apply_env_override : Bool
  pub search_names : List Bytes
  pub search_dirs : List Bytes

-- LoadYAML's own
abbrev pub default_options : Options
default_options = record {
  dot_env_paths = codes ".env" ∷ [];
  env_prefix = codes "CHOBITS";
  apply_env_override = true;
  search_names = codes "config.yaml" ∷ codes "config.yml" ∷ [];
  search_dirs = codes "." ∷ codes "./config" ∷ [];
}

unfoldable pub with_dot_env : List Bytes → Options → Options
with_dot_env paths o = record o { dot_env_paths = o.dot_env_paths ++ paths }

unfoldable pub with_search_names : List Bytes → Options → Options
with_search_names names o = record o { search_names = o.search_names ++ names }

unfoldable pub with_search_dirs : List Bytes → Options → Options
with_search_dirs dirs o = record o { search_dirs = o.search_dirs ++ dirs }

unfoldable pub with_env_prefix : Bytes → Options → Options
with_env_prefix prefix o = record o { env_prefix = prefix; apply_env_override = true }

unfoldable pub with_env_override : Bool → Options → Options
with_env_override b o = record o { apply_env_override = b }

unfoldable pub apply_options : List (Options → Options) → Options → Options
apply_options [] o = o
apply_options (opt ∷ opts) o = apply_options opts (opt o)

-- os.Stat over the candidates of one directory, and of all
unfoldable pub find_in : (Bytes → Err) → Bytes → List Bytes → Option Bytes
unfolding join_path
find_in stat dir [] = none
find_in stat dir (name ∷ names) =
    let rest = find_in stat dir names in
    let candidate = join_path dir name in
    elim (stat candidate) [ none ↦ some candidate | some e ↦ rest ]

unfoldable pub search : (Bytes → Err) → List Bytes → List Bytes → Result Error Bytes
unfolding find_in
search stat names [] = err file_not_found
search stat names (dir ∷ dirs) =
    let rest = search stat names dirs in
    elim (find_in stat dir names) [ some found ↦ ok found | none ↦ rest ]

unfoldable pub find_file : (Bytes → Err) → Bytes → List Bytes → List Bytes → Result Error Bytes
unfolding search
find_file stat [] names dirs = search stat names dirs
find_file stat (a ∷ path) names dirs = elim (stat (a ∷ path)) [
  | none ↦ ok (a ∷ path)
  | some e ↦ err e
]

unfoldable pub resolve_path : Bytes → Bytes → Bytes
unfolding is_empty is_rooted or_text clean join_path
resolve_path base_dir value =
    if is_empty value || is_rooted value
    then value
    else clean (join_path (or_text base_dir (codes ".")) value)

-- `defaults` and `validate` are none where the target has no such method.
pub record Loader (W T : Type 0) : Type 0 where
  pub try_dot_env : List Bytes → W → W
  pub stat : W → Bytes → Err
  pub read_file : Bytes → W → Result Error Bytes
  pub decode : Bytes → T → Result Error T
  pub apply_env : W → Bytes → T → Result Error T
  pub defaults : Option (T → T)
  pub validate : Option (T → Err)

module _ {W T : Type 0} (loader : Loader W T) where
  unfoldable pub override : Options → W → T → Result Error T
  override o w t = if o.apply_env_override then loader.apply_env w o.env_prefix t else ok t

  unfoldable pub defaulted : T → T
  defaulted t = elim loader.defaults [ none ↦ t | some f ↦ f t ]

  -- a step that may fail, and what follows it
  unfoldable pub then_do {ℓ} :
      {A B : Type ℓ} → Result Error A → (A → Result Error B) → Result Error B
  then_do (ok a) next = next a
  then_do (err e) next = err e

  unfoldable pub accept : T → Err → Result Error T
  accept t none = ok t
  accept t (some e) = err e

  unfoldable pub validated : Option (T → Err) → T → Result Error T
  unfolding accept
  validated none t = ok t
  validated (some f) t = accept t (f t)

  -- from the decoded target on
  unfoldable pub finish : Options → W → T → Result Error T
  unfolding override defaulted then_do validated
  finish o w t =
      then_do (override o w t)
        (λ t1. then_do (override o w (defaulted t1)) (validated loader.validate))

  unfoldable pub decode_file : Bytes → T → Bytes → Result Error T
  decode_file used t data_bytes = elim (loader.decode data_bytes t) [
    | ok t' ↦ ok t'
    | err e ↦ err (unmarshal used e)
  ]

  -- from the path of the file on
  unfoldable pub load_used : Options → W → T → Bytes → Result Error (Bytes × T)
  unfolding then_do decode_file finish
  load_used o w t used = then_do (loader.read_file used w) (λ bytes.
      then_do (decode_file used t bytes) (λ t1. then_do (finish o w t1) (λ t2. ok (used, t2))))

  -- LoadYAML: a nil target is `none`
  unfoldable pub load_yaml :
      Bytes → Option T → List (Options → Options) → W → Result Error (Bytes × T) × W
  unfolding apply_options find_file load_used then_do
  load_yaml path none opts w = (err nil_target, w)
  load_yaml path (some t) opts w =
      let o = apply_options opts default_options in
      let w1 = loader.try_dot_env o.dot_env_paths w in
      (
        then_do (find_file (loader.stat w1) path o.search_names o.search_dirs) (load_used o w1 t),
        w1,
      )
