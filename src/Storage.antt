-- ===== src/Storage.antt =====
-- storage/path.go and storage/storage.go: object paths, disks and the manager of named disks. A
-- disk lives in a world `W`; contexts and their cancellation are not modelled.
pub mod UpyunDisabled
pub mod External
pub mod Local
pub mod Config
pub mod Safety
pub mod Public
pub mod Tests
use chobits.Prelude.{
  ℕ, ◌+◌, Bool, true, false, ◌||◌, Option, none, some, List, [], ◌∷◌, ◌++◌, if◌then◌else◌, Bytes,
  codes, Result, ok, err, ltb, ◌/◌, ◌%◌, ◌==◌,
}
use chobits.Int64.{ℤ}
use chobits.Text.{text_eq, has_prefix, trim_prefix, cut}
use chobits.Text.Dict.{Dict, lookup}
use chobits.Text.Path.{clean, dot, dotdot, join_path, slash}

pub data Error : Type 0 where
  disk_not_found invalid_path too_large unsupported not_exist : Error
  failure : ℕ → Error

-- Go's `error`: nil is `none`.
abbrev pub Err : Type 0
Err = Option Error

-- strings.ReplaceAll(value, "\\", "/")
unfoldable pub to_slashes : Bytes → Bytes
to_slashes [] = []
to_slashes (a ∷ s) = let rest = to_slashes s in (if a == 92 then slash else a) ∷ rest

unfoldable pub accept_path : Bytes → Result Error Bytes
unfolding text_eq has_prefix
accept_path cleaned =
    if text_eq cleaned dot || has_prefix cleaned (codes "../") || text_eq cleaned dotdot
    then err invalid_path
    else ok cleaned

unfoldable pub clean_object_path : Bytes → Result Error Bytes
unfolding to_slashes accept_path
clean_object_path value = accept_path (clean (trim_prefix (to_slashes value) (slash ∷ [])))

unfoldable pub nonempty_parts : Bytes → Bytes → Option (Bytes × Bytes)
nonempty_parts [] path = none
nonempty_parts (a ∷ name) [] = none
nonempty_parts (a ∷ name) (b ∷ path) = some (a ∷ name, b ∷ path)

unfoldable pub split_disk_path : Bytes → Option (Bytes × Bytes)
unfolding nonempty_parts
split_disk_path value = elim (cut slash value) [
  | none ↦ none
  | some (name, path) ↦ nonempty_parts name path
]

-- hex.EncodeToString
unfoldable pub hex_digit : ℕ → ℕ
hex_digit n = if ltb n 10 then 48 + n else 87 + n

unfoldable pub to_hex : Bytes → Bytes
unfolding hex_digit
to_hex [] = []
to_hex (b ∷ s) = let rest = to_hex s in hex_digit (b / 16) ∷ hex_digit (b % 16) ∷ rest

-- URLOptions
pub record UrlOptions : Type 0 where
  pub size : Bytes

abbrev pub UrlOption : Type 0
UrlOption = UrlOptions → UrlOptions

unfoldable pub with_size : Bytes → UrlOption
with_size size options = record { size = size }

-- the loop that applies the options
unfoldable pub apply_options : List UrlOption → UrlOptions → UrlOptions
apply_options [] options = options
apply_options (f ∷ fs) options = apply_options fs (f options)

unfoldable pub add_size : Bytes → Bytes → Bytes
add_size result [] = result
add_size result (a ∷ size) = result ++ (codes "!" ++ (a ∷ size))

unfoldable pub append_url_options : Bytes → List UrlOption → Bytes
unfolding apply_options add_size
append_url_options result options =
    add_size result (apply_options options (record { size = [] })).size

-- strings.HasSuffix(base, "/")
unfoldable pub ends_in_slash : Bytes → Bool
ends_in_slash [] = false
ends_in_slash (a ∷ []) = a == slash
ends_in_slash (a ∷ b ∷ s) = ends_in_slash (b ∷ s)

unfoldable pub public_url_of : Bytes → Result Error Bytes → List UrlOption → Bytes
unfolding ends_in_slash append_url_options
public_url_of base (err e) options = []
public_url_of [] (ok cleaned) options = []
public_url_of (a ∷ s) (ok cleaned) options =
    let base = if ends_in_slash (a ∷ s) then a ∷ s else (a ∷ s) ++ (slash ∷ []) in
    append_url_options (base ++ trim_prefix cleaned (slash ∷ [])) options

unfoldable pub public_url : Bytes → Bytes → List UrlOption → Bytes
unfolding clean_object_path public_url_of
public_url base path options = public_url_of base (clean_object_path path) options

-- SaveOptions; the zero time is `none`
pub record SaveOptions : Type 0 where
  pub disk : Bytes
  pub uid : Bytes
  pub dir : Bytes
  pub now : Option ℕ
  pub max_bytes : ℤ
  pub filename : Bytes
  pub original_name : Bytes
  pub overwrite : Bool

pub record ObjectInfo : Type 0 where
  pub disk : Bytes
  pub path : Bytes
  pub url : Bytes
  pub size : ℕ
  pub checksum : Bytes
  pub content_type : Bytes

-- multipart.FileHeader. `read` opens the file, and then says what io.ReadAll gives, through an
-- io.LimitReader of a number of bytes if there is one.
pub record Upload (W : Type 0) : Type 0 where
  pub size : ℤ
  pub filename : Bytes
  pub content_type : Bytes
  pub read : W → Result Error (Option ℤ → Result Error Bytes) × W

-- The interface Storage
pub record Disk (W : Type 0) : Type 0 where
  pub get : Bytes → W → Result Error Bytes × W
  pub put : Bytes → Bytes → W → Err × W
  pub save_upload : Option (Upload W) → SaveOptions → W → Result Error ObjectInfo × W
  pub save_bytes : Bytes → Bytes → SaveOptions → W → Result Error ObjectInfo × W
  pub delete : Bytes → W → Err × W
  pub exists : Bytes → W → Result Error Bool × W
  pub url : Bytes → List UrlOption → Bytes
  pub open_path : Bytes → Result Error Bytes

pub record Manager (W : Type 0) : Type 0 where
  pub disks : Dict (Disk W)
  pub default_disk : Bytes

unfoldable pub named : Bytes → ObjectInfo → ObjectInfo
named name info = record {
  disk = name;
  path = info.path;
  url = info.url;
  size = info.size;
  checksum = info.checksum;
  content_type = info.content_type;
}

module _ {W : Type 0} where
  -- the name of a disk, which is the default one if it is empty
  unfoldable pub disk_name : Manager W → Bytes → Bytes
  disk_name m [] = m.default_disk
  disk_name m (a ∷ name) = a ∷ name

  -- Manager.Disk, whose nil is `none`
  unfoldable pub disk_of : Option (Manager W) → Bytes → Option (Disk W)
  unfolding disk_name
  disk_of none name = none
  disk_of (some m) name = lookup (disk_name m name) m.disks

  unfoldable pub name_info : Bytes → Result Error ObjectInfo × W → Result Error ObjectInfo × W
  unfolding named
  name_info name (ok info, w) = (ok (named name info), w)
  name_info name (err e, w) = (err e, w)

  unfoldable pub save_upload :
      Option (Manager W) → Option (Upload W) → SaveOptions → W → Result Error ObjectInfo × W
  unfolding disk_name disk_of name_info
  save_upload none file options w = (err disk_not_found, w)
  save_upload (some m) file options w =
      let name = disk_name m options.disk in
      elim (disk_of (some m) name) [
        | none ↦ (err disk_not_found, w)
        | some d ↦ name_info name (d.save_upload file options w)
      ]

  unfoldable pub save_bytes :
      Option (Manager W) → Bytes → Bytes → SaveOptions → W → Result Error ObjectInfo × W
  unfolding disk_name disk_of name_info
  save_bytes none bytes content_type options w = (err disk_not_found, w)
  save_bytes (some m) bytes content_type options w =
      let name = disk_name m options.disk in
      elim (disk_of (some m) name) [
        | none ↦ (err disk_not_found, w)
        | some d ↦ name_info name (d.save_bytes bytes content_type options w)
      ]

  unfoldable pub get : Option (Manager W) → Bytes → Bytes → W → Result Error Bytes × W
  unfolding disk_of
  get m name path w = elim (disk_of m name) [
    | none ↦ (err disk_not_found, w)
    | some d ↦ d.get path w
  ]

  unfoldable pub put : Option (Manager W) → Bytes → Bytes → Bytes → W → Err × W
  unfolding disk_of
  put m name path bytes w = elim (disk_of m name) [
    | none ↦ (some disk_not_found, w)
    | some d ↦ d.put path bytes w
  ]

  unfoldable pub drop : Option (Manager W) → Bytes → Bytes → W → Err × W
  unfolding disk_of
  drop m name path w = elim (disk_of m name) [
    | none ↦ (some disk_not_found, w)
    | some d ↦ d.delete path w
  ]

  unfoldable pub exists : Option (Manager W) → Bytes → Bytes → W → Result Error Bool × W
  unfolding disk_of
  exists m name path w = elim (disk_of m name) [
    | none ↦ (err disk_not_found, w)
    | some d ↦ d.exists path w
  ]

  unfoldable pub url : Option (Manager W) → Bytes → Bytes → List UrlOption → Bytes
  unfolding disk_of
  url m name path options = elim (disk_of m name) [ none ↦ [] | some d ↦ d.url path options ]

  unfoldable pub open_path : Option (Manager W) → Bytes → Bytes → Result Error Bytes
  unfolding disk_of
  open_path m name path = elim (disk_of m name) [
    | none ↦ err disk_not_found
    | some d ↦ d.open_path path
  ]

  -- the disk that the first segment names, if there is one
  unfoldable pub public_disk : Manager W → Bytes → Option (Disk W × Bytes)
  unfolding split_disk_path disk_of
  public_disk m cleaned = elim (split_disk_path cleaned) [
    | none ↦ none
    | some (name, path) ↦ elim (disk_of (some m) name) [ none ↦ none | some d ↦ some (d, path) ]
  ]

  unfoldable pub open_cleaned : Manager W → Bytes → Result Error Bytes
  unfolding public_disk open_path
  open_cleaned m cleaned = elim (public_disk m cleaned) [
    | some (d, path) ↦ d.open_path path
    | none ↦ open_path (some m) [] cleaned
  ]

  unfoldable pub open_public_path : Option (Manager W) → Bytes → Result Error Bytes
  unfolding clean_object_path open_cleaned
  open_public_path none path = err disk_not_found
  open_public_path (some m) path = elim (clean_object_path path) [
    | err e ↦ err e
    | ok cleaned ↦ open_cleaned m cleaned
  ]
