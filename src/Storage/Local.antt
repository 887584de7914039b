-- ===== src/Storage/Local.antt =====
-- storage/local.go: a disk in a directory. The file system is a parameter `Files`, and `Tools` has
-- the functions of the standard library whose results the disk passes on without a look.
use chobits.Prelude.{
  ℕ, Bool, true, false, not, ◌&&◌, ◌==◌, Option, none, some, [], ◌∷◌, ◌++◌, if◌then◌else◌, Bytes,
  codes, Result, ok, err, ltb, length,
}
use chobits.Int64.{ℤ, pos, is_positive, pos_part, ◌+ℤ◌, wrap64, leb_ℤ}
use chobits.Text.Path.{join_path}
use chobits.Storage.{
  Error, invalid_path, too_large, not_exist, Err, clean_object_path, to_hex, public_url,
  SaveOptions, ObjectInfo, Upload, Disk,
}

-- What the disk calls of package os. `create` is os.MkdirAll of the directory that the file is to
-- stand in, then os.OpenFile, which fails on a file that is there unless its flag says to
-- overwrite; `write` is io.Copy into the file that was opened.
pub record Files (W : Type 0) : Type 0 where
  pub read : Bytes → W → Result Error Bytes × W
  pub make_dir : Bytes → ℕ → W → Err × W
  pub create : Bytes → Bool → ℕ → W → Err × W
  pub write : Bytes → Bytes → W → Err × W
  pub remove : Bytes → W → Err × W
  pub stat : Bytes → W → Err × W

-- rand.Read of twelve bytes, the clock, the year and month of a time, strings.ToLower,
-- filepath.Ext, filepath.Dir, sha256.Sum256 and http.DetectContentType
pub record Tools (W : Type 0) : Type 0 where
  pub random : W → Result Error Bytes × W
  pub clock : W → ℕ × W
  pub month : ℕ → Bytes
  pub to_lower : Bytes → Bytes
  pub ext : Bytes → Bytes
  pub dir : Bytes → Bytes
  pub sha256 : Bytes → Bytes
  pub detect : Bytes → Bytes

-- LocalDisk
pub record Local : Type 0 where
  pub root_dir : Bytes
  pub public_base_url : Bytes
  pub max_upload_size : ℤ
  pub dir_mode : ℕ
  pub file_mode : ℕ

unfoldable pub new_local : Bytes → Bytes → ℤ → ℕ → ℕ → Local
new_local root base max dir_mode file_mode = record {
  root_dir = root;
  public_base_url = base;
  max_upload_size = max;
  dir_mode = if dir_mode == 0 then 493 else dir_mode;
  file_mode = if file_mode == 0 then 420 else file_mode;
}

unfoldable pub limit_of : Local → ℤ → ℤ
limit_of l max = if is_positive max then max else l.max_upload_size

-- More bytes than the limit, where a limit that is not positive is none.
unfoldable pub is_over : ℤ → ℕ → Bool
is_over limit n = is_positive limit && ltb (pos_part limit) n

unfoldable pub path_or : Bytes → Bytes → Bytes
path_or [] other = other
path_or (a ∷ s) other = a ∷ s

-- makeObjectPath, from the random bytes on
unfoldable pub object_name : {W : Type 0} → Tools W → ℕ → Bytes → Bytes → Bytes → Bytes
unfolding path_or to_hex
object_name tools now uid name random = join_path (tools.month now) (
    path_or uid (codes "0")
    ++ (codes "_" ++ (to_hex random ++ path_or (tools.to_lower (tools.ext name)) (codes ".bin"))))

module _ {W : Type 0} (tools : Tools W) (files : Files W) (l : Local) where
  unfoldable pub open_path : Bytes → Result Error Bytes
  unfolding clean_object_path join_path
  open_path path = elim (clean_object_path path) [
    | err e ↦ err e
    | ok cleaned ↦ ok (join_path l.root_dir cleaned)
  ]

  unfoldable pub get : Bytes → W → Result Error Bytes × W
  unfolding open_path
  get path w = elim (open_path path) [ err e ↦ (err e, w) | ok full ↦ files.read full w ]

  unfoldable pub unless_missing : Err → Err
  unless_missing none = none
  unless_missing (some not_exist) = none
  unless_missing (some e) = some e

  unfoldable pub drop : Bytes → W → Err × W
  unfolding open_path unless_missing
  drop path w = elim (open_path path) [
    | err e ↦ (some e, w)
    | ok full ↦ let (e, w') = files.remove full w in (unless_missing e, w')
  ]

  unfoldable pub presence : Err → Result Error Bool
  presence none = ok true
  presence (some not_exist) = ok false
  presence (some e) = err e

  unfoldable pub exists : Bytes → W → Result Error Bool × W
  unfolding open_path presence
  exists path w = elim (open_path path) [
    | err e ↦ (err e, w)
    | ok full ↦ let (e, w') = files.stat full w in (presence e, w')
  ]

  unfoldable pub url : Bytes → Bytes
  url path = public_url l.public_base_url path []

  unfoldable pub now_of : Option ℕ → W → ℕ × W
  now_of none w = tools.clock w
  now_of (some t) w = (t, w)

  -- the path of the object before its directory is put in front
  unfoldable pub choose_path : SaveOptions → W → Result Error Bytes × W
  unfolding now_of object_name
  choose_path options w =
      let (now, w') = now_of options.now w in
      elim options.filename [
        | [] ↦
            let (random, w'') = tools.random w' in
            elim random [
              | err e ↦ (err e, w'')
              | ok random_bytes ↦
                  (ok (object_name tools now options.uid options.original_name random_bytes), w'')
            ]
        | a ∷ s ↦ (ok (a ∷ s), w')
      ]

  unfoldable pub in_dir : Bytes → Bytes → Bytes
  unfolding join_path
  in_dir [] path = path
  in_dir (a ∷ dir) path = join_path (a ∷ dir) path

  unfoldable pub info_of : Bytes → Bytes → Bytes → ObjectInfo
  unfolding url to_hex
  info_of path bytes content_type = record {
    disk = [];
    path = path;
    url = url path;
    size = length bytes;
    checksum = to_hex (tools.sha256 bytes);
    content_type = path_or content_type (tools.detect bytes);
  }

  -- from os.MkdirAll on
  unfoldable pub store : Bytes → Bytes → Bytes → Bool → W → Result Error ObjectInfo × W
  unfolding join_path info_of
  store path bytes content_type overwrite w =
      let full = join_path l.root_dir path in
      let (e, w1) = files.make_dir (tools.dir full) l.dir_mode w in
      elim e [
        | some x ↦ (err x, w1)
        | none ↦
            let (e', w2) = files.create full overwrite l.file_mode w1 in
            elim e' [
              | some x ↦ (err x, w2)
              | none ↦
                  let (e'', w3) = files.write full bytes w2 in
                  elim e'' [
                    | some x ↦ (err x, w3)
                    | none ↦ (ok (info_of path bytes content_type), w3)
                  ]
            ]
      ]

  -- from the choice of the path on
  unfoldable pub save_at :
      Bytes → Bytes → SaveOptions → Result Error Bytes → W → Result Error ObjectInfo × W
  unfolding in_dir store
  save_at bytes content_type options (err e) w = (err e, w)
  save_at bytes content_type options (ok chosen) w =
      elim (clean_object_path (in_dir options.dir chosen)) [
        | err e ↦ (err e, w)
        | ok path ↦ store path bytes content_type options.overwrite w
      ]

  unfoldable pub save_bytes : Bytes → Bytes → SaveOptions → W → Result Error ObjectInfo × W
  unfolding limit_of is_over choose_path save_at
  save_bytes bytes content_type options w =
      let (chosen, w') = choose_path options w in
      if is_over (limit_of l options.max_bytes) (length bytes)
      then (err too_large, w)
      else save_at bytes content_type options chosen w'

  -- the options of Put
  unfoldable pub put_options : Bytes → SaveOptions
  put_options path = record {
    disk = [];
    uid = [];
    dir = [];
    now = none;
    max_bytes = pos 0;
    filename = path;
    original_name = [];
    overwrite = true;
  }

  unfoldable pub put : Bytes → Bytes → W → Err × W
  unfolding save_bytes put_options
  put path bytes w =
      let (r, w') = save_bytes bytes [] (put_options path) w in
      (elim r [ ok _ ↦ none | err e ↦ some e ], w')

  -- the limit of the reader: one byte more than the limit, in an int64
  unfoldable pub reader_limit : ℤ → Option ℤ
  reader_limit limit = if is_positive limit then some (wrap64 (limit +ℤ pos 1)) else none

  -- the options, with the name of the upload for want of another
  unfoldable pub name_options : SaveOptions → Bytes → SaveOptions
  unfolding path_or
  name_options options name = record {
    disk = options.disk;
    uid = options.uid;
    dir = options.dir;
    now = options.now;
    max_bytes = options.max_bytes;
    filename = options.filename;
    original_name = path_or options.original_name name;
    overwrite = options.overwrite;
  }

  -- from the second test of the size on
  unfoldable pub save_read :
      Upload W → SaveOptions → Result Error Bytes → W → Result Error ObjectInfo × W
  unfolding limit_of is_over name_options save_bytes
  save_read file options (err e) w = (err e, w)
  save_read file options (ok bytes) w =
      if is_over (limit_of l options.max_bytes) (length bytes)
      then (err too_large, w)
      else save_bytes bytes file.content_type (name_options options file.filename) w

  unfoldable pub save_opened :
      Upload W
      → SaveOptions
      → Result Error (Option ℤ → Result Error Bytes)
      → W
      → Result Error ObjectInfo × W
  unfolding save_read reader_limit limit_of
  save_opened file options (err e) w = (err e, w)
  save_opened file options (ok read) w =
      save_read file options (read (reader_limit (limit_of l options.max_bytes))) w

  unfoldable pub save_upload : Option (Upload W) → SaveOptions → W → Result Error ObjectInfo × W
  unfolding limit_of save_opened
  save_upload none options w = (err invalid_path, w)
  save_upload (some file) options w =
      let limit = limit_of l options.max_bytes in
      let (opened, w') = file.read w in
      if is_positive limit && not (leb_ℤ file.size limit)
      then (err too_large, w)
      else save_opened file options opened w'

  -- LocalDisk as a Storage
  unfoldable pub local_disk : Disk W
  unfolding get put save_upload save_bytes drop exists url open_path
  local_disk = record {
    get = get;
    put = put;
    save_upload = save_upload;
    save_bytes = save_bytes;
    delete = drop;
    exists = exists;
    url = λ path options. url path;
    open_path = open_path;
  }
