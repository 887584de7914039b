-- ===== src/Storage/Tests.antt =====
-- A local disk over a file system that takes every file, and the theorems at it.
use chobits.Prelude.{
  ℕ, ◌≡◌, ◌≤◌, refl, true, none, some, List, [], ◌∷◌, ◌++◌, Bytes, codes, ok, err, length,
}
use chobits.Int64.{pos}
use chobits.Text.{has_prefix, trim_prefix, drop_text, text_eq, cut}
use chobits.Text.Dict.{lookup}
use chobits.Text.Path.{
  clean, render, is_rooted, split, into_first, walk, visit, go_up, join_path, join_segments,
}
use chobits.Storage.{
  Disk, Manager, SaveOptions, ObjectInfo, not_exist, clean_object_path, accept_path, to_slashes,
  open_public_path, open_cleaned, public_disk, split_disk_path, nonempty_parts, disk_of, disk_name,
  public_url, public_url_of, to_hex, hex_digit,
}
use chobits.Storage.Local.{
  Files, Tools, Local, limit_of, is_over, choose_path, now_of, in_dir, store, save_at, info_of,
  save_bytes, path_or, open_path, save_bytes, url,
}
use chobits.Storage.Safety.{all_names}
use chobits.Storage.Safety.Root.{segments, open_path-below}
use chobits.Storage.Public.{Opens, open_public_path-Opens, save_bytes-limit}

-- The world is the number of files written.
abbrev files : Files ℕ
files = record {
  read = λ path n. (err not_exist, n);
  make_dir = λ path mode n. (none, n);
  create = λ path overwrite mode n. (none, n);
  write = λ path bytes n. (none, 1);
  remove = λ path n. (some not_exist, n);
  stat = λ path n. (some not_exist, n);
}

abbrev tools : Tools ℕ
tools = record {
  random = λ n. (ok (1 ∷ 2 ∷ []), n);
  clock = λ n. (0, n);
  month = λ t. codes "197001";
  to_lower = λ s. s;
  ext = λ s. [];
  dir = λ s. s;
  sha256 = λ s. s;
  detect = λ s. codes "text/plain";
}

abbrev local : Local
local = record {
  root_dir = codes "/srv";
  public_base_url = [];
  max_upload_size = pos 4;
  dir_mode = 493;
  file_mode = 420;
}

open_path-below_example :
    (ns : List Bytes) × (all_names ns ≡ true)
    × (codes "/srv/b/c" ≡ render true (ns ++ segments (codes "/srv")))
    × (clean (codes "/srv") ≡ render true (segments (codes "/srv")))
unfolding is_rooted open_path clean_object_path accept_path to_slashes trim_prefix has_prefix
    drop_text clean split into_first walk visit go_up render join_path join_segments text_eq
open_path-below_example =
    open_path-below tools files local 47 (codes "srv") (codes "/a/../b\\c") (codes "/srv/b/c") refl
      refl

-- A disk that opens every path as it is.
abbrev disk : Disk ℕ
disk = record {
  get = λ path n. (err not_exist, n);
  put = λ path bytes n. (none, n);
  save_upload = λ file options n. (err not_exist, n);
  save_bytes = λ bytes kind options n. (err not_exist, n);
  delete = λ path n. (none, n);
  exists = λ path n. (ok true, n);
  url = λ path options. path;
  open_path = λ path. ok path;
}

abbrev manager : Manager ℕ
manager = record { disks = (codes "pics", disk) ∷ []; default_disk = codes "pics" }

open_public_path-Opens_example : Opens manager (codes "pics/a") (codes "a")
unfolding open_public_path clean_object_path accept_path to_slashes trim_prefix has_prefix drop_text
    clean is_rooted split into_first walk visit go_up render join_segments text_eq open_cleaned
    public_disk split_disk_path nonempty_parts cut disk_of disk_name lookup
open_public_path-Opens_example = open_public_path-Opens manager (codes "pics/a") (codes "a") refl

abbrev options : SaveOptions
options = record {
  disk = [];
  uid = [];
  dir = [];
  now = some 7;
  max_bytes = pos 0;
  filename = codes "x";
  original_name = [];
  overwrite = true;
}

abbrev info : ObjectInfo
info = record {
  disk = [];
  path = codes "x";
  url = [];
  size = 3;
  checksum = codes "616263";
  content_type = codes "k";
}

save_bytes-limit_example : (3 ≡ length (codes "abc")) × (3 ≤ 4)
unfolding limit_of save_bytes is_over choose_path now_of save_at in_dir clean_object_path
    accept_path to_slashes trim_prefix has_prefix drop_text clean is_rooted split into_first walk
    visit go_up render join_segments text_eq store info_of url public_url public_url_of to_hex
    hex_digit path_or
save_bytes-limit_example =
    save_bytes-limit tools files local (codes "abc") (codes "k") options 0 info refl refl
