-- ===== src/Storage/External.antt =====
-- storage/external.go: a disk that only makes addresses. `to_lower` is strings.ToLower.
use chobits.Prelude.{Bool, ◌||◌, some, List, [], ◌∷◌, if◌then◌else◌, Bytes, codes, err}
use chobits.Text.{has_prefix}
use chobits.Text.Trim.{trim_space}
use chobits.Storage.{unsupported, UrlOption, append_url_options, public_url, Disk}

-- The test for an absolute address.
unfoldable pub is_absolute : (Bytes → Bytes) → Bytes → Bool
unfolding has_prefix
is_absolute to_lower value =
    has_prefix (to_lower value) (codes "http://")
    || has_prefix (to_lower value) (codes "https://")
    || has_prefix value (codes "//")

unfoldable pub url_of_value : (Bytes → Bytes) → Bytes → Bytes → List UrlOption → Bytes
unfolding append_url_options is_absolute public_url
url_of_value to_lower base [] options = []
url_of_value to_lower [] (a ∷ s) options = append_url_options (a ∷ s) options
url_of_value to_lower (b ∷ base) (a ∷ s) options =
    if is_absolute to_lower (a ∷ s)
    then append_url_options (a ∷ s) options
    else public_url (b ∷ base) (a ∷ s) options

unfoldable pub external_disk : {W : Type 0} → (Bytes → Bytes) → Bytes → Disk W
unfolding url_of_value
external_disk to_lower base = record {
  get = λ path w. (err unsupported, w);
  put = λ path bytes w. (some unsupported, w);
  save_upload = λ file options w. (err unsupported, w);
  save_bytes = λ bytes content_type options w. (err unsupported, w);
  delete = λ path w. (some unsupported, w);
  exists = λ path w. (err unsupported, w);
  url = λ path options. url_of_value to_lower base (trim_space path) options;
  open_path = λ path. err unsupported;
}
