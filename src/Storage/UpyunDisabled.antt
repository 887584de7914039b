-- ===== src/Storage/UpyunDisabled.antt =====
-- storage/upyun_disabled.go: the disk of a build without the client of the service.
use chobits.Prelude.{some, Bytes, err}
use chobits.Storage.{unsupported, public_url, Disk}

unfoldable pub upyun_disk : {W : Type 0} → Bytes → Disk W
upyun_disk base = record {
  get = λ path w. (err unsupported, w);
  put = λ path bytes w. (some unsupported, w);
  save_upload = λ file options w. (err unsupported, w);
  save_bytes = λ bytes content_type options w. (err unsupported, w);
  delete = λ path w. (some unsupported, w);
  exists = λ path w. (err unsupported, w);
  url = λ path options. public_url base path options;
  open_path = λ path. err unsupported;
}
