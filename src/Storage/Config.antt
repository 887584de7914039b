-- ===== src/Storage/Config.antt =====
-- The configuration of storage/storage.go.
use chobits.Prelude.{ℕ, Bool, Bytes}
use chobits.Int64.{ℤ}
use chobits.Text.Dict.{Dict}

pub record LocalOptions : Type 0 where
  pub create_dir_mode : ℕ
  pub file_mode : ℕ

pub record UpYunConfig : Type 0 where
  pub bucket : Bytes
  pub operator : Bytes
  pub password : Bytes
  pub use_http : Bool

pub record DiskConfig : Type 0 where
  pub backend : Bytes
  pub root_dir : Bytes
  pub public_base_url : Bytes
  pub up_yun : UpYunConfig
  pub local : LocalOptions

pub record Config : Type 0 where
  pub default_disk : Bytes
  pub max_upload_size : ℤ
  pub disks : Dict DiskConfig
