-- ===== src/Config.antt =====
-- config/config.go: what the program is configured with. A map that is nil and one that is empty are
-- both the empty list, which the code does not tell apart. An `int` has 64 bits.
pub mod Dsn
pub mod Defaults
pub mod Dotenv
pub mod Env
pub mod Override
pub mod Files
pub mod Loading
pub mod Environment
pub mod Tests
pub mod Kept
pub mod Idempotent
use chobits.Prelude.{ℕ, Bool, List, Bytes}
use chobits.Int64.{ℤ}
use chobits.Text.Dict.{Dict}
use chobits.Cache.Config as Cache
use chobits.Storage.Config as Storage

-- `connection_missing` holds the name, which the error prints quoted.
pub data Error : Type 0 where
  message : Bytes → Error
  connection_missing : Bytes → Error

pub record App : Type 0 where
  pub name : Bytes
  pub env : Bytes
  pub debug : Bool
  pub data_dir : Bytes

pub record Server : Type 0 where
  pub addr : Bytes
  pub allowed_origins : List Bytes
  pub read_header_timeout_seconds : ℤ
  pub shutdown_timeout_seconds : ℤ

pub record MySql : Type 0 where
  pub dsn : Bytes
  pub host : Bytes
  pub port : ℤ
  pub user : Bytes
  pub password : Bytes
  pub database : Bytes
  pub db_name : Bytes
  pub charset : Bytes
  pub max_open_conns : ℤ
  pub max_idle_conns : ℤ
  pub conn_max_lifetime_seconds : ℤ

pub record SqLite : Type 0 where
  pub dsn : Bytes
  pub path : Bytes
  pub max_open_conns : ℤ
  pub max_idle_conns : ℤ
  pub conn_max_lifetime_seconds : ℤ

pub record DatabaseConnection : Type 0 where
  pub driver : Bytes
  pub my_sql : MySql
  pub sq_lite : SqLite

pub record Databases : Type 0 where
  pub default : Bytes
  pub driver : Bytes
  pub connections : Dict DatabaseConnection

pub record Log : Type 0 where
  pub level : Bytes
  pub format : Bytes

pub record Token : Type 0 where
  pub prefix : Bytes
  pub ttl_seconds : ℤ

-- Config of kdaysuc/client.go
pub record KdaysUc : Type 0 where
  pub api_host : Bytes
  pub public_host : Bytes
  pub api_key : Bytes
  pub secret : Bytes
  pub app_id : Bytes
  pub timeout_seconds : ℤ
  pub timeout : ℤ

pub record Common : Type 0 where
  pub app : App
  pub server : Server
  pub database : Databases
  pub my_sql : MySql
  pub sq_lite : SqLite
  pub redis : Cache.RedisConfig
  pub cache : Cache.Config
  pub log : Log
  pub token : Token
  pub storage : Storage.Config
  pub kdays_uc : KdaysUc
  pub features : Dict Bool
