-- ===== src/Config/Tests.antt =====
-- Defaults, data source names and .env files at concrete inputs.
pub mod Env
use chobits.Prelude.{
  true, Bool, ◌∙◌, Bytes, List, some, none, err, if◌then◌else◌, ◌≡◌, refl, false, [], ◌∷◌, codes,
  ok,
}
use chobits.Int64.{pos}
use chobits.Text.{text_eq}
use chobits.Text.Dict.{Dict, lookup, insert, lookup-insert}
use chobits.Config.Dotenv.{Host, unquotable, try_load}
use chobits.Config.Environment.{Keeping, try_load_keeps}
use chobits.Config.Files.{Loader, failure, load_yaml, find_file, default_options, apply_options}
use chobits.Config.Loading.{OnOk, Finished, load_yaml-OnOk}
use chobits.Cache.Config.{memory_store}
use chobits.Config.{Common}
use chobits.Config.Dsn.{my_sql_dsn}
use chobits.Config.Defaults.{no_my_sql, no_sq_lite, apply_defaults, driver_name}
use chobits.Config.Kept.{Keeps}
use chobits.Config.Idempotent.{apply_defaults_twice}

-- What an empty file leaves, but for one cache store of a redis server.
abbrev bare : Common
bare = record {
  app = record { name = []; env = []; debug = false; data_dir = [] };
  server = record {
    addr = [];
    allowed_origins = [];
    read_header_timeout_seconds = pos 0;
    shutdown_timeout_seconds = pos 7;
  };
  database = record { default = []; driver = codes "sqlite3"; connections = [] };
  my_sql = no_my_sql;
  sq_lite = no_sq_lite;
  redis = memory_store.redis;
  cache = record {
    default_store = [];
    stores = (codes "shared", record memory_store { driver = codes "Redis" }) ∷ [];
  };
  log = record { level = []; format = [] };
  token = record { prefix = []; ttl_seconds = pos 0 };
  storage = record { default_disk = []; max_upload_size = pos 0; disks = [] };
  kdays_uc = record {
    api_host = [];
    public_host = [];
    api_key = [];
    secret = [];
    app_id = [];
    timeout_seconds = pos 0;
    timeout = pos 0;
  };
  features = [];
}

keeps_timeout : (apply_defaults bare).server.shutdown_timeout_seconds ≡ pos 7
unfolding apply_defaults
keeps_timeout = refl

default_driver : driver_name bare.database [] ≡ ok (codes "sqlite")
unfolding driver_name
default_driver = refl

dsn_test :
    my_sql_dsn (record no_my_sql {
      host = codes "db";
      user = codes "u";
      password = codes "p";
      database = codes "d";
    })
    ≡ ok (codes "u:p@tcp(db:3306)/d?charset=utf8mb4&loc=Local&parseTime=true")
unfolding my_sql_dsn
dsn_test = refl

apply_defaults_twice_example :
    Keeps bare (apply_defaults bare) × (apply_defaults (apply_defaults bare) ≡ apply_defaults bare)
apply_defaults_twice_example = apply_defaults_twice bare

abbrev sample_lines : List Bytes
sample_lines = codes "# sample" ∷ codes " export A='x y'" ∷ codes "B = 2 # two" ∷ []

-- One file, and an environment that takes every variable.
abbrev host : Host (Dict Bytes)
host = record {
  open_file = λ path w. (if text_eq path (codes ".env") then ok 0 else err none, w);
  scan = λ file w. (record { lines = sample_lines; scan_error = none }, w);
  close_file = λ file w. (none, w);
  lookup_env = lookup;
  setenv = λ k v w. (none, insert k v w);
  unquote = λ s. err unquotable;
}

host-Keeping : Keeping host
host-Keeping = record {
  sets_other = λ k j x w h. lookup-insert k j x w ∙ rw h refl;
  opens = λ path j w. refl;
  scans = λ file j w. refl;
  closes = λ file j w. refl;
}

both_set :
    (try_load host (codes ".env" ∷ codes "other" ∷ []) []).1
    ≡ (codes "B", codes "2") ∷ (codes "A", codes "x y") ∷ []
unfolding try_load insert text_eq lookup
both_set = refl

try_load_keeps_example :
    lookup (codes "A") (try_load host (codes ".env" ∷ []) ((codes "A", codes "z") ∷ [])).1
    ≡ some (codes "z")
unfolding lookup text_eq
try_load_keeps_example =
    try_load_keeps host host-Keeping (codes "A") (codes "z") (codes ".env" ∷ [])
      ((codes "A", codes "z") ∷ []) refl

-- A file that says nothing, and an environment that names the application's.
abbrev loader : Loader Bool Common
loader = record {
  try_dot_env = λ paths w. true;
  stat = λ w path. if text_eq path (codes "config/config.yml") then none else some (failure []);
  read_file = λ path w. ok [];
  decode = λ bytes t. ok t;
  apply_env = λ w prefix t. ok (record t { app = record t.app { env = codes "prod" } });
  defaults = some apply_defaults;
  validate = none;
}

abbrev loaded : Common
loaded = record (apply_defaults bare) { app = record bare.app { env = codes "prod" } }

loads : load_yaml loader [] (some bare) [] false ≡ (ok (codes "config/config.yml", loaded), true)
unfolding load_yaml apply_defaults text_eq
loads = refl

load_yaml-OnOk_example :
    OnOk
      (λ r.
        (find_file (loader.stat true) [] default_options.search_names default_options.search_dirs
          ≡ ok r.0)
        × Finished loader default_options true r.1)
      (load_yaml loader [] (some bare) [] false).0
unfolding apply_options
load_yaml-OnOk_example = load_yaml-OnOk loader [] bare [] false
