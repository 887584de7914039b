-- ===== src/Cache/Tests/Open.antt =====
-- A manager of caches over two maps.
use chobits.Prelude.{◌≡◌, refl, false, true, [], ◌∷◌, codes, ok, err, if◌then◌else◌}
use chobits.Text.{text_eq}
use chobits.Cache.{failure}
use chobits.Cache.Memory.{Memory, memory_cache}
use chobits.Cache.Config.{Config, memory_store, apply_defaults}
use chobits.Cache.Open.{Builders, stores, open_manager}
use chobits.Cache.Open.Lookup.{Matches, open_manager-Matches}
use chobits.Registry.{open_loop}
use chobits.Registry.Lookup.{is_ok}

-- Every store is the one map; a redis server without an address does not connect.
abbrev builders : Builders Memory
builders = record {
  new_memory = λ w. (memory_cache, w);
  open_redis = λ c w. (if text_eq c.addr [] then err (failure 1) else ok memory_cache, w);
  open_database = λ c w. (ok memory_cache, w);
}

abbrev shared : Config
shared = record {
  default_store = codes "main";
  stores =
      (codes "main", memory_store)
      ∷ (codes "far", record memory_store { driver = codes "REDIS"; prefix = codes "p" })
      ∷ [];
}

abbrev misnamed : Config
misnamed = record shared { default_store = codes "mian" }

opens_both : is_ok (open_manager builders shared (record { items = [] })).0 ≡ true
unfolding open_manager is_ok
opens_both = refl

no_default : is_ok (open_manager builders misnamed (record { items = [] })).0 ≡ false
unfolding open_manager is_ok
no_default = refl

open_manager-Matches_example :
    Matches shared
      (open_loop (stores builders) (apply_defaults shared).stores [] (record { items = [] })).0
      (open_manager builders shared (record { items = [] }))
open_manager-Matches_example = open_manager-Matches builders shared (record { items = [] })
