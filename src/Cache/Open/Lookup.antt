-- ===== src/Cache/Open/Lookup.antt =====
-- Which names the manager of caches answers to.
use mathlib.Core.Bool.{false≢true}
use chobits.Prelude.{
  ◌≡◌, refl, sym, ap, ◌∙◌, true, false, ◌&&◌, none, some, [], ◌∷◌, Bytes, codes, Result, ok, err,
  arith,
}
use chobits.Text.{text_eq_refl}
use chobits.Text.Trim.{trim_space}
use chobits.Text.Dict.{Dict, lookup, insert, map_values}
use chobits.Cache.{Error, Cache}
use chobits.Cache.Config.{
  Config, StoreConfig, store, store_defaults, apply_defaults, named_or, some_store, no_store,
  or_text,
}
use chobits.Registry.{Manager, default, open_loop, take_default}
use chobits.Registry.Handles.{is_named}
use chobits.Registry.Lookup.{Names, open_loop-Names, is_some, is_ok, is_some-lookup}
use chobits.Cache.Open.{Builders, stores, settle, open_manager, cache}

-- A manager has a store under a name exactly if `cfg` has one, and it has a default one. There is
-- none only if `cfg` has no default store or a store did not open, which makes `opened` an error.
unfoldable pub Matches :
    {W : Type 0}
    → Config
    → Result Error (Dict (Cache W))
    → Result Error (Manager (Cache W)) × W
    → Type 0
Matches cfg opened (ok m, w) =
    ((name : Bytes) → is_some (cache m name) ≡ is_ok (store cfg name))
    × (is_some (default m) ≡ true)
Matches cfg opened (err e, w) = (is_ok (store cfg []) && is_ok opened) ≡ false

is_ok-store :
    (cfg : Config) (name : Bytes)
    → is_ok (store cfg name)
      ≡ is_named (named_or name (apply_defaults cfg).default_store) (apply_defaults cfg).stores
unfolding store is_ok is_some
is_ok-store cfg name = ground (
  arith,
  is_some-lookup (named_or name (apply_defaults cfg).default_store) (apply_defaults cfg).stores,
)

some_name :
    (default : Bytes) (ss : Dict StoreConfig)
    → (name : Bytes) × (is_named name (map_values store_defaults (some_store default ss)) ≡ true)
unfolding some_store map_values is_named insert
some_name default [] = (default, ground (arith, text_eq_refl default))
some_name default ((k, s) ∷ ss) = (k, ground (arith, text_eq_refl k))

-- There is a store after ApplyDefaults.
one_name : (cfg : Config) → (name : Bytes) × (is_named name (apply_defaults cfg).stores ≡ true)
unfolding apply_defaults
one_name cfg = some_name (or_text cfg.default_store (codes "default")) cfg.stores

module _ {W : Type 0} (builders : Builders W) where
  settle-Matches :
      (cfg : Config) (o : Result Error (Dict (Cache W)) × W)
      → Names (stores builders) (apply_defaults cfg).stores [] o
      → Matches cfg o.0 (settle builders (apply_defaults cfg).default_store o)
  unfolding settle Matches Names is_named cache default is_some is_ok named_or trim_space
  settle-Matches cfg (err e, w) h = ground arith
  settle-Matches cfg (ok [], w) h =
      let (name, named) = one_name cfg in absurd (false≢true (h name ∙ named))
  settle-Matches cfg (ok (v ∷ vs), w) h =
      elim (lookup (apply_defaults cfg).default_store (v ∷ vs))
          as (λ o.
            lookup (apply_defaults cfg).default_store (v ∷ vs) ≡ o
            → Matches cfg (ok (v ∷ vs)) (
                take_default (stores builders) (apply_defaults cfg).default_store no_store (v ∷ vs)
                  w o)) [
                    | none ↦ λ e.
                        let absent : is_ok (store cfg []) ≡ false =
                          is_ok-store cfg []
                          ∙ sym (h (apply_defaults cfg).default_store)
                          ∙ sym (is_some-lookup (apply_defaults cfg).default_store (v ∷ vs))
                          ∙ ap is_some e in
                        ap (λ b. b && true) absent
                    | some x ↦ λ e. (
                      λ name.
                          is_some-lookup (named_or name (apply_defaults cfg).default_store) (v ∷ vs)
                          ∙ h (named_or name (apply_defaults cfg).default_store)
                          ∙ sym (is_ok-store cfg name),
                      ap is_some e,
                    )
                  ]
        refl

  -- If OpenManager succeeds, then the manager gives a store under a name, and under the blank one,
  -- exactly if Store finds a configuration under it, and its default store is not nil. It fails only
  -- if the default store is not configured or if a configured store did not open.
  pub open_manager-Matches :
      (cfg : Config) (w : W)
      → Matches cfg
          (open_loop (stores builders) (apply_defaults cfg).stores [] w).0
          (open_manager builders cfg w)
  unfolding open_manager
  open_manager-Matches cfg w =
      settle-Matches cfg (open_loop (stores builders) (apply_defaults cfg).stores [] w)
        (open_loop-Names (stores builders) (apply_defaults cfg).stores [] w)
