-- ===== src/Di.antt =====
-- di/container.go: values by type and by name, and the background services and closers that they
-- bring. A type is known by its identity, a byte string; `type_name` is what typ.String() makes of
-- it, and `is_a` is Go's type assertion. A `reflect.Type` from TypeFor is never nil, so that test
-- has no branch here. A value is `none` if it is a nil interface.
pub mod Values
pub mod Lifecycle
pub mod Tests
use chobits.Prelude.{
  Bool, true, false, Option, none, some, List, [], ◌∷◌, ◌++◌, if◌then◌else◌, Bytes, Result, ok, err,
}
use chobits.Text.Dict.{Dict, lookup, insert}
use chobits.App.{Component}
use chobits.App

pub data Error : Type 0 where
  container_is_nil name_is_empty : Error
  not_found duplicate unexpected_type : Bytes → Error

-- Go's `error`: nil is `none`.
abbrev pub Err : Type 0
Err = Option Error

-- A value of some type, with the lifecycle methods of that type.
pub record Value (W : Type 0) : Type 0 where
  pub type : Bytes
  pub component : Component W

pub record Container (W : Type 0) : Type 0 where
  pub values : Dict (Option (Value W))
  pub names : Dict (Option (Value W))
  pub backgrounds : List (Option (Component W))
  pub closers : List (Option (W → App.Err × W))

module _ {W : Type 0} where
  abbrev pub new : Container W
  new = record { values = []; names = []; backgrounds = []; closers = [] }

  -- `value.(app.Background)`, `value.(app.Stopper)` or `value.(app.Waiter)` succeeds
  unfoldable pub is_service : Component W → Bool
  is_service c = elim c.start [
    | some _ ↦ true
    | none ↦ elim c.stop [ some _ ↦ true | none ↦ elim c.wait [ some _ ↦ true | none ↦ false ] ]
  ]

  unfoldable pub collect_background :
      Component W → List (Option (Component W)) → List (Option (Component W))
  unfolding is_service
  collect_background c cs = if is_service c then cs ++ (some c ∷ []) else cs

  unfoldable pub collect_closer :
      Component W → List (Option (W → App.Err × W)) → List (Option (W → App.Err × W))
  collect_closer c cs = elim c.close [ none ↦ cs | some close ↦ cs ++ (some close ∷ []) ]

  unfoldable pub collect_lifecycle : Option (Value W) → Container W → Container W
  unfolding collect_background collect_closer
  collect_lifecycle none c = c
  collect_lifecycle (some v) c = record {
    values = c.values;
    names = c.names;
    backgrounds = collect_background v.component c.backgrounds;
    closers = collect_closer v.component c.closers;
  }

  -- container.values[typ] = value
  unfoldable pub set_value : Bytes → Option (Value W) → Container W → Container W
  set_value t v c = record {
    values = insert t v c.values;
    names = c.names;
    backgrounds = c.backgrounds;
    closers = c.closers;
  }

  -- container.names[name] = value
  unfoldable pub set_name : Bytes → Option (Value W) → Container W → Container W
  set_name n v c = record {
    values = c.values;
    names = insert n v c.names;
    backgrounds = c.backgrounds;
    closers = c.closers;
  }

  unfoldable pub replace : Bytes → Option (Value W) → Option (Container W) → Option (Container W)
  unfolding collect_lifecycle set_value
  replace t v none = none
  replace t v (some c) = some (collect_lifecycle v (set_value t v c))

  unfoldable pub register_name :
      Bytes → Option (Value W) → Option (Container W) → Err × Option (Container W)
  unfolding collect_lifecycle set_name
  register_name n v none = (some container_is_nil, none)
  register_name [] v (some c) = (some name_is_empty, some c)
  register_name (a ∷ n) v (some c) = elim (lookup (a ∷ n) c.names) [
    | some _ ↦ (some (duplicate (a ∷ n)), some c)
    | none ↦ (none, some (collect_lifecycle v (set_name (a ∷ n) v c)))
  ]

  unfoldable pub replace_name :
      Bytes → Option (Value W) → Option (Container W) → Option (Container W)
  unfolding collect_lifecycle set_name
  replace_name n v none = none
  replace_name [] v (some c) = some c
  replace_name (a ∷ n) v (some c) = some (collect_lifecycle v (set_name (a ∷ n) v c))

  unfoldable pub add_background : Option (Component W) → Option (Container W) → Option (Container W)
  add_background s none = none
  add_background none (some c) = some c
  add_background (some s) (some c) = some (record {
    values = c.values;
    names = c.names;
    backgrounds = c.backgrounds ++ (some s ∷ []);
    closers = c.closers;
  })

  unfoldable pub add_closer : Option (W → App.Err × W) → Option (Container W) → Option (Container W)
  add_closer close none = none
  add_closer none (some c) = some c
  add_closer (some close) (some c) = some (record {
    values = c.values;
    names = c.names;
    backgrounds = c.backgrounds;
    closers = c.closers ++ (some close ∷ []);
  })

  unfoldable pub backgrounds_of : Option (Container W) → List (Option (Component W))
  backgrounds_of none = []
  backgrounds_of (some c) = c.backgrounds

  unfoldable pub closers_of : Option (Container W) → List (Option (W → App.Err × W))
  closers_of none = []
  closers_of (some c) = c.closers

  -- MustRegister, MustRegisterNoLifecycle and MustRegisterName: the panic is `err`.
  unfoldable pub must_register : Err × Option (Container W) → Result Error (Option (Container W))
  must_register (none, c) = ok c
  must_register (some e, c) = err e

  -- MustResolve and MustResolveName return what Resolve and ResolveName do, or panic with the error.
  module _ (type_name : Bytes → Bytes) (is_a : Bytes → Value W → Bool) where
    -- the body of Register, whose flag says whether the lifecycle is collected
    unfoldable pub register :
        Bool → Bytes → Option (Value W) → Option (Container W) → Err × Option (Container W)
    unfolding collect_lifecycle set_value
    register collect t v none = (some container_is_nil, none)
    register collect t v (some c) = elim (lookup t c.values) [
      | some _ ↦ (some (duplicate (type_name t)), some c)
      | none ↦
          let c' = set_value t v c in (none, some (if collect then collect_lifecycle v c' else c'))
    ]

    -- `value.(T)`, which fails on a nil interface
    unfoldable pub typed : Bytes → Bytes → Option (Value W) → Result Error (Value W)
    typed t shown none = err (unexpected_type shown)
    typed t shown (some v) = if is_a t v then ok v else err (unexpected_type shown)

    unfoldable pub resolve : Bytes → Option (Container W) → Result Error (Value W)
    unfolding typed
    resolve t none = err container_is_nil
    resolve t (some c) = elim (lookup t c.values) [
      | none ↦ err (not_found (type_name t))
      | some v ↦ typed t (type_name t) v
    ]

    unfoldable pub resolve_name : Bytes → Bytes → Option (Container W) → Result Error (Value W)
    unfolding typed
    resolve_name t n none = err container_is_nil
    resolve_name t [] (some c) = err name_is_empty
    resolve_name t (a ∷ n) (some c) = elim (lookup (a ∷ n) c.names) [
      | none ↦ err (not_found (a ∷ n))
      | some v ↦ typed t (a ∷ n) v
    ]
