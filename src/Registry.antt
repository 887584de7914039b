-- ===== src/Registry.antt =====
-- The loops that the managers of packages cache, database and gormdb share: OpenManager opens what
-- each configured name stands for, and closes all that it opened when one fails; Close closes all.
-- Go visits a map in any order: here it is the order of the lists, of which the theorems ask nothing
-- but that no name stands in them twice.
pub mod Handles
pub mod Lookup
use chobits.Prelude.{Option, none, some, List, [], ◌∷◌, Bytes, Result, ok, err}
use chobits.Text.Dict.{Dict, insert, lookup}

-- What the loops call: to open and to close a thing, errors.Join, and the error that names what did
-- not open.
pub record Registry (W C V E : Type 0) : Type 0 where
  pub enter : C → W → Result E V × W
  pub close : V → W → Option E × W
  pub join : Option E → Option E → Option E
  pub label : Bytes → E → E

-- What a manager has opened, by name, and the name of the one it gives by default.
pub record Manager (V : Type 0) : Type 0 where
  pub default_name : Bytes
  pub dbs : Dict V

module _ {W C V E : Type 0} (r : Registry W C V E) where
  -- the loop of closeAll
  unfoldable pub close_loop : Dict V → Option E → W → Option E × W
  close_loop [] result w = (result, w)
  close_loop ((name, v) ∷ vs) result w =
      let (e, w') = r.close v w in close_loop vs (r.join result e) w'

  unfoldable pub close_all : Dict V → W → Option E × W
  unfolding close_loop
  close_all vs w = close_loop vs none w

  -- the rest of the loop of OpenManager, when a thing was opened, or was not
  unfoldable pub enter_then :
      Bytes → Dict V → (Dict V → W → Result E (Dict V) × W) → Result E V × W → Result E (Dict V) × W
  unfolding close_all insert
  enter_then name vs rest (ok v, w) = rest (insert name v vs) w
  enter_then name vs rest (err e, w) = (err (r.label name e), (close_all vs w).1)

  -- the loop of OpenManager, over what it has yet to open
  unfoldable pub open_loop : List (Bytes × C) → Dict V → W → Result E (Dict V) × W
  unfolding enter_then
  open_loop [] vs w = (ok vs, w)
  open_loop ((name, c) ∷ cs) vs w = enter_then name vs (open_loop cs) (r.enter c w)

  unfoldable pub take_default :
      Bytes → (Bytes → E) → Dict V → W → Option V → Result E (Manager V) × W
  unfolding close_all
  take_default default missing vs w none = (err (missing default), (close_all vs w).1)
  take_default default missing vs w (some v) = (ok (record { default_name = default; dbs = vs }), w)

  -- what follows the loop of OpenManager: there must be a thing, and one of the default name
  unfoldable pub settle : Bytes → E → (Bytes → E) → Result E (Dict V) × W → Result E (Manager V) × W
  unfolding lookup take_default
  settle default empty missing (err e, w) = (err e, w)
  settle default empty missing (ok [], w) = (err empty, w)
  settle default empty missing (ok (v ∷ vs), w) =
      take_default default missing (v ∷ vs) w (lookup default (v ∷ vs))

  -- OpenManager, with its default name set
  unfoldable pub open_all :
      Bytes → E → (Bytes → E) → List (Bytes × C) → W → Result E (Manager V) × W
  unfolding settle open_loop
  open_all default empty missing cs w = settle default empty missing (open_loop cs [] w)

-- DB: the thing of a name, the default one for the empty name
unfoldable pub db_name : Bytes → Bytes → Bytes
db_name default [] = default
db_name default (a ∷ name) = a ∷ name

unfoldable pub db : {V E : Type 0} → (Bytes → E) → Manager V → Bytes → Result E V
unfolding lookup db_name
db missing m name =
    let chosen = db_name m.default_name name in
    elim (lookup chosen m.dbs) [ none ↦ err (missing chosen) | some v ↦ ok v ]

-- Default: nil is `none`
unfoldable pub default : {V : Type 0} → Manager V → Option V
unfolding lookup
default m = lookup m.default_name m.dbs

unfoldable pub names : {V : Type 0} → Dict V → List Bytes
names [] = []
names ((name, v) ∷ vs) = name ∷ names vs
