-- ===== src/Registry/Lookup.antt =====
-- Which names a manager that was opened answers to.
use chobits.Prelude.{
  ℕ, ◌≡◌, refl, ap, ◌∙◌, sym, Bool, true, false, ◌||◌, Option, none, some, List, [], ◌∷◌, Bytes,
  Result, ok, err, arith, if◌then◌else◌,
}
use chobits.Text.{text_eq, text_eq_iff}
use chobits.Text.Dict.{Dict, lookup, insert, delete}
use chobits.Registry.{
  Registry, Manager, open_all, settle, take_default, open_loop, enter_then, db, db_name,
}
use chobits.Registry.Handles.{is_named}

unfoldable pub is_some {ℓ} : {A : Type ℓ} → Option A → Bool
is_some none = false
is_some (some a) = true

unfoldable pub is_ok {ℓ κ} : {E : Type ℓ} {A : Type κ} → Result E A → Bool
is_ok (ok a) = true
is_ok (err e) = false

pub is_some-lookup {ℓ} :
    {V : Type ℓ} (k : Bytes) (vs : Dict V) → is_some (lookup k vs) ≡ is_named k vs
unfolding lookup is_named is_some
is_some-lookup k [] = refl
is_some-lookup k ((j, v) ∷ vs) = ground (arith, is_some-lookup k vs)

is_named-delete {ℓ} :
    {V : Type ℓ} (k j : Bytes) (vs : Dict V)
    → is_named k (delete j vs) ≡ (if text_eq j k then false else is_named k vs)
unfolding delete is_named
is_named-delete k j [] = ground arith
is_named-delete k j ((i, v) ∷ vs) =
    ground (arith, is_named-delete k j vs, text_eq_iff i j, text_eq_iff i k, text_eq_iff j k)

is_named-insert {ℓ} :
    {V : Type ℓ} (k j : Bytes) (v : V) (vs : Dict V)
    → is_named k (insert j v vs) ≡ (text_eq j k || is_named k vs)
unfolding insert is_named
is_named-insert k j v vs = ground (arith, is_named-delete k j vs)

module _ {W C V E : Type 0} (r : Registry W C V E) where
  -- The things opened have the names of those before and of those that were configured.
  unfoldable pub Names : List (Bytes × C) → Dict V → Result E (Dict V) × W → Type 0
  Names cs vs (ok us, w) = (k : Bytes) → is_named k us ≡ (is_named k vs || is_named k cs)
  Names cs vs (err e, w) = true ≡ true

  after_insert-Names :
      (k : Bytes) (c : C) (cs : List (Bytes × C)) (v : V) (vs : Dict V) (o : Result E (Dict V) × W)
      → Names cs (insert k v vs) o
      → Names ((k, c) ∷ cs) vs o
  unfolding Names is_named
  after_insert-Names k c cs v vs (ok us, w) h = λ j. ground (arith, h j, is_named-insert j k v vs)
  after_insert-Names k c cs v vs (err e, w) h = refl

  enter_then-Names :
      (k : Bytes) (c : C) (cs : List (Bytes × C)) (vs : Dict V) (o : Result E V × W)
      → ((us : Dict V) (w : W) → Names cs us (open_loop r cs us w))
      → Names ((k, c) ∷ cs) vs (enter_then r k vs (open_loop r cs) o)
  unfolding enter_then Names
  enter_then-Names k c cs vs (ok v, w) step =
      after_insert-Names k c cs v vs (open_loop r cs (insert k v vs) w) (step (insert k v vs) w)
  enter_then-Names k c cs vs (err e, w) step = refl

  pub open_loop-Names :
      (cs : List (Bytes × C)) (vs : Dict V) (w : W) → Names cs vs (open_loop r cs vs w)
  unfolding open_loop Names is_named
  open_loop-Names [] vs w = λ k. ground arith
  open_loop-Names ((k, c) ∷ cs) vs w = enter_then-Names k c cs vs (r.enter c w) (open_loop-Names cs)

  -- A manager answers to the empty name, and to another one exactly if it is one of `cs`.
  unfoldable pub Serves : (Bytes → E) → List (Bytes × C) → Result E (Manager V) × W → Type 0
  Serves missing cs (ok m, w) =
      (is_ok (db missing m []) ≡ true)
      × ((a : ℕ) (name : Bytes) → is_ok (db missing m (a ∷ name)) ≡ is_named (a ∷ name) cs)
  Serves missing cs (err e, w) = true ≡ true

  is_ok-db :
      (missing : Bytes → E) (m : Manager V) (k : Bytes)
      → is_ok (db missing m k) ≡ is_named (db_name m.default_name k) m.dbs
  unfolding db is_ok is_some
  is_ok-db missing m k = ground (arith, is_some-lookup (db_name m.default_name k) m.dbs)

  settle-Serves :
      (default : Bytes) (empty : E) (missing : Bytes → E) (cs : List (Bytes × C))
      (o : Result E (Dict V) × W)
      → Names cs [] o
      → Serves missing cs (settle r default empty missing o)
  unfolding settle Names Serves is_named is_some db_name
  settle-Serves default empty missing cs (err e, w) h = refl
  settle-Serves default empty missing cs (ok [], w) h = refl
  settle-Serves default empty missing cs (ok (v ∷ vs), w) h =
      elim (lookup default (v ∷ vs))
          as (λ o.
            lookup default (v ∷ vs) ≡ o
            → Serves missing cs (take_default r default missing (v ∷ vs) w o)) [
              | none ↦ λ e. refl
              | some x ↦ λ e.
                  let m : Manager V = record { default_name = default; dbs = v ∷ vs } in
                  (
                    is_ok-db missing m [] ∙ sym (is_some-lookup default (v ∷ vs)) ∙ ap is_some e,
                    λ a name. is_ok-db missing m (a ∷ name) ∙ h (a ∷ name),
                  )
            ]
        refl

  pub open_all-Serves :
      (default : Bytes) (empty : E) (missing : Bytes → E) (cs : List (Bytes × C)) (w : W)
      → Serves missing cs (open_all r default empty missing cs w)
  unfolding open_all
  open_all-Serves default empty missing cs w =
      settle-Serves default empty missing cs (open_loop r cs [] w) (open_loop-Names cs [] w)

  -- Each of the things opens, in any world.
  unfoldable pub Opens : List (Bytes × C) → Type 0
  Opens [] = true ≡ true
  Opens ((k, c) ∷ cs) = ((w : W) → is_ok (r.enter c w).0 ≡ true) × Opens cs

  is_ok-enter_then :
      (k : Bytes) (vs : Dict V) (rest : Dict V → W → Result E (Dict V) × W) (o : Result E V × W)
      → is_ok o.0 ≡ true
      → ((us : Dict V) (w : W) → is_ok (rest us w).0 ≡ true)
      → is_ok (enter_then r k vs rest o).0 ≡ true
  unfolding enter_then is_ok
  is_ok-enter_then k vs rest (ok v, w) h step = step (insert k v vs) w
  is_ok-enter_then k vs rest (err e, w) h step = h

  is_ok-open_loop :
      (cs : List (Bytes × C)) (vs : Dict V) (w : W)
      → Opens cs
      → is_ok (open_loop r cs vs w).0 ≡ true
  unfolding open_loop Opens is_ok
  is_ok-open_loop [] vs w h = refl
  is_ok-open_loop ((k, c) ∷ cs) vs w (h, hs) =
      is_ok-enter_then k vs (open_loop r cs) (r.enter c w) (h w)
        (λ us w'. is_ok-open_loop cs us w' hs)

  is_ok-settle :
      (default : Bytes) (empty : E) (missing : Bytes → E) (cs : List (Bytes × C))
      (o : Result E (Dict V) × W)
      → Names cs [] o
      → is_ok o.0 ≡ true
      → is_named default cs ≡ true
      → is_ok (settle r default empty missing o).0 ≡ true
  unfolding settle Names is_named is_some is_ok
  is_ok-settle default empty missing cs (err e, w) h k named = k
  is_ok-settle default empty missing cs (ok [], w) h k named = ground (arith, h default)
  is_ok-settle default empty missing cs (ok (v ∷ vs), w) h k named =
      elim (lookup default (v ∷ vs))
          as (λ o.
            is_some o ≡ true → is_ok (take_default r default missing (v ∷ vs) w o).0 ≡ true) [
              | none ↦ λ e. e
              | some x ↦ λ e. refl
            ]
        (is_some-lookup default (v ∷ vs) ∙ h default ∙ named)

  pub is_ok-open_all :
      (default : Bytes) (empty : E) (missing : Bytes → E) (cs : List (Bytes × C)) (w : W)
      → Opens cs
      → is_named default cs ≡ true
      → is_ok (open_all r default empty missing cs w).0 ≡ true
  unfolding open_all
  is_ok-open_all default empty missing cs w h named =
      is_ok-settle default empty missing cs (open_loop r cs [] w) (open_loop-Names cs [] w)
        (is_ok-open_loop cs [] w h) named
