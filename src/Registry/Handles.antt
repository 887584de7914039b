-- ===== src/Registry/Handles.antt =====
-- What a manager holds open, when one of its parts does not open and when it is closed.
use chobits.Prelude.{
  ℕ, ◌≡◌, refl, ◌∙◌, ap, sym, subst, Bool, true, false, not, ◌&&◌, ◌||◌, Option, none, some, List,
  [], ◌∷◌, ◌++◌, if◌then◌else◌, ◌==◌, Bytes, Result, ok, err, arith,
}
use chobits.Text.{text_eq, text_eq_iff}
use chobits.Text.Dict.{Dict, delete, insert, lookup}
use chobits.Registry.{
  Registry, Manager, open_all, settle, take_default, close_loop, close_all, open_loop, enter_then,
}

unfoldable pub has : ℕ → List ℕ → Bool
has i [] = false
has i (j ∷ l) = (i == j) || has i l

-- The list without an element.
unfoldable pub drop : ℕ → List ℕ → List ℕ
drop i [] = []
drop i (j ∷ l) = let rest = drop i l in if i == j then rest else j ∷ rest

drop_absent : (i : ℕ) (l : List ℕ) → has i l ≡ false → drop i l ≡ l
unfolding has drop
drop_absent i [] h = refl
drop_absent i (j ∷ l) h = ground (arith, drop_absent i l)

pub drop_head : (i : ℕ) (l : List ℕ) → has i l ≡ false → drop i (i ∷ l) ≡ l
unfolding drop
drop_head i l h = ground (arith, drop_absent i l h)

-- What opening one thing does to the handles that were open: a thing that opens has a handle that
-- was not open, and one that does not open leaves none.
unfoldable pub Adds : {W V E : Type 0} → (V → ℕ) → (W → List ℕ) → List ℕ → Result E V × W → Type 0
unfolding has
Adds handle held base (ok v, w) = (held w ≡ handle v ∷ base) × (has (handle v) base ≡ false)
Adds handle held base (err e, w) = held w ≡ base

-- How opening and closing act on the handles: closing gives the handle back, whatever it replies.
pub record Leases {W C V E : Type 0} (r : Registry W C V E) (handle : V → ℕ) (held : W → List ℕ)
    : Type 0 where
  pub enters : (c : C) (w : W) → Adds handle held (held w) (r.enter c w)
  pub closes : (v : V) (w : W) → held (r.close v w).1 ≡ drop (handle v) (held w)

-- The names of a map, each of which stands there once.
unfoldable pub is_named {ℓ} : {A : Type ℓ} → Bytes → List (Bytes × A) → Bool
is_named k [] = false
is_named k ((j, a) ∷ l) = text_eq j k || is_named k l

unfoldable pub is_map {ℓ} : {A : Type ℓ} → List (Bytes × A) → Bool
unfolding is_named
is_map [] = true
is_map ((k, a) ∷ l) = not (is_named k l) && is_map l

-- None of the names stands in the map.
unfoldable pub are_new {ℓ κ} : {A : Type ℓ} {V : Type κ} → List (Bytes × A) → Dict V → Bool
unfolding is_named
are_new [] vs = true
are_new ((k, a) ∷ l) vs = not (is_named k vs) && are_new l vs

are_new_none {ℓ κ} : {A : Type ℓ} (V : Type κ) (l : List (Bytes × A)) → are_new {V = V} l [] ≡ true
unfolding are_new is_named
are_new_none V [] = refl
are_new_none V ((k, a) ∷ l) = ground (arith, are_new_none V l)

are_new_after {ℓ κ} :
    {A : Type ℓ} {V : Type κ} (l : List (Bytes × A)) (vs : Dict V) (k : Bytes) (v : V)
    → are_new l vs ≡ true
    → is_named k l ≡ false
    → are_new l ((k, v) ∷ vs) ≡ true
unfolding are_new is_named
are_new_after [] vs k v h absent = refl
are_new_after ((j, a) ∷ l) vs k v h absent =
    ground (arith, are_new_after l vs k v, text_eq_iff j k, text_eq_iff k j)

delete_absent {ℓ} :
    {V : Type ℓ} (k : Bytes) (vs : Dict V) → is_named k vs ≡ false → delete k vs ≡ vs
unfolding delete is_named
delete_absent k [] h = refl
delete_absent k ((j, v) ∷ vs) h = ground (arith, delete_absent k vs)

module _ {V : Type 0} (handle : V → ℕ) where
  unfoldable pub handles : Dict V → List ℕ
  handles [] = []
  handles ((k, v) ∷ vs) = handle v ∷ handles vs

  -- No handle of the map is open twice.
  unfoldable pub is_fresh : Dict V → List ℕ → Bool
  unfolding has handles
  is_fresh [] base = true
  is_fresh ((k, v) ∷ vs) base = not (has (handle v) (handles vs ++ base)) && is_fresh vs base

module _ {W C V E : Type 0} (r : Registry W C V E) (handle : V → ℕ) (held : W → List ℕ) where
  -- The handles of what a manager opened are open above those that were open before, each once; if
  -- it failed, none is left open.
  unfoldable pub Keeps : List ℕ → Result E (Dict V) × W → Type 0
  Keeps base (ok vs, w) = (held w ≡ handles handle vs ++ base) × (is_fresh handle vs base ≡ true)
  Keeps base (err e, w) = held w ≡ base

  -- The same of a manager that was opened, which gives them all back when it is closed, or of the
  -- error.
  unfoldable pub KeepsAll : List ℕ → Result E (Manager V) × W → Type 0
  KeepsAll base (ok m, w) =
      (held w ≡ handles handle m.dbs ++ base) × (held (close_all r m.dbs w).1 ≡ base)
  KeepsAll base (err e, w) = held w ≡ base

module _ {W C V E : Type 0} (r : Registry W C V E) (handle : V → ℕ) (held : W → List ℕ)
    (leases : Leases r handle held) where
  held-close_loop :
      (vs : Dict V) (base : List ℕ) (result : Option E) (w : W)
      → held w ≡ handles handle vs ++ base
      → is_fresh handle vs base ≡ true
      → held (close_loop r vs result w).1 ≡ base
  unfolding close_loop handles is_fresh
  held-close_loop [] base result w h fresh = h
  held-close_loop ((k, v) ∷ vs) base result w h fresh =
      let absent : has (handle v) (handles handle vs ++ base) ≡ false = ground arith in
      let rest : held (r.close v w).1 ≡ handles handle vs ++ base =
        leases.closes v w
        ∙ ap (drop (handle v)) h
        ∙ drop_head (handle v) (handles handle vs ++ base) absent in
      held-close_loop vs base (r.join result (r.close v w).0) (r.close v w).1 rest (ground arith)

  held-close_all :
      (vs : Dict V) (base : List ℕ) (w : W)
      → held w ≡ handles handle vs ++ base
      → is_fresh handle vs base ≡ true
      → held (close_all r vs w).1 ≡ base
  unfolding close_all
  held-close_all vs base w h fresh = held-close_loop vs base none w h fresh

  enter_then-Keeps :
      (k : Bytes) (vs : Dict V) (base : List ℕ) (rest : Dict V → W → Result E (Dict V) × W) (w : W)
      (o : Result E V × W)
      → Adds handle held (held w) o
      → is_named k vs ≡ false
      → held w ≡ handles handle vs ++ base
      → is_fresh handle vs base ≡ true
      → ((v : V) (w' : W)
          → held w' ≡ handles handle ((k, v) ∷ vs) ++ base
          → is_fresh handle ((k, v) ∷ vs) base ≡ true
          → Keeps r handle held base (rest ((k, v) ∷ vs) w'))
      → Keeps r handle held base (enter_then r k vs rest o)
  unfolding enter_then Keeps Adds handles is_fresh insert
  enter_then-Keeps k vs base rest w (ok v, w') (opened, unused) absent h fresh step =
      subst (λ us. Keeps r handle held base (rest ((k, v) ∷ us) w'))
        (sym (delete_absent k vs absent))
        (step v w' (opened ∙ ap (handle v ∷◌) h) (ground (arith, unused, h, fresh)))
  enter_then-Keeps k vs base rest w (err x, w') e absent h fresh step =
      held-close_all vs base w' (e ∙ h) fresh

  open_loop-Keeps :
      (cs : List (Bytes × C)) (vs : Dict V) (base : List ℕ) (w : W)
      → is_map cs ≡ true
      → are_new cs vs ≡ true
      → held w ≡ handles handle vs ++ base
      → is_fresh handle vs base ≡ true
      → Keeps r handle held base (open_loop r cs vs w)
  unfolding open_loop Keeps is_map are_new
  open_loop-Keeps [] vs base w map new h fresh = (h, fresh)
  open_loop-Keeps ((k, c) ∷ cs) vs base w map new h fresh =
      enter_then-Keeps k vs base (open_loop r cs) w (r.enter c w) (leases.enters c w) (ground arith)
        h fresh
        (λ v w' h' fresh'.
          open_loop-Keeps cs ((k, v) ∷ vs) base w' (ground arith)
            (are_new_after cs vs k v (ground arith) (ground arith)) h' fresh')

  settle-Keeps :
      (default : Bytes) (empty : E) (missing : Bytes → E) (base : List ℕ)
      (o : Result E (Dict V) × W)
      → Keeps r handle held base o
      → KeepsAll r handle held base (settle r default empty missing o)
  unfolding settle Keeps KeepsAll handles
  settle-Keeps default empty missing base (err e, w) k = k
  settle-Keeps default empty missing base (ok [], w) (h, fresh) = h
  settle-Keeps default empty missing base (ok (v ∷ vs), w) (h, fresh) =
      elim (lookup default (v ∷ vs))
        as (λ o. KeepsAll r handle held base (take_default r default missing (v ∷ vs) w o)) [
          | none ↦ held-close_all (v ∷ vs) base w h fresh
          | some x ↦ (h, held-close_all (v ∷ vs) base w h fresh)
        ]

  pub open_all-KeepsAll :
      (default : Bytes) (empty : E) (missing : Bytes → E) (cs : List (Bytes × C)) (w : W)
      → is_map cs ≡ true
      → KeepsAll r handle held (held w) (open_all r default empty missing cs w)
  unfolding open_all handles is_fresh
  open_all-KeepsAll default empty missing cs w map =
      settle-Keeps default empty missing (held w) (open_loop r cs [] w)
        (open_loop-Keeps cs [] (held w) w map (are_new_none V cs) refl refl)
