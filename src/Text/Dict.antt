-- ===== src/Text/Dict.antt =====
-- A Go map with string keys, as an association list without an order.
use chobits.Prelude.{◌≡◌, refl, Option, none, some, List, [], ◌∷◌, arith, Bytes, if◌then◌else◌}
use chobits.Text.{text_eq, text_eq_iff}

abbrev pub Dict {ℓ} : Type ℓ → Type ℓ
Dict V = List (Bytes × V)

module _ {ℓ} {V : Type ℓ} where
  unfoldable pub lookup : Bytes → Dict V → Option V
  unfolding text_eq
  lookup k [] = none
  lookup k ((j, v) ∷ m) = if text_eq j k then some v else lookup k m

  -- delete(m, k)
  unfoldable pub delete : Bytes → Dict V → Dict V
  unfolding text_eq
  delete k [] = []
  delete k ((j, v) ∷ m) = let rest = delete k m in if text_eq j k then rest else (j, v) ∷ rest

  -- m[k] = v
  unfoldable pub insert : Bytes → V → Dict V → Dict V
  unfolding delete
  insert k v m = (k, v) ∷ delete k m

  pub lookup-delete :
      (k j : Bytes) (m : Dict V)
      → lookup j (delete k m) ≡ (if text_eq k j then none else lookup j m)
  unfolding lookup delete
  lookup-delete k j [] = ground arith
  lookup-delete k j ((i, v) ∷ m) =
      ground (arith, lookup-delete k j m, text_eq_iff i k, text_eq_iff i j, text_eq_iff k j)

  pub lookup-insert :
      (k j : Bytes) (v : V) (m : Dict V)
      → lookup j (insert k v m) ≡ (if text_eq k j then some v else lookup j m)
  unfolding lookup insert
  lookup-insert k j v m = ground (arith, lookup-delete k j m, text_eq_iff k j)

pub lookup-nil {ℓ} : {V : Type ℓ} (k : Bytes) → lookup {V = V} k [] ≡ none
unfolding lookup
lookup-nil k = refl

pub ruleset dict_laws = (lookup-delete, lookup-insert, lookup-nil)

-- for k, v := range m { m[k] = f(v) }
unfoldable pub map_values {ℓ κ} : {V : Type ℓ} {U : Type κ} → (V → U) → Dict V → Dict U
map_values f [] = []
map_values f ((k, v) ∷ m) = (k, f v) ∷ map_values f m
