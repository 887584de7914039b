-- ===== src/Cache/Fallback/Twins.antt =====
-- A pair of stores that both work: what a Take leaves, and what an Increment copies.
use chobits.Prelude.{ℕ, ◌≤◌, ◌<◌, ◌≡◌, refl, ◌∙◌, ap, some, Bytes, Result, ok, err, arith}
use chobits.Int64.{ℤ, half_range}
use chobits.Int64.Decimal.{format_int}
use chobits.Text.{text_eq_refl}
use chobits.Cache.{Error, miss, Cache}
use chobits.Cache.Spec.{
  View, live, put, remove, found, counted, added, renewed, incremented, deadline_after, InEra,
  Implements,
}
use chobits.Cache.Fallback.{get, take, increment, ask_second, taken}
use chobits.Cache.Fallback.Outage.{put_self}
use chobits.Cache.Fallback.Worlds.{pair_of, on_second}

found_removed : (t : ℕ) (k : Bytes) (v : View) → found (live t (remove k v k)) ≡ err miss
unfolding found live remove
found_removed t k v = ground (arith, text_eq_refl k)

incremented_self :
    (now : ℕ) (k : Bytes) (life z : ℤ) (v : View)
    → incremented now k life (ok z) v k
      ≡ some (record { value = format_int z; deadline = renewed now life (v k) })
unfolding incremented put
incremented_self now k life z v = ground (arith, text_eq_refl k)

module _ {A B : Type 0} (a : Cache A) (b : Cache B) (IsValidA : A → Type 0) (IsValidB : B → Type 0)
    (entry_a : A → View) (entry_b : B → View) (store_a : Implements a IsValidA entry_a)
    (store_b : Implements b IsValidB entry_b) where
  -- A Get of the pair misses if neither store shows the key.
  get_neither :
      (t t' : ℕ) (k : Bytes) (s : A × B)
      → IsValidA s.0
      → IsValidB s.1
      → t < half_range
      → t' < half_range
      → found (live t (entry_a s.0 k)) ≡ err miss
      → found (live t' (entry_b s.1 k)) ≡ err miss
      → (get (pair_of a b) t t' k s).0 ≡ err miss
  unfolding get
  get_neither t t' k s va vb h h' ea eb =
      rw (store_a.gets t k s.0 va h).replies
        (rw (ea, ask_second) ((store_b.gets t' k s.1 vb h').replies ∙ eb))

  -- What a Take leaves in the fallback, whatever the primary store replied.
  taken_second :
      (now' t' : ℕ) (k : Bytes) (r : Result Error Bytes) (s : A × B)
      → IsValidB s.1
      → now' ≤ t'
      → now' < half_range
      → let s' = (taken (some (on_second b)) now' k r s).1 in
        (s'.0 ≡ s.0) × IsValidB s'.1 × (found (live t' (entry_b s'.1 k)) ≡ err miss)
  unfolding taken
  taken_second now' t' k (ok x) s vb le h =
      let d = store_b.deletes now' k s.1 vb in
      (refl, d.valid, ap found (d.shows k t' le) ∙ found_removed t' k _)
  taken_second now' t' k (err e) s vb le h =
      let d = store_b.takes now' k s.1 vb h in
      (refl, d.valid, ap found (d.shows k t' le) ∙ found_removed t' k _)

  -- If both stores implement the abstract map, so that neither fails, and their worlds are valid:
  -- whichever store had the value, after one Take of the pair no Get finds it again, if by each
  -- store's clock the Get is not before the Take and its instant fits an int64 of nanoseconds.
  pub get-take :
      (now now' t t' : ℕ) (k : Bytes) (s : A × B)
      → IsValidA s.0
      → IsValidB s.1
      → now ≤ t
      → now' ≤ t'
      → t < half_range
      → t' < half_range
      → (get (pair_of a b) t t' k (take (pair_of a b) now now' k s).1).0 ≡ err miss
  unfolding take
  get-take now now' t t' k s va vb le le' h h' =
      let d = store_a.takes now k s.0 va (omega arith) in
      let (same, valid, gone) =
        taken_second now' t' k (a.take now k s.0).0 ((a.take now k s.0).1, s.1) vb le'
          (omega arith) in
      get_neither t t' k _ (rw same d.valid) valid h h'
        (rw same (ap found (d.shows k t le) ∙ found_removed t k _)) gone

  -- A count that the primary store made is copied to the fallback: the primary store keeps the
  -- deadline that the counter had unless the call brings a time to live, and the copy has a
  -- deadline only if the call brings one.
  pub increment-copies :
      (now now' : ℕ) (k : Bytes) (delta life z : ℤ) (s : A × B)
      → IsValidA s.0
      → IsValidB s.1
      → InEra now life
      → InEra now' life
      → added delta (counted (live now (entry_a s.0 k))) ≡ ok z
      → let r = increment (pair_of a b) now now' k delta life s in
        (r.0 ≡ ok z)
        × ((t : ℕ)
            → now ≤ t
            → live t (entry_a r.1.0 k)
              ≡ live t (
                  some (record {
                    value = format_int z;
                    deadline = renewed now life (live now (entry_a s.0 k));
                  })))
        × ((t' : ℕ)
            → now' ≤ t'
            → live t' (entry_b r.1.1 k)
              ≡ live t'
                  (some (record { value = format_int z; deadline = deadline_after now' life })))
  unfolding increment
  increment-copies now now' k delta life z s va vb era era' total =
      let p = store_a.increments now k delta life s.0 va era in
      let c = store_b.sets now' k (format_int z) life s.1 vb era' in
      rw (p.replies ∙ total) (
        refl,
        λ t le.
            p.shows k t le
            ∙ ap (λ r. live t (incremented now k life r (λ j. live now (entry_a s.0 j)) k)) total
            ∙ ap (live t) (incremented_self now k life z _),
        λ t' le'. c.shows k t' le' ∙ ap (live t') (put_self k _ _),
      )
