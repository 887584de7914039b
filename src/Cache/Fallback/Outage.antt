-- ===== src/Cache/Fallback/Outage.antt =====
-- Reads and writes of a pair of stores whose primary may fail in any way.
use chobits.Prelude.{ℕ, ◌≤◌, ◌<◌, ◌≡◌, ◌∙◌, ap, some, Bytes, err, arith}
use chobits.Int64.{ℤ, half_range}
use chobits.Text.{text_eq_refl}
use chobits.Cache.{Error, Cache}
use chobits.Cache.Spec.{Entry, View, live, put, found, deadline_after, InEra, Implements}
use chobits.Cache.Fallback.{get, set}
use chobits.Cache.Fallback.Worlds.{pair_of}

pub put_self : (k : Bytes) (e : Entry) (v : View) → put k e v k ≡ some e
unfolding put
put_self k e v = ground (arith, text_eq_refl k)

module _ {A B : Type 0} (a : Cache A) (b : Cache B) (IsValid : B → Type 0) (entry : B → View)
    (store : Implements b IsValid entry) where
  -- A value that was set is still there when the primary store fails: whatever the primary store
  -- did at the Set and whatever error its Get fails with, the pair replies the value until its
  -- deadline by the fallback's clock.
  pub get-set_outage :
      (now now' t t' : ℕ) (k x : Bytes) (life : ℤ) (e : Error) (s : A × B)
      → IsValid s.1
      → InEra now' life
      → now' ≤ t'
      → t' < half_range
      → let s' = (set (pair_of a b) now now' k x life s).1 in
        (a.get t k s'.0).0 ≡ err e
        → (get (pair_of a b) t t' k s').0
          ≡ found (live t' (some (record { value = x; deadline = deadline_after now' life })))
  unfolding get set
  get-set_outage now now' t t' k x life e s valid era later era' fails =
      let sets = store.sets now' k x life s.1 valid era in
      rw fails (
        (store.gets t' k _ sets.valid era').replies
        ∙ ap found (sets.shows k t' later ∙ ap (live t') (put_self k _ _)))
