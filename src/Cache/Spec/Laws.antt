-- ===== src/Cache/Spec/Laws.antt =====
-- Laws of the abstract map.
use chobits.Prelude.{ℕ, ◌≤◌, ◌≡◌, refl, Option, none, some, arith}
use chobits.Cache.Spec.{Entry, live}

-- What is over stays over.
pub live-live : (now t : ℕ) (o : Option Entry) → now ≤ t → live t (live now o) ≡ live t o
unfolding live
live-live now t none h = refl
live-live now t (some e) h = ground arith
