-- ===== src/Cache/Fallback/Worlds.antt =====
-- Two stores that share nothing: each lives in its own half of the world.
use chobits.Prelude.{some}
use chobits.Cache.{Cache}
use chobits.Cache.Fallback.{Fallback}

module _ {A B C : Type 0} where
  abbrev first : (A → C × A) → A × B → C × (A × B)
  first f (a, b) = let (r, a') = f a in (r, (a', b))

  abbrev second : (B → C × B) → A × B → C × (A × B)
  second f (a, b) = let (r, b') = f b in (r, (a, b'))

module _ {A B : Type 0} where
  abbrev pub on_first : Cache A → Cache (A × B)
  on_first c = record {
    get = λ now k. first (c.get now k);
    set = λ now k x life. first (c.set now k x life);
    take = λ now k. first (c.take now k);
    exists = λ now k. first (c.exists now k);
    increment = λ now k delta life. first (c.increment now k delta life);
    ttl = λ now k. first (c.ttl now k);
    delete = λ k. first (c.delete k);
    close = first c.close;
  }

  abbrev pub on_second : Cache B → Cache (A × B)
  on_second c = record {
    get = λ now k. second (c.get now k);
    set = λ now k x life. second (c.set now k x life);
    take = λ now k. second (c.take now k);
    exists = λ now k. second (c.exists now k);
    increment = λ now k delta life. second (c.increment now k delta life);
    ttl = λ now k. second (c.ttl now k);
    delete = λ k. second (c.delete k);
    close = second c.close;
  }

  abbrev pub pair_of : Cache A → Cache B → Fallback (A × B)
  pair_of a b = record { primary = some (on_first a); fallback = some (on_second b) }
