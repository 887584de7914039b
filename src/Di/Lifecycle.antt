-- ===== src/Di/Lifecycle.antt =====
-- The services of a container under RunHTTP.
use mathlib.Core.List.{append_assoc, append-nil}
use chobits.Prelude.{
  ℕ, ◌≡◌, refl, sym, ◌∙◌, ap, ap₂, Bool, true, false, Option, none, some, List, [], ◌∷◌, ◌++◌,
  if◌then◌else◌, Bytes, arith, Bool-cases, Option-cases, inl, inr,
}
use chobits.Int64.{ℤ}
use chobits.Text.Dict.{lookup}
use chobits.App.{Component, Options, Wake, run_http}
use chobits.App
use chobits.App.Order.{
  Log, Task, component, services, server, options, all_start, start_log, stop_log, stop_events,
  serving, shut, run_log, task, closers, close_log,
}
use chobits.Di.{
  Err, duplicate, Value, Container, new, is_service, collect_background, collect_closer,
  collect_lifecycle, set_value, register, backgrounds_of, closers_of,
}

-- A task has a method that makes it a service.
unfoldable pub is_managed : Task → Bool
unfolding is_service component
is_managed t = is_service (component t)

unfoldable pub tasks : List (Bytes × Task) → List (Option Task)
tasks [] = []
tasks ((t, x) ∷ ts) = some x ∷ tasks ts

unfoldable pub managed : List (Bytes × Task) → List (Option Task)
unfolding is_managed
managed [] = []
managed ((t, x) ∷ ts) = let rest = managed ts in if is_managed x then some x ∷ rest else rest

-- The options that a server's main makes of its container.
unfoldable pub options_of : ℤ → Option (Container Log) → Options Log
unfolding backgrounds_of closers_of
options_of timeout c = record {
  shutdown_timeout = timeout;
  signals = [];
  backgrounds = backgrounds_of c;
  closers = closers_of c;
}

module _ (type_name : Bytes → Bytes) (is_a : Bytes → Value Log → Bool) where
  -- Register for one after the other, up to the first error.
  unfoldable pub register_all :
      List (Bytes × Task) → Option (Container Log) → Err × Option (Container Log)
  unfolding register
  register_all [] c = (none, c)
  register_all ((t, x) ∷ ts) c =
      let (e, c') =
        register type_name is_a true t (some (record { type = t; component = component x })) c in
      elim e [ none ↦ register_all ts c' | some e' ↦ (some e', c') ]

  abbrev value : Bytes → Task → Value Log
  value t x = record { type = t; component = component x }

  abbrev after : Bytes → Task → Container Log → Container Log
  after t x c = collect_lifecycle (some (value t x)) (set_value t (some (value t x)) c)

  register_fresh :
      (t : Bytes) (x : Task) (ts : List (Bytes × Task)) (c : Container Log)
      → lookup t c.values ≡ none
      → register_all ((t, x) ∷ ts) (some c) ≡ register_all ts (some (after t x c))
  unfolding register_all register
  register_fresh t x ts c e = ground arith

  register_taken :
      (t : Bytes) (x : Task) (ts : List (Bytes × Task)) (c : Container Log) (y : Option (Value Log))
      → lookup t c.values ≡ some y
      → (register_all ((t, x) ∷ ts) (some c)).0 ≡ some (duplicate (type_name t))
  unfolding register_all register
  register_taken t x ts c y e = ground arith

  collected :
      (t : Bytes) (x : Task) (ts : List (Bytes × Task)) (cs : List (Option (Component Log)))
      → collect_background (component x) cs ++ services (managed ts)
        ≡ cs ++ services (managed ((t, x) ∷ ts))
  unfolding collect_background managed is_managed services
  collected t x ts cs = elim (Bool-cases (is_service (component x))) [
    | inl e ↦ simp e (append_assoc cs _ _)
    | inr e ↦ simp e refl
  ]

  -- The backgrounds of a container after registrations that all succeed.
  backgrounds-register_all :
      (ts : List (Bytes × Task)) (c : Container Log)
      → (register_all ts (some c)).0 ≡ none
      → (backgrounds_of (register_all ts (some c)).1 ≡ c.backgrounds ++ services (managed ts))
        × (closers_of (register_all ts (some c)).1 ≡ c.closers)
  unfolding register_all backgrounds_of closers_of services managed collect_lifecycle collect_closer
      set_value component
  backgrounds-register_all [] c h = (sym (append-nil c.backgrounds), refl)
  backgrounds-register_all ((t, x) ∷ ts) c h = elim (Option-cases (lookup t c.values)) [
    | inl e ↦
        let step = register_fresh t x ts c e in
        let (services_after, closers_after) =
          backgrounds-register_all ts (after t x c) (sym (ap (λ r. r.0) step) ∙ h) in
        (
          ap (λ r. backgrounds_of r.1) step ∙ services_after ∙ collected t x ts c.backgrounds,
          ap (λ r. closers_of r.1) step ∙ closers_after,
        )
    | inr (y, e) ↦ (let clash = sym (register_taken t x ts c y e) ∙ h in cc)
  ]

idle_parts :
    (i : ℕ) (s e : Option App.Err) (w : Bool)
    → is_managed (task i s e w) ≡ false
    → (s ≡ none) × (e ≡ none) × (w ≡ false)
unfolding is_managed is_service component
idle_parts i none none false h = (refl, refl, refl)
idle_parts i none none true h = cc
idle_parts i none (some x) w h = cc
idle_parts i (some x) e w h = cc

-- A task that is no service leaves nothing in the log.
idle : (x : Task) → is_managed x ≡ false → (x.starts ≡ none) × (x.stops ≡ none) × (x.waits ≡ false)
idle x h = idle_parts x.id x.starts x.stops x.waits h

-- The log of the services is the log of all the tasks.
managed_logs :
    (ts : List (Bytes × Task))
    → (start_log (managed ts) ≡ start_log (tasks ts))
      × (stop_log (managed ts) ≡ stop_log (tasks ts))
      × (all_start (managed ts) ≡ all_start (tasks ts))
unfolding managed tasks start_log stop_log all_start stop_events
managed_logs [] = (refl, refl, refl)
managed_logs ((t, x) ∷ ts) =
    let (starts, stops, fine) = managed_logs ts in
    elim (Bool-cases (is_managed x)) [
      | inl m ↦ (ground arith, ground arith, ground arith)
      | inr m ↦
          let (no_start, no_stop, no_wait) = idle x m in
          (ground arith, ground (arith, append-nil (stop_log (tasks ts))), ground arith)
    ]

-- If every task was registered, under its own type and with no error, in a new container, and every
-- Start returns nil, then RunHTTP with the container's services starts them in the order of
-- registration, serves, shuts the server down, and stops them in the reverse order.
pub run_http-register_all :
    (type_name : Bytes → Bytes) (is_a : Bytes → Value Log → Bool) (ts : List (Bytes × Task))
    (wake : Wake) (down : App.Err) (timeout : ℤ)
    → (register_all type_name is_a ts (some new)).0 ≡ none
    → all_start (tasks ts) ≡ true
    → (run_http
        (some (server wake down))
        (options_of timeout (register_all type_name is_a ts (some new)).1)
        []).1
      ≡ start_log (tasks ts) ++ (serving ∷ shut ∷ []) ++ stop_log (tasks ts)
unfolding options_of options closers close_log
run_http-register_all type_name is_a ts wake down timeout h fine =
    let (bs, cs) = backgrounds-register_all type_name is_a ts new h in
    let (starts, stops, all_fine) = managed_logs ts in
    ap₂
      (λ b c.
        (run_http (some (server wake down))
          (record { shutdown_timeout = timeout; signals = []; backgrounds = b; closers = c }) []).1)
      bs cs
    ∙ run_log wake down timeout (managed ts) [] (all_fine ∙ fine)
    ∙ append-nil _
    ∙ simp (starts, stops) refl
