-- ===== src/Di/Tests.antt =====
-- A container with two services, and the theorems at it.
use chobits.Prelude.{
  ok, err, ◌≡◌, refl, Bool, true, Option, none, some, List, [], ◌∷◌, Bytes, codes,
}
use chobits.Int64.{pos}
use chobits.Text.{text_eq}
use chobits.Text.Dict.{lookup, insert, delete}
use chobits.App.{signalled, run_http}
use chobits.App.Order.{
  started, stopped, waited, serving, shut, Log, Task, component, server, all_start, start_log,
  stop_log,
}
use chobits.App.Tests.{worker, watcher}
use chobits.Di.{
  unexpected_type, Value, Container, new, register, replace, resolve, register_name, resolve_name,
  collect_lifecycle, set_value,
}
use chobits.Di.Values.{
  is_registered, is_named, resolve-register, resolve-replace, resolve_name-register_name,
}
use chobits.Di.Lifecycle.{register_all, tasks, options_of, run_http-register_all}

-- the name of a type: its identity
abbrev shown : Bytes → Bytes
shown t = t

abbrev is_a : Bytes → Value Log → Bool
is_a t v = text_eq t v.type

abbrev registrations : List (Bytes × Task)
registrations = (codes "Worker", worker) ∷ (codes "Watcher", watcher) ∷ []

abbrev worker_value : Option (Value Log)
worker_value = some (record { type = codes "Worker"; component = component worker })

abbrev filled : Container Log
filled = record {
  values = (codes "Worker", worker_value) ∷ [];
  names = (codes "main", worker_value) ∷ [];
  backgrounds = [];
  closers = [];
}

resolve-register_example :
    ((register shown is_a true (codes "Worker") worker_value (some new)).0 ≡ none)
    × (resolve shown is_a
          (codes "Worker")
          (register shown is_a true (codes "Worker") worker_value (some new)).1
        ≡ ok (record { type = codes "Worker"; component = component worker }))
unfolding is_registered lookup text_eq
resolve-register_example =
    resolve-register shown is_a true (codes "Worker") (codes "Worker") worker_value new

resolve-replace_example :
    resolve shown is_a (codes "Worker") (replace (codes "Worker") none (some filled))
    ≡ err (unexpected_type (codes "Worker"))
unfolding text_eq
resolve-replace_example = resolve-replace shown is_a (codes "Worker") (codes "Worker") none filled

resolve_name-register_name_example :
    ((register_name (codes "main") worker_value (some new)).0 ≡ none)
    × (resolve_name shown is_a
          (codes "Worker")
          (codes "main")
          (register_name (codes "main") worker_value (some new)).1
        ≡ ok (record { type = codes "Worker"; component = component worker }))
    × (resolve shown is_a (codes "Worker") (register_name (codes "main") worker_value (some new)).1
        ≡ resolve shown is_a (codes "Worker") (some new))
unfolding is_named lookup text_eq
resolve_name-register_name_example =
    resolve_name-register_name shown is_a (codes "ain") (codes "ain") (codes "Worker") 109 109
      worker_value new

run_http-register_all_example :
    (run_http
      (some (server signalled none))
      (options_of (pos 0) (register_all shown is_a registrations (some new)).1)
      []).1
    ≡ started 1 ∷ serving ∷ shut ∷ stopped 2 ∷ stopped 1 ∷ waited 1 ∷ []
unfolding register_all register lookup insert delete text_eq all_start start_log stop_log tasks
    collect_lifecycle set_value
run_http-register_all_example =
    run_http-register_all shown is_a registrations signalled none (pos 0) refl refl
