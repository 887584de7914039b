-- ===== src/App/Tests.antt =====
-- Runs of RunHTTP with three services and two resources, and the theorems at those runs.
use chobits.Prelude.{◌≡◌, refl, Option, none, some, List, [], ◌∷◌, true, false}
use chobits.Int64.{pos}
use chobits.App.{failure, server_closed, signalled, served, run_http, serve_error}
use chobits.App.Order.{
  started, stopped, waited, closed, serving, shut, Task, Resource, server, options, run_log,
  abandon_log, all_start, start_log, stop_log, close_log,
}
use chobits.App.Result.{is_nil, is_empty, errors, stop_errors, close_errors, errors-run_http}

-- It starts, and its Stop fails.
abbrev pub worker : Task
worker = record { id = 1; starts = some none; stops = some (some (failure 7)); waits = true }

-- It has a Stop alone.
abbrev pub watcher : Task
watcher = record { id = 2; starts = none; stops = some none; waits = false }

-- It does not start.
abbrev broken : Task
broken = record { id = 3; starts = some (some (failure 8)); stops = some none; waits = true }

abbrev tasks : List (Option Task)
tasks = some worker ∷ none ∷ some watcher ∷ []

abbrev resources : List (Option Resource)
resources = some (record { id = 4; reply = none }) ∷ some (record { id = 5; reply = none }) ∷ []

run_log_example :
    (run_http (some (server signalled (some server_closed))) (options (pos 0) tasks resources) []).1
    ≡ started 1 ∷ serving ∷ shut ∷ stopped 2 ∷ stopped 1 ∷ waited 1 ∷ closed 5 ∷ closed 4 ∷ []
unfolding all_start start_log stop_log close_log
run_log_example = run_log signalled (some server_closed) (pos 0) tasks resources refl

abandon_log_example :
    run_http
      (some (server signalled none))
      (options
        (pos 0)
        (some worker ∷ none ∷ some watcher ∷ some broken ∷ some worker ∷ [])
        resources)
      []
    ≡ (
      some (failure 8),
      started 1 ∷ started 3 ∷ stopped 2 ∷ stopped 1 ∷ waited 1 ∷ closed 5 ∷ closed 4 ∷ [],
    )
unfolding all_start start_log stop_log close_log
abandon_log_example =
    abandon_log signalled none (pos 0) tasks (some worker ∷ []) broken (failure 8) resources refl
      refl

-- The server ends with an error and the Stop of the worker fails.
errors-run_http_example :
    (errors
        (run_http
          (some (server (served (some (failure 9))) (some server_closed)))
          (options (pos 0) tasks resources)
          []).0
      ≡ failure 9 ∷ failure 7 ∷ [])
    × (is_nil
          (run_http
            (some (server (served (some (failure 9))) (some server_closed)))
            (options (pos 0) tasks resources)
            []).0
        ≡ false)
unfolding all_start errors serve_error stop_errors close_errors is_empty
errors-run_http_example =
    errors-run_http (served (some (failure 9))) (some server_closed) (pos 0) tasks resources refl
