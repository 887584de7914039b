-- ===== src/App/Order.antt =====
-- The order in which RunHTTP starts, stops and closes, told by services that write a log.
use mathlib.Core.List.{append_assoc, append-nil, reverse-cons}
use chobits.Prelude.{
  ℕ, ◌≡◌, refl, sym, ◌∙◌, ap, ap₂, Bool, true, false, Option, none, some, List, [], ◌∷◌, ◌++◌,
  reverse, if◌then◌else◌,
}
use chobits.Int64.{ℤ}
use chobits.App.{
  Error, Err, Component, Wake, Server, Options, start_one, stop_one, wait_one, start_loop,
  stop_loop, stop_backgrounds, close_loop, close_resources, abandon, run, run_http, after_start,
  shut_down, timeout_of,
}

pub data Event : Type 0 where
  started stopped waited closed : ℕ → Event
  serving shut : Event

abbrev pub Log : Type 0
Log = List Event

-- A service: the methods it has, and what they return.
pub record Task : Type 0 where
  pub id : ℕ
  pub starts : Option Err
  pub stops : Option Err
  pub waits : Bool

pub record Resource : Type 0 where
  pub id : ℕ
  pub reply : Err

-- What a method that returns `e` and logs `x` does.
unfoldable pub say : Event → Err → Log → Err × Log
say x e log = (e, log ++ (x ∷ []))

unfoldable pub component : Task → Component Log
unfolding say
component t = record {
  start = elim t.starts [ none ↦ none | some e ↦ some (say (started t.id) e) ];
  stop = elim t.stops [ none ↦ none | some e ↦ some (λ _. say (stopped t.id) e) ];
  wait = if t.waits then some (λ log. log ++ (waited t.id ∷ [])) else none;
  close = none;
}

unfoldable pub services : List (Option Task) → List (Option (Component Log))
unfolding component
services [] = []
services (none ∷ ts) = none ∷ services ts
services (some t ∷ ts) = some (component t) ∷ services ts

unfoldable pub closers : List (Option Resource) → List (Option (Log → Err × Log))
unfolding say
closers [] = []
closers (none ∷ rs) = none ∷ closers rs
closers (some r ∷ rs) = some (say (closed r.id) r.reply) ∷ closers rs

-- A server whose run ends with `wake` and whose shutdown ends with `down`.
unfoldable pub server : Wake → Err → Server Log
unfolding say
server wake down = record {
  serve = λ _ log. (wake, log ++ (serving ∷ []));
  shutdown = λ _. say shut down;
}

unfoldable pub options : ℤ → List (Option Task) → List (Option Resource) → Options Log
unfolding services closers
options timeout ts rs = record {
  shutdown_timeout = timeout;
  signals = [];
  backgrounds = services ts;
  closers = closers rs;
}

-- Every service that has a Start has one that returns nil.
unfoldable pub all_start : List (Option Task) → Bool
all_start [] = true
all_start (none ∷ ts) = all_start ts
all_start (some t ∷ ts) = elim t.starts [
  | none ↦ all_start ts
  | some e ↦ elim e [ none ↦ all_start ts | some _ ↦ false ]
]

unfoldable pub start_log : List (Option Task) → Log
start_log [] = []
start_log (none ∷ ts) = start_log ts
start_log (some t ∷ ts) = elim t.starts [
  | none ↦ start_log ts
  | some _ ↦ started t.id ∷ start_log ts
]

unfoldable pub stop_events : Task → Log
stop_events t =
    (elim t.stops [ none ↦ [] | some _ ↦ stopped t.id ∷ [] ])
    ++ (if t.waits then waited t.id ∷ [] else [])

-- The last service first.
unfoldable pub stop_log : List (Option Task) → Log
unfolding stop_events
stop_log [] = []
stop_log (none ∷ ts) = stop_log ts
stop_log (some t ∷ ts) = stop_log ts ++ stop_events t

-- The last closer first.
unfoldable pub close_log : List (Option Resource) → Log
close_log [] = []
close_log (none ∷ rs) = close_log rs
close_log (some r ∷ rs) = close_log rs ++ (closed r.id ∷ [])

-- The services without the nil ones, which are never started.
unfoldable pub kept : List (Option Task) → List (Option Task)
kept [] = []
kept (none ∷ ts) = kept ts
kept (some t ∷ ts) = some t ∷ kept ts

stop_log-kept : (ts : List (Option Task)) → stop_log (kept ts) ≡ stop_log ts
unfolding stop_log kept
stop_log-kept [] = refl
stop_log-kept (none ∷ ts) = stop_log-kept ts
stop_log-kept (some t ∷ ts) = rw (stop_log-kept ts) refl

module _ {W : Type 0} where
  pub stop_loop-append :
      (timeout : ℤ) (xs ys : List (Option (Component W))) (r : Err) (w : W)
      → stop_loop timeout (xs ++ ys) r w
        ≡ stop_loop timeout ys (stop_loop timeout xs r w).0 (stop_loop timeout xs r w).1
  unfolding stop_loop
  stop_loop-append timeout [] ys r w = refl
  stop_loop-append timeout (none ∷ xs) ys r w = stop_loop-append timeout xs ys r w
  stop_loop-append timeout (some c ∷ xs) ys r w = stop_loop-append timeout xs ys _ _

  pub close_loop-append :
      (xs ys : List (Option (W → Err × W))) (r : Err) (w : W)
      → close_loop (xs ++ ys) r w ≡ close_loop ys (close_loop xs r w).0 (close_loop xs r w).1
  unfolding close_loop
  close_loop-append [] ys r w = refl
  close_loop-append (none ∷ xs) ys r w = close_loop-append xs ys r w
  close_loop-append (some c ∷ xs) ys r w = close_loop-append xs ys _ _

abbrev pub no_service : Option (Component Log)
no_service = none

abbrev pub no_closer : Option (Log → Err × Log)
no_closer = none

abbrev pub task : ℕ → Option Err → Option Err → Bool → Task
task i s e w = record { id = i; starts = s; stops = e; waits = w }

stop_task_log :
    (timeout : ℤ) (i : ℕ) (s e : Option Err) (w : Bool) (r : Err) (log : Log)
    → let t = task i s e w in
      wait_one (component t) (stop_one timeout (component t) r log).1 ≡ log ++ stop_events t
unfolding wait_one stop_one component stop_events say
stop_task_log timeout i s none true r log = refl
stop_task_log timeout i s none false r log = sym (append-nil log)
stop_task_log timeout i s (some none) true r log = append_assoc log _ _
stop_task_log timeout i s (some none) false r log = refl
stop_task_log timeout i s (some (some e)) true r log = append_assoc log _ _
stop_task_log timeout i s (some (some e)) false r log = refl

stop_one_log :
    (timeout : ℤ) (t : Task) (r : Err) (log : Log)
    → wait_one (component t) (stop_one timeout (component t) r log).1 ≡ log ++ stop_events t
stop_one_log timeout t = stop_task_log timeout t.id t.starts t.stops t.waits

stop_loop_log :
    (timeout : ℤ) (ts : List (Option Task)) (r : Err) (log : Log)
    → (stop_loop timeout (reverse (services ts)) r log).1 ≡ log ++ stop_log ts
unfolding stop_loop services stop_log
stop_loop_log timeout [] r log = sym (append-nil log)
stop_loop_log timeout (none ∷ ts) r log =
    rw
      (
        reverse-cons no_service (services ts),
        stop_loop-append timeout (reverse (services ts)) (none ∷ []) r log,
      )
      (stop_loop_log timeout ts r log)
stop_loop_log timeout (some t ∷ ts) r log =
    rw
      (
        reverse-cons (some (component t)) (services ts),
        stop_loop-append timeout (reverse (services ts)) (some (component t) ∷ []) r log,
        stop_one_log timeout t (stop_loop timeout (reverse (services ts)) r log).0
            (stop_loop timeout (reverse (services ts)) r log).1,
        stop_loop_log timeout ts r log,
      )
      (append_assoc log _ _)

close_loop_log :
    (rs : List (Option Resource)) (r : Err) (log : Log)
    → (close_loop (reverse (closers rs)) r log).1 ≡ log ++ close_log rs
unfolding close_loop closers close_log say
close_loop_log [] r log = sym (append-nil log)
close_loop_log (none ∷ rs) r log =
    rw
      (
        reverse-cons no_closer (closers rs),
        close_loop-append (reverse (closers rs)) (none ∷ []) r log,
      )
      (close_loop_log rs r log)
close_loop_log (some c ∷ rs) r log =
    rw
      (
        reverse-cons (some (say (closed c.id) c.reply)) (closers rs),
        close_loop-append (reverse (closers rs)) (some (say (closed c.id) c.reply) ∷ []) r log,
        close_loop_log rs r log,
      )
      (append_assoc log _ _)

services-append : (xs ys : List (Option Task)) → services (xs ++ ys) ≡ services xs ++ services ys
unfolding services
services-append [] ys = refl
services-append (none ∷ xs) ys = rw (services-append xs ys) refl
services-append (some t ∷ xs) ys = rw (services-append xs ys) refl

-- The log after a Start, and the error it returns.
start_task_log :
    (i : ℕ) (s e : Option Err) (w : Bool) (ts : List (Option Task)) (log : Log)
    → all_start (some (task i s e w) ∷ ts) ≡ true
    → (start_one (component (task i s e w)) log
        ≡ (none, log ++ start_log (some (task i s e w) ∷ [])))
      × (all_start ts ≡ true)
unfolding start_one component all_start start_log say
start_task_log i none e w ts log fine = (ap (λ (l : Log). (none, l)) (sym (append-nil log)), fine)
start_task_log i (some none) e w ts log fine = (refl, fine)
start_task_log i (some (some x)) e w ts log fine = cc

start_log-cons :
    (i : ℕ) (s e : Option Err) (w : Bool) (ts : List (Option Task))
    → start_log (some (task i s e w) ∷ ts) ≡ start_log (some (task i s e w) ∷ []) ++ start_log ts
unfolding start_log
start_log-cons i none e w ts = refl
start_log-cons i (some x) e w ts = refl

start_loop_log :
    (ts : List (Option Task)) (rest acc : List (Option (Component Log))) (log : Log)
    → all_start ts ≡ true
    → start_loop (services ts ++ rest) acc log
      ≡ start_loop rest (acc ++ services (kept ts)) (log ++ start_log ts)
unfolding start_loop services kept start_log all_start
start_loop_log [] rest acc log fine = rw (append-nil acc, append-nil log) refl
start_loop_log (none ∷ ts) rest acc log fine = start_loop_log ts rest acc log fine
start_loop_log (some t ∷ ts) rest acc log fine =
    let (step, fine') = start_task_log t.id t.starts t.stops t.waits ts log fine in
    rw (ap (λ p. p.0) step, ap (λ p. p.1) step)
      (start_loop_log ts rest (acc ++ (some (component t) ∷ [])) _ fine'
        ∙ ap₂ (λ a l. start_loop rest a l) (append_assoc acc _ _)
            (append_assoc log _ _
              ∙ ap (λ (l : Log). log ++ l) (sym (start_log-cons t.id t.starts t.stops t.waits ts))))

pub start_all :
    (ts : List (Option Task))
    → all_start ts ≡ true
    → start_loop (services ts) [] [] ≡ ((none, services (kept ts)), start_log ts)
unfolding start_loop
start_all ts fine =
    ap (λ cs. start_loop cs [] []) (sym (append-nil (services ts)))
    ∙ start_loop_log ts [] [] [] fine

-- What stopBackgrounds and closeResources add to the log.
stop_and_close :
    (timeout : ℤ) (ts : List (Option Task)) (rs : List (Option Resource)) (log : Log)
    → (close_resources (closers rs) (stop_backgrounds timeout (services (kept ts)) log).1).1
      ≡ log ++ stop_log ts ++ close_log rs
unfolding close_resources stop_backgrounds
stop_and_close timeout ts rs log =
    close_loop_log rs none _
    ∙ ap (λ (l : Log). l ++ close_log rs)
        (stop_loop_log timeout (kept ts) none log ∙ ap (λ (l : Log). log ++ l) (stop_log-kept ts))

-- If every Start returns nil, whatever the server, the stops and the closes reply, then RunHTTP
-- starts the services in their order, serves, shuts the server down, stops and awaits every
-- service from the last to the first, and then closes the resources from the last to the first.
pub run_log :
    (wake : Wake) (down : Err) (timeout : ℤ) (ts : List (Option Task)) (rs : List (Option Resource))
    → all_start ts ≡ true
    → (run_http (some (server wake down)) (options timeout ts rs) []).1
      ≡ start_log ts ++ (serving ∷ shut ∷ []) ++ stop_log ts ++ close_log rs
unfolding run_http after_start run shut_down server options say
run_log wake down timeout ts rs fine =
    ap (λ p. (after_start (server wake down) (timeout_of timeout) (options timeout ts rs) p).1)
      (start_all ts fine)
    ∙ stop_and_close (timeout_of timeout) ts rs (start_log ts ++ (serving ∷ []) ++ (shut ∷ []))
    ∙ ap (λ (l : Log). l ++ stop_log ts ++ close_log rs) (append_assoc (start_log ts) _ _)

-- The loop stops at a service that does not start.
start_some :
    (before after : List (Option Task)) (t : Task) (e : Error)
    → all_start before ≡ true
    → t.starts ≡ some (some e)
    → start_loop (services (before ++ (some t ∷ after))) [] []
      ≡ ((some e, services (kept before)), start_log before ++ (started t.id ∷ []))
unfolding start_loop services start_one component say
start_some before after t e fine fails =
    ap (λ cs. start_loop cs [] []) (services-append before (some t ∷ after))
    ∙ start_loop_log before (services (some t ∷ after)) [] [] fine
    ∙ simp fails refl

-- If a service does not start, then RunHTTP returns its error, having started the services before
-- it and no other, stopped and awaited those from the last to the first, and closed all the
-- resources. The service itself is not stopped, and the server does not run.
pub abandon_log :
    (wake : Wake) (down : Err) (timeout : ℤ) (before after : List (Option Task)) (t : Task)
    (e : Error) (rs : List (Option Resource))
    → all_start before ≡ true
    → t.starts ≡ some (some e)
    → run_http (some (server wake down)) (options timeout (before ++ (some t ∷ after)) rs) []
      ≡ (some e, start_log before ++ (started t.id ∷ []) ++ stop_log before ++ close_log rs)
unfolding run_http after_start abandon options
abandon_log wake down timeout before after t e rs fine fails =
    ap
      (λ p.
        after_start (server wake down) (timeout_of timeout)
          (options timeout (before ++ (some t ∷ after)) rs) p)
      (start_some before after t e fine fails)
    ∙ ap (λ (l : Log). (some e, l))
        (stop_and_close (timeout_of timeout) before rs (start_log before ++ (started t.id ∷ [])))
