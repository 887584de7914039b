-- ===== src/App/Result.antt =====
-- What RunHTTP returns, once every service has started.
use mathlib.Core.List.{reverse-cons, append-nil, append_assoc}
use chobits.Prelude.{
  ◌≡◌, refl, sym, ◌∙◌, ap, Bool, true, false, ◌&&◌, Option, none, some, List, [], ◌∷◌, ◌++◌,
  reverse, ℕ,
}
use chobits.Int64.{ℤ}
use chobits.App.{
  Error, server_closed, failure, message, joined1, joined2, Err, join, Wake, stop_one, stop_loop,
  stop_backgrounds, close_loop, close_resources, run, run_http, after_start, shut_down, timeout_of,
  unless_closed, serve_error,
}
use chobits.App.Order.{
  Log, Task, Resource, component, closed, say, services, closers, server, options, all_start, kept,
  start_all, stop_loop-append, close_loop-append, no_closer, start_log, serving, shut,
}

unfoldable pub is_nil : Err → Bool
is_nil none = true
is_nil (some _) = false

-- The errors that an error joins, from first to last.
unfoldable pub leaves : Error → List Error
leaves server_closed = server_closed ∷ []
leaves (failure n) = failure n ∷ []
leaves (message m) = message m ∷ []
leaves (joined1 e) = leaves e
leaves (joined2 e f) = leaves e ++ leaves f

unfoldable pub errors : Err → List Error
unfolding leaves
errors none = []
errors (some e) = leaves e

unfoldable pub reply_errors : Option Err → List Error
unfolding errors
reply_errors none = []
reply_errors (some e) = errors e

-- The errors of the Stops, from the last service to the first.
unfoldable pub stop_errors : List (Option Task) → List Error
unfolding reply_errors
stop_errors [] = []
stop_errors (none ∷ ts) = stop_errors ts
stop_errors (some t ∷ ts) = stop_errors ts ++ reply_errors t.stops

-- The errors of the Closes, from the last closer to the first.
unfoldable pub close_errors : List (Option Resource) → List Error
unfolding errors
close_errors [] = []
close_errors (none ∷ rs) = close_errors rs
close_errors (some r ∷ rs) = close_errors rs ++ errors r.reply

unfoldable pub is_empty : List Error → Bool
is_empty [] = true
is_empty (e ∷ es) = false

is_empty-append : (es fs : List Error) → is_empty (es ++ fs) ≡ (is_empty es && is_empty fs)
unfolding is_empty
is_empty-append [] fs = refl
is_empty-append (e ∷ es) fs = refl

is_empty-leaves : (e : Error) → is_empty (leaves e) ≡ false
unfolding is_empty leaves
is_empty-leaves server_closed = refl
is_empty-leaves (failure n) = refl
is_empty-leaves (message m) = refl
is_empty-leaves (joined1 e) = is_empty-leaves e
is_empty-leaves (joined2 e f) =
    is_empty-append (leaves e) (leaves f) ∙ ap (λ b. b && is_empty (leaves f)) (is_empty-leaves e)

is_nil-errors : (e : Err) → is_nil e ≡ is_empty (errors e)
unfolding is_nil errors is_empty
is_nil-errors none = refl
is_nil-errors (some e) = sym (is_empty-leaves e)

errors-join : (a b : Err) → errors (join a b) ≡ errors a ++ errors b
unfolding errors join leaves
errors-join none none = refl
errors-join none (some f) = refl
errors-join (some e) none = sym (append-nil (leaves e))
errors-join (some e) (some f) = refl

errors-stop_one :
    (timeout : ℤ) (i : ℕ) (s e : Option Err) (w : Bool) (r : Err) (log : Log)
    → errors
        (stop_one timeout (component (record { id = i; starts = s; stops = e; waits = w })) r log).0
      ≡ errors r ++ reply_errors e
unfolding stop_one component say reply_errors errors
errors-stop_one timeout i s none w r log = sym (append-nil (errors r))
errors-stop_one timeout i s (some none) w r log = sym (append-nil (errors r))
errors-stop_one timeout i s (some (some e)) w r log = errors-join r (some e)

errors-stop_loop :
    (timeout : ℤ) (ts : List (Option Task)) (log : Log)
    → errors (stop_loop timeout (reverse (services (kept ts))) none log).0 ≡ stop_errors ts
unfolding stop_loop services kept stop_errors errors
errors-stop_loop timeout [] log = refl
errors-stop_loop timeout (none ∷ ts) log = errors-stop_loop timeout ts log
errors-stop_loop timeout (some t ∷ ts) log =
    let cs = services (kept ts) in
    rw
      (
        reverse-cons (some (component t)) cs,
        stop_loop-append timeout (reverse cs) (some (component t) ∷ []) none log,
      )
      (errors-stop_one timeout t.id t.starts t.stops t.waits
          (stop_loop timeout (reverse cs) none log).0 (stop_loop timeout (reverse cs) none log).1
        ∙ ap (λ es. es ++ reply_errors t.stops) (errors-stop_loop timeout ts log))

errors-close_one :
    (r e : Err) (log : Log) (i : ℕ)
    → errors (close_loop (some (say (closed i) e) ∷ []) r log).0 ≡ errors r ++ errors e
unfolding close_loop say errors
errors-close_one r none log i = sym (append-nil (errors r))
errors-close_one r (some e) log i = errors-join r (some e)

errors-close_loop :
    (rs : List (Option Resource)) (log : Log)
    → errors (close_loop (reverse (closers rs)) none log).0 ≡ close_errors rs
unfolding close_loop closers close_errors errors
errors-close_loop [] log = refl
errors-close_loop (none ∷ rs) log =
    rw
      (
        reverse-cons no_closer (closers rs),
        close_loop-append (reverse (closers rs)) (none ∷ []) none log,
      )
      (errors-close_loop rs log)
errors-close_loop (some c ∷ rs) log =
    let close = say (closed c.id) c.reply in
    let before = close_loop (reverse (closers rs)) none log in
    rw
      (
        reverse-cons (some close) (closers rs),
        close_loop-append (reverse (closers rs)) (some close ∷ []) none log,
      )
      (errors-close_one before.0 c.reply before.1 c.id
        ∙ ap (λ es. es ++ errors c.reply) (errors-close_loop rs log))

errors-down :
    (down : Err) → errors (elim down [ none ↦ none | some e ↦ join none (some e) ]) ≡ errors down
unfolding errors join leaves
errors-down none = refl
errors-down (some e) = refl

errors-after_down :
    (down stopped ended : Err)
    → errors (join (join down stopped) ended) ≡ errors down ++ (errors stopped ++ errors ended)
errors-after_down down stopped ended =
    errors-join (join down stopped) ended
    ∙ ap (λ es. es ++ errors ended) (errors-join down stopped)
    ∙ append_assoc (errors down) (errors stopped) (errors ended)

-- The result of the last part, by the four errors that it joins.
errors-joined :
    (served down stopped ended : Err)
    → let down' : Err = elim down [ none ↦ none | some e ↦ join none (some e) ] in
      let result = join (join down' stopped) ended in
      errors (elim served [ none ↦ result | some e ↦ join (some e) result ])
      ≡ errors served ++ (errors down ++ (errors stopped ++ errors ended))
unfolding errors
errors-joined none down stopped ended =
    errors-after_down _ stopped ended
    ∙ ap (λ es. es ++ (errors stopped ++ errors ended)) (errors-down down)
errors-joined (some e) down stopped ended =
    errors-join (some e) _
    ∙ ap (λ es. leaves e ++ es)
        (errors-after_down _ stopped ended
          ∙ ap (λ es. es ++ (errors stopped ++ errors ended)) (errors-down down))

errors_lem :
    (wake : Wake) (down : Err) (timeout : ℤ) (ts : List (Option Task)) (rs : List (Option Resource))
    → all_start ts ≡ true
    → errors (run_http (some (server wake down)) (options timeout ts rs) []).0
      ≡ errors (serve_error wake)
        ++ (errors (unless_closed down) ++ (stop_errors ts ++ close_errors rs))
unfolding run_http after_start run shut_down server options say stop_backgrounds close_resources
errors_lem wake down timeout ts rs fine =
    ap
      (λ p.
        errors (after_start (server wake down) (timeout_of timeout) (options timeout ts rs) p).0)
      (start_all ts fine)
    ∙ errors-joined (serve_error wake) (unless_closed down) _ _
    ∙ simp
        (
          errors-stop_loop (timeout_of timeout) ts (start_log ts ++ (serving ∷ []) ++ (shut ∷ [])),
          errors-close_loop rs,
        )
        refl

-- If every Start returns nil, then the error of RunHTTP joins, in this order, those of the server, of
-- the shutdown, of the Stops and of the Closes, both from the last to the first, where
-- http.ErrServerClosed counts as nil for the server and for the shutdown: no error is lost, and none
-- is made up. It is nil if and only if there are none.
pub errors-run_http :
    (wake : Wake) (down : Err) (timeout : ℤ) (ts : List (Option Task)) (rs : List (Option Resource))
    → all_start ts ≡ true
    → let result = (run_http (some (server wake down)) (options timeout ts rs) []).0 in
      let all =
        errors (serve_error wake)
        ++ (errors (unless_closed down) ++ (stop_errors ts ++ close_errors rs)) in
      (errors result ≡ all) × (is_nil result ≡ is_empty all)
errors-run_http wake down timeout ts rs fine =
    let e = errors_lem wake down timeout ts rs fine in (e, is_nil-errors _ ∙ ap is_empty e)
