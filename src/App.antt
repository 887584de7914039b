-- ===== src/App.antt =====
-- app/runtime.go: RunHTTP starts the background services, waits for a signal or for the server's
-- end, shuts the server down, stops the services and closes the resources. Logging and contexts
-- are not modelled; the timeout of a context is the number of nanoseconds that made it.
pub mod Order
pub mod Result
pub mod Tests
use chobits.Prelude.{
  ℕ, Bool, true, false, ◌||◌, Option, none, some, List, [], ◌∷◌, ◌++◌, reverse, if◌then◌else◌,
  Bytes, codes,
}
use chobits.Int64.{ℤ, pos, is_positive}

-- `failure` is an error of a service, `message` one of errors.New or of fmt.Errorf without %w.
pub data Error : Type 0 where
  server_closed : Error
  failure : ℕ → Error
  message : Bytes → Error
  joined1 : Error → Error
  joined2 : Error → Error → Error

-- Go's `error`: nil is `none`.
abbrev pub Err : Type 0
Err = Option Error

-- errors.Join(a, b)
unfoldable pub join : Err → Err → Err
join none none = none
join (some e) none = some (joined1 e)
join none (some f) = some (joined1 f)
join (some e) (some f) = some (joined2 e f)

-- errors.Is(err, http.ErrServerClosed)
unfoldable pub is_closed : Error → Bool
is_closed server_closed = true
is_closed (joined1 e) = is_closed e
is_closed (joined2 e f) = is_closed e || is_closed f
is_closed _ = false

-- A value of any type in a world `W`: of the interfaces Background, Stopper, Waiter and Closer it
-- has those whose method is there. A stop gets the timeout of its context.
pub record Component (W : Type 0) : Type 0 where
  pub start : Option (W → Err × W)
  pub stop : Option (ℤ → W → Err × W)
  pub wait : Option (W → W)
  pub close : Option (W → Err × W)

-- What the select statement receives: the end of the context, or the end of ListenAndServe.
pub data Wake : Type 0 where
  signalled : Wake
  served : Err → Wake

-- The server: the run from the start of its goroutine to the select, under the signals that end
-- the context, and the shutdown under a timeout.
pub record Server (W : Type 0) : Type 0 where
  pub serve : List ℕ → W → Wake × W
  pub shutdown : ℤ → W → Err × W

-- Options. `closers` are functions, since a Closer has that method alone.
pub record Options (W : Type 0) : Type 0 where
  pub shutdown_timeout : ℤ
  pub signals : List ℕ
  pub backgrounds : List (Option (Component W))
  pub closers : List (Option (W → Err × W))

-- syscall.SIGINT and syscall.SIGTERM
abbrev pub default_signals : List ℕ
default_signals = 2 ∷ 15 ∷ []

unfoldable pub signals_of : List ℕ → List ℕ
signals_of [] = default_signals
signals_of (s ∷ ss) = s ∷ ss

unfoldable pub timeout_of : ℤ → ℤ
timeout_of t = if is_positive t then t else pos 10000000000

-- The error that the goroutine sends: http.ErrServerClosed is none.
unfoldable pub unless_closed : Err → Err
unfolding is_closed
unless_closed none = none
unless_closed (some e) = if is_closed e then none else some e

unfoldable pub serve_error : Wake → Err
unfolding unless_closed
serve_error signalled = none
serve_error (served e) = unless_closed e

module _ {W : Type 0} where
  -- service.Stop(stopCtx), if the service is a Stopper, joined to the errors so far
  unfoldable pub stop_one : ℤ → Component W → Err → W → Err × W
  stop_one timeout c result w = elim c.stop [
    | none ↦ (result, w)
    | some stop ↦
        let (e, w') = stop timeout w in
        elim e [ none ↦ (result, w') | some x ↦ (join result (some x), w') ]
  ]

  unfoldable pub wait_one : Component W → W → W
  wait_one c w = elim c.wait [ none ↦ w | some wait ↦ wait w ]

  -- the loop of stopBackgrounds, over the services it has yet to visit
  unfoldable pub stop_loop : ℤ → List (Option (Component W)) → Err → W → Err × W
  unfolding stop_one wait_one
  stop_loop timeout [] result w = (result, w)
  stop_loop timeout (none ∷ cs) result w = stop_loop timeout cs result w
  stop_loop timeout (some c ∷ cs) result w =
      let (result', w') = stop_one timeout c result w in
      stop_loop timeout cs result' (wait_one c w')

  unfoldable pub stop_backgrounds : ℤ → List (Option (Component W)) → W → Err × W
  unfolding stop_loop
  stop_backgrounds timeout cs w = stop_loop timeout (reverse cs) none w

  -- the loop of closeResources, over the closers it has yet to visit
  unfoldable pub close_loop : List (Option (W → Err × W)) → Err → W → Err × W
  unfolding join
  close_loop [] result w = (result, w)
  close_loop (none ∷ cs) result w = close_loop cs result w
  close_loop (some close ∷ cs) result w =
      let (e, w') = close w in
      close_loop cs (elim e [ none ↦ result | some x ↦ join result (some x) ]) w'

  unfoldable pub close_resources : List (Option (W → Err × W)) → W → Err × W
  unfolding close_loop
  close_resources cs w = close_loop (reverse cs) none w

  -- starter.Start(ctx), if the service is a Background
  unfoldable pub start_one : Component W → W → Err × W
  start_one c w = elim c.start [ none ↦ (none, w) | some start ↦ start w ]

  -- The loop that starts the services: the first error if there is one, and the services started.
  unfoldable pub start_loop :
      List (Option (Component W))
      → List (Option (Component W))
      → W
      → (Err × List (Option (Component W))) × W
  unfolding start_one
  start_loop [] started w = ((none, started), w)
  start_loop (none ∷ cs) started w = start_loop cs started w
  start_loop (some c ∷ cs) started w =
      let (e, w') = start_one c w in
      elim e [
        | none ↦ start_loop cs (started ++ (some c ∷ [])) w'
        | some x ↦ ((some x, started), w')
      ]

  -- the branch in which a service did not start
  unfoldable pub abandon : ℤ → Options W → List (Option (Component W)) → Error → W → Err × W
  unfolding stop_backgrounds close_resources
  abandon timeout options started e w =
      (some e, (close_resources options.closers (stop_backgrounds timeout started w).1).1)

  -- from the select statement on
  unfoldable pub shut_down :
      Server W → ℤ → Options W → List (Option (Component W)) → Err → W → Err × W
  unfolding stop_backgrounds close_resources unless_closed
  shut_down server timeout options started serve_err w =
      let (down, w1) = server.shutdown timeout w in
      let (stopped, w2) = stop_backgrounds timeout started w1 in
      let (closed, w3) = close_resources options.closers w2 in
      let down' : Err = elim (unless_closed down) [ none ↦ none | some e ↦ join none (some e) ] in
      let result = join (join down' stopped) closed in
      (elim serve_err [ none ↦ result | some e ↦ join (some e) result ], w3)

  unfoldable pub run : Server W → ℤ → Options W → List (Option (Component W)) → W → Err × W
  unfolding shut_down signals_of serve_error
  run server timeout options started w =
      let (wake, w') = server.serve (signals_of options.signals) w in
      shut_down server timeout options started (serve_error wake) w'

  -- what follows the loop that starts the services
  unfoldable pub after_start :
      Server W → ℤ → Options W → (Err × List (Option (Component W))) × W → Err × W
  unfolding abandon run
  after_start server timeout options ((none, started), w) = run server timeout options started w
  after_start server timeout options ((some e, started), w) = abandon timeout options started e w

  unfoldable pub run_http : Option (Server W) → Options W → W → Err × W
  unfolding start_loop after_start timeout_of
  run_http none options w = (some (message (codes "http server is nil")), w)
  run_http (some server) options w =
      after_start server (timeout_of options.shutdown_timeout) options
        (start_loop options.backgrounds [] w)
