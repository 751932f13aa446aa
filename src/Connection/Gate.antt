-- ===== src/Connection/Gate.antt =====
-- What passes the start-up gate (src/lib/GrpcMiddleware.ts).
use zeebe_client_node_js.Base.{ℕ, ◌<◌, ◌≡◌, refl, true, false, List, [], ◌∷◌, ◌++◌, arith, ap}
use zeebe_client_node_js.Connection.Channel.{Signal, event_error, event_ready, grpc_intercept_error}
use zeebe_client_node_js.Connection.Middleware.{
  State, error, connected, StatusEvent, connection_error, ready, Middleware, new_middleware,
  summary, startup_ends, on_signal,
}

-- The signals of a gRPC client, one after another, and all that the middleware emits for them.
pub feed : Middleware → List Signal → Middleware × List StatusEvent
feed m [] = (m, [])
feed m (s ∷ rest) =
    let (m₁, first) = on_signal m s in let (m₂, later) = feed m₁ rest in (m₂, first ++ later)

-- The events that stand for a list of signals when nothing is held back.
abbrev pub forwarded : List Signal → List StatusEvent
forwarded [] = []
forwarded (event_error ∷ rest) = connection_error ∷ forwarded rest
forwarded (event_ready ∷ rest) = ready ∷ forwarded rest
forwarded (grpc_intercept_error ∷ rest) = forwarded rest

-- The state of the connection after a list of signals: the last one decides.
abbrev pub state_after : State → List Signal → State
state_after s [] = s
state_after s (event_error ∷ rest) = state_after error rest
state_after s (event_ready ∷ rest) = state_after connected rest
state_after s (grpc_intercept_error ∷ rest) = state_after s rest

feed_blocking :
    (m : Middleware) (signals : List Signal)
    → m.blocking ≡ true
    → feed m signals ≡ (record m { state = state_after m.state signals }, [])
unfolding feed on_signal
feed_blocking m [] h = refl
feed_blocking m (event_error ∷ rest) h =
    ground (arith, feed_blocking (record m { state = error }) rest h)
feed_blocking m (event_ready ∷ rest) h =
    ground (arith, feed_blocking (record m { state = connected }) rest h)
feed_blocking m (grpc_intercept_error ∷ rest) h = ground (arith, feed_blocking m rest h)

feed_open :
    (m : Middleware) (signals : List Signal)
    → m.blocking ≡ false
    → (feed m signals).1 ≡ forwarded signals
unfolding feed on_signal
feed_open m [] h = refl
feed_open m (event_error ∷ rest) h = ground (arith, feed_open (record m { state = error }) rest h)
feed_open m (event_ready ∷ rest) h =
    ground (arith, feed_open (record m { state = connected }) rest h)
feed_open m (grpc_intercept_error ∷ rest) h = ground (arith, feed_open m rest h)

-- With a start-up time, nothing is emitted before it ends, whatever the signals; when it ends, one
-- event is emitted, for the last state that the signals reported (`unknown` if they reported none);
-- and from then on each error and each ready signal is forwarded, in order.
pub gate_holds :
    (startup_time : ℕ) (before after : List Signal)
    → 0 < startup_time
    → let (m₁, held) = feed (new_middleware startup_time) before in
      let (m₂, summed) = startup_ends m₁ in
      let (m₃, passed) = feed m₂ after in
      (held ≡ [])
      × (summed ≡ summary (state_after State.unknown before) ∷ [])
      × (passed ≡ forwarded after)
unfolding new_middleware startup_ends
gate_holds startup_time before after h =
    let e = feed_blocking (new_middleware startup_time) before (ground arith) in
    (ap (λ p. p.1) e, ground (arith, e), feed_open _ after refl)

-- With no start-up time every error and ready signal is forwarded at once.
pub gate_open : (signals : List Signal) → (feed (new_middleware 0) signals).1 ≡ forwarded signals
unfolding new_middleware
gate_open signals = feed_open (new_middleware 0) signals refl
