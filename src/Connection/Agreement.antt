-- ===== src/Connection/Agreement.antt =====
-- The parts of one connection together (src/lib/ConnectionFactory.ts, src/lib/GrpcMiddleware.ts,
-- src/lib/GrpcClient.ts).
use zeebe_client_node_js.Base.{
  ℕ, ◌≡◌, refl, ◌∙◌, true, false, List, [], ◌∷◌, arith, String, Bool-cases, inl, inr, ◌↔◌,
}
use zeebe_client_node_js.Connection.Channel.{
  Signal, event_error, event_ready, grpc_intercept_error, Channel, Connectivity, in_state, resolved,
  pending, StreamCall, short_circuited, call_stream, close_channel, watch_fires, is_closed,
}
use zeebe_client_node_js.Connection.Middleware.{
  State, error, connected, new_middleware, on_signal, close_middleware,
}
use zeebe_client_node_js.Connection.LogBuffer.{
  Loglevel, Tag, Interceptor, new_interceptor, connection_failed, connection_ready, empty_logs,
  log_info, each, logs, greet, flush_logs, close_interceptor,
}
use zeebe_client_node_js.Connection.Factory.{Connection, new_connection, receive, close_connection}

-- The connection after a list of signals.
abbrev pub receive_all : Connection → List Signal → Connection
receive_all c [] = c
receive_all c (s ∷ rest) = receive_all (receive c s).0 rest

-- The log interceptor knows two states: a connection that has not reported yet counts as an error.
abbrev pub as_logged : State → State
as_logged connected = connected
as_logged _ = error

state-log_info : (s : Interceptor) (msg : String) → (log_info s msg).0.state ≡ s.state
unfolding log_info
state-log_info s msg = ground arith

state-each : (s : Interceptor) (l : List String) → (each log_info s l).0.state ≡ s.state
state-each s [] = refl
state-each s (msg ∷ rest) = state-each (log_info s msg).0 rest ∙ state-log_info s msg

state-flush_logs : (s : Interceptor) → (flush_logs s).0.state ≡ s.state
state-flush_logs s = go (logs s) refl
  where
    go : (l : List String) → logs s ≡ l → (flush_logs s).0.state ≡ s.state
    go [] e = rw (e, flush_logs) refl
    go (msg ∷ rest) e = rw (e, flush_logs) (state-each s (msg ∷ rest))

state-greet : (s : Interceptor) → (greet s).0.state ≡ s.state
state-greet s = ground arith

state-connection_ready : (s : Interceptor) → (connection_ready s).0.state ≡ connected
unfolding connection_ready empty_logs
state-connection_ready s = elim (Bool-cases s.blocking) [
  | inl e ↦ rw e (state-flush_logs (greet s').0 ∙ state-greet s')
  | inr e ↦ rw e refl
]
  where
    s' : Interceptor
    s' = record s { state = connected; blocking = false }

module _ (c : Connection) where
  -- The log interceptor follows the middleware.
  abbrev pub IsAgreed : Type 0
  IsAgreed = c.log.state ≡ as_logged c.middleware.state

receive-IsAgreed : (c : Connection) (s : Signal) → IsAgreed c → IsAgreed (receive c s).0
unfolding receive on_signal connection_failed
receive-IsAgreed c event_error h = refl
receive-IsAgreed c event_ready h = state-connection_ready c.log
receive-IsAgreed c grpc_intercept_error h = h

receive_all-IsAgreed :
    (c : Connection) (signals : List Signal) → IsAgreed c → IsAgreed (receive_all c signals)
receive_all-IsAgreed c [] h = h
receive_all-IsAgreed c (s ∷ rest) h =
    receive_all-IsAgreed (receive c s).0 rest (receive-IsAgreed c s h)

-- Whatever signals a new connection receives, its log interceptor and its middleware agree on whether
-- it is connected.
pub parts_agree :
    (startup tolerance : ℕ) (level : Loglevel) (tag : Tag) (signals : List Signal)
    → IsAgreed (receive_all (new_connection startup tolerance level tag).0 signals)
unfolding new_connection new_interceptor new_middleware
parts_agree startup tolerance level tag signals =
    receive_all-IsAgreed (new_connection startup tolerance level tag).0 signals refl

-- Closing a connection whose channel is not marked as closed leaves neither of its start-up timers
-- pending, and it opens no stream: each call of a stream method leaves the channel as it is, signals
-- nothing and answers `undefined`. The `close` of the channel has resolved just if the channel is now
-- marked as closed.
pub closed_connection :
    (c : Connection) (seen : Connectivity)
    → c.channel.channel_closed ≡ false
    → ((close_connection seen c).0.middleware.blocking_timer ≡ false)
      × ((close_connection seen c).0.log.blocking_timer ≡ false)
      × ((now long_poll : ℕ) (result : StreamCall)
          → call_stream now long_poll result (close_connection seen c).0.channel
            ≡ ((close_connection seen c).0.channel, [], short_circuited))
      × ((close_connection seen c).1 ≡ resolved
          ↔ (close_connection seen c).0.channel.channel_closed ≡ true)
unfolding close_connection close_channel close_middleware close_interceptor call_stream
closed_connection c seen h = (refl, refl, (λ now long_poll result. ground arith), ground arith)

-- When the channel shuts down only after `close` began to watch it, `close` resolves but the channel is
-- not marked as closed.
pub late_close_unmarked :
    (c : Channel) (first second : ℕ)
    → c.channel_closed ≡ false
    → is_closed first ≡ false
    → is_closed second ≡ true
    → let (c₁, answer₁) = close_channel (in_state first) c in
      let (c₂, answer₂) = watch_fires (in_state second) c₁ in
      (answer₁ ≡ pending) × (answer₂ ≡ resolved) × (c₂.channel_closed ≡ false)
unfolding close_channel watch_fires
late_close_unmarked c first second h p q = ground arith
