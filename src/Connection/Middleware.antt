-- ===== src/Connection/Middleware.antt =====
-- The start-up gate between the gRPC client and its users (src/lib/GrpcMiddleware.ts).
use zeebe_client_node_js.Base.{ℕ, Bool, false, List, [], ◌∷◌, if◌then◌else◌, ltb}
use zeebe_client_node_js.Connection.Channel.{Signal, event_error, event_ready, grpc_intercept_error}

-- `State` of src/lib/ConnectionFactory.ts.
pub data State : Type 0 where
  error connected unknown : State

-- What the middleware makes the gRPC client emit: `ConnectionStatusEvent`.
pub data StatusEvent : Type 0 where
  connection_error ready unknown : StatusEvent

-- `blocking_timer` says that the timer of the constructor has not fired and was not cleared.
pub record Middleware : Type 0 where
  pub blocking : Bool
  pub state : State
  pub blocking_timer : Bool

-- The constructor, for characteristics with this start-up time.
unfoldable pub new_middleware : ℕ → Middleware
new_middleware startup_time = record {
  blocking = ltb 0 startup_time;
  state = State.unknown;
  blocking_timer = ltb 0 startup_time;
}

abbrev pub summary : State → StatusEvent
summary error = connection_error
summary connected = ready
summary State.unknown = StatusEvent.unknown

-- The callback of the constructor's timer.
unfoldable pub startup_ends : Middleware → Middleware × List StatusEvent
startup_ends m = (record m { blocking = false; blocking_timer = false }, summary m.state ∷ [])

-- The listeners for the signals of the gRPC client. `handleExceptionalGrpc` only logs.
unfoldable pub on_signal : Middleware → Signal → Middleware × List StatusEvent
on_signal m event_error =
    (record m { state = error }, if m.blocking then [] else connection_error ∷ [])
on_signal m event_ready = (record m { state = connected }, if m.blocking then [] else ready ∷ [])
on_signal m grpc_intercept_error = (m, [])

-- `close`: the timer is cleared, and the client's own `close` is not waited for.
unfoldable pub close_middleware : Middleware → Middleware
close_middleware m = record m { blocking_timer = false }
