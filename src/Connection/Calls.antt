-- ===== src/Connection/Calls.antt =====
-- The unary calls and the listeners of a stream (src/lib/GrpcClient.ts), with the interceptor between
-- the channel and a call's callback, and what the middleware logs of them (src/lib/GrpcMiddleware.ts).
-- grpc-js hands the status of a call to the interceptor, and runs the callback of a unary call when the
-- interceptor passes the status on.
pub mod Settling
pub mod Timeouts
use Prim.Native.String
use zeebe_client_node_js.Base.{
  ℕ, ◌+◌, Bool, true, false, Option, none, some, List, [], ◌∷◌, ◌++◌, String, if◌then◌else◌, ◌==◌,
  includes, ◌&&◌,
}
use zeebe_client_node_js.Connection.Channel.{
  Signal, event_error, Channel, set_not_ready, stream_data, UnaryResult, failed, succeeded,
  sync_result, Intercepted, signalled, suppressed, passed_on, intercept,
}
use zeebe_client_node_js.Connection.LogBuffer.{Interceptor, Line, info_line, log_info, log_error}

-- `GrpcCallStatus`
pub record GrpcCallStatus : Type 0 where
  pub code : ℕ
  pub details : String

-- What `${methodName}Sync` gives when it is called: `undefined`, a promise that is rejected because
-- there is no token or the request cannot be sent, or a promise that waits for the call's status.
pub data Started : Type 0 where
  short_circuited refused awaiting : Started

unfoldable pub call_sync : Bool → Channel → Started
call_sync sent c = if c.closing then short_circuited else if sent then awaiting else refused

-- How that promise stands when the status has arrived.
pub data Settlement : Type 0 where
  resolved unsettled : Settlement
  rejected : ℕ → Settlement

abbrev unary_result : ℕ → UnaryResult
unary_result code = if code == 0 then succeeded else failed code

abbrev settlement : UnaryResult → Settlement
settlement succeeded = resolved
settlement (failed code) = rejected code

abbrev called_back : ℕ → UnaryResult → Channel → Channel × List Signal × Settlement
called_back now r c = let (c', signals, _) = sync_result now r c in (c', signals, settlement r)

abbrev has_503 : GrpcCallStatus → Bool
has_503 s = includes s.details "503"

abbrev listened : ℕ → ℕ → Intercepted → Channel → Channel × List Signal × Settlement
listened now code (signalled s) c = (c, s ∷ [], unsettled)
listened now code suppressed c = (c, [], unsettled)
listened now code passed_on c = called_back now (unary_result code) c

-- `onReceiveStatus` of the interceptor, with the callback of the unary call behind it.
unfoldable pub receive_status : ℕ → GrpcCallStatus → Channel → Channel × List Signal × Settlement
unfolding intercept sync_result
receive_status now s c = listened now s.code (intercept s.code (has_503 s) c) c

-- `MiddlewareSignals.Log`
pub data LogSignal : Type 0 where
  debug info error : String → LogSignal

-- The middleware's listeners for them. Debug lines are left out.
unfoldable pub on_log : Interceptor → LogSignal → Interceptor × List Line
unfolding log_info log_error
on_log log (debug text) = (log, [])
on_log log (info text) = log_info log text
on_log log (error text) = log_error log text

abbrev bad_gateway : String
bad_gateway =
    "The gateway returned HTTP Error 503 (Bad Gateway). This can be a transient failure while a Kubernetes node in Camunda Cloud is being pre-empted."

-- `handleExceptionalGrpc`
unfoldable pub handle_exceptional_grpc : Interceptor → GrpcCallStatus → Interceptor × List Line
unfolding log_error
handle_exceptional_grpc log s =
    if s.code == 1 && has_503 s then log_error log bad_gateway else (log, [])

-- What a stream emits; `status` and `metadata` come as texts of JSON.
pub data StreamEvent : Type 0 where
  stream_error metadata status : String → StreamEvent
  data_event end_event : StreamEvent

abbrev error_text : String → String → String
error_text host message =
    if includes message "14 UNAVAILABLE"
    then String.◌++◌ "Grpc Stream Error: " (String.◌++◌ message (String.◌++◌ " - " host))
    else String.◌++◌ "Grpc Stream Error: " message

-- A channel and the client-side timeout of its stream, while it is pending.
pub record Streaming : Type 0 where
  pub channel : Channel
  pub timeout : Option ℕ

-- The gRPC client's own listeners of a stream.
unfoldable pub on_stream_event :
    ℕ → String → Streaming → StreamEvent → Streaming × List Signal × List LogSignal
unfolding set_not_ready stream_data
on_stream_event now host s (stream_error message) = (
  record { channel = set_not_ready now s.channel; timeout = none },
  event_error ∷ [],
  error (error_text host message) ∷ [],
)
on_stream_event now host s data_event = (record s { channel = stream_data s.channel }, [], [])
on_stream_event now host s (metadata text) = (s, [], debug text ∷ [])
on_stream_event now host s (status text) =
    (s, [], debug (String.◌++◌ "gRPC Status event: " text) ∷ [])
on_stream_event now host s end_event = (record s { timeout = none }, [], [])

-- The client-side timeout: the stream is made to emit 'end'.
unfoldable pub client_side_timeout : ℕ → String → Streaming → Streaming × List StreamEvent
unfolding on_stream_event
client_side_timeout now host s = elim s.timeout [
  | none ↦ (s, [])
  | some at ↦ ((on_stream_event now host s end_event).0, end_event ∷ [])
]
