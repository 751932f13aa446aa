-- ===== src/Connection/Factory.antt =====
-- A connection as src/lib/ConnectionFactory.ts puts it together: the gRPC client, the middleware that
-- listens to its signals, and the log interceptor that both share. `parse_int` is `parseInt`.
use zeebe_client_node_js.Base.{
  ℕ, Option, some, List, [], String, if◌then◌else◌, includes, or_string, nullish,
}
use zeebe_client_node_js.Connection.Channel.{
  Signal, event_error, event_ready, grpc_intercept_error, Channel, new_channel, Connectivity,
  CloseAnswer, close_channel,
}
use zeebe_client_node_js.Connection.Middleware.{
  StatusEvent, Middleware, new_middleware, on_signal, close_middleware,
}
use zeebe_client_node_js.Connection.LogBuffer.{
  Loglevel, Tag, Line, Interceptor, new_interceptor, connection_failed, connection_ready,
  close_interceptor,
}

-- `ConnectionCharacteristics[profile].startupTime`; `tolerance` is ZEEBE_INITIAL_CONNECTION_TOLERANCE.
unfoldable pub startup_time : (String → ℕ) → Option String → String → ℕ
startup_time parse_int tolerance host =
    if includes host "zeebe.camunda.io"
    then parse_int (nullish (or_string tolerance (some "6000")) "")
    else parse_int (nullish (or_string tolerance (some "0")) "")

pub record Connection : Type 0 where
  pub channel : Channel
  pub middleware : Middleware
  pub log : Interceptor

-- `getGrpcClient`: the connection and the lines that it logs.
unfoldable pub new_connection : ℕ → ℕ → Loglevel → Tag → Connection × List Line
unfolding new_channel new_middleware new_interceptor
new_connection startup connection_tolerance level tag =
    let (log, lines) = new_interceptor startup level tag in
    (
      record {
        channel = new_channel connection_tolerance;
        middleware = new_middleware startup;
        log = log;
      },
      lines,
    )

-- What a signal of the gRPC client does to the log interceptor.
abbrev log_signal : Interceptor → Signal → Interceptor × List Line
log_signal log event_error = (connection_failed log, [])
log_signal log event_ready = connection_ready log
log_signal log grpc_intercept_error = (log, [])

-- The middleware's listeners, the log interceptor included. Their `logError` on a 503 is left out.
unfoldable pub receive : Connection → Signal → Connection × List StatusEvent × List Line
unfolding on_signal connection_failed connection_ready
receive c s =
    let (m, events) = on_signal c.middleware s in
    let (log, lines) = log_signal c.log s in (record c { middleware = m; log = log }, events, lines)

-- `close` of the client that the factory gives. It does not wait for the channel.
unfoldable pub close_connection : Connectivity → Connection → Connection × CloseAnswer
unfolding close_interceptor close_middleware close_channel
close_connection seen c =
    let (channel, answer) = close_channel seen c.channel in
    (
      record {
        channel = channel;
        middleware = close_middleware c.middleware;
        log = close_interceptor c.log;
      },
      answer,
    )
