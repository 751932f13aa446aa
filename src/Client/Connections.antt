-- ===== src/Client/Connections.antt =====
-- The connections of a client and of its workers: `constructGrpcClient` and its calls in the
-- constructor, `createWorker` and `createBatchWorker` (src/zb/ZBClient.ts), with what the constructor of
-- src/lib/GrpcClient.ts makes of them. `parse_int` is `parseInt`.
pub mod Secured
pub mod LongPoll
use Prim.Native.String
use zeebe_client_node_js.Base.{
  ℕ, ◌+◌, Bool, Option, none, some, List, String, or_number, or_string, nullish,
}
use zeebe_client_node_js.Config.Settings.{value, BasicAuth, CustomSsl, OAuthConfig, Settings}
use zeebe_client_node_js.Config.Hydrator.{client_uses_tls}
use zeebe_client_node_js.Connection.Reconnect.{
  Credentials, OptionValue, channel_credentials, channel_options,
}
use zeebe_client_node_js.Connection.LogBuffer.{Loglevel, Tag, zbclient, zbworker, Line}
use zeebe_client_node_js.Connection.Factory.{Connection, startup_time, new_connection}

-- The options that reach a connection and that the hydrator passes on as they are.
pub record Passed : Type 0 where
  pub connection_tolerance : Option ℕ
  pub long_poll : ℕ
  pub log_namespace : Option String

-- The fields of a client that `constructGrpcClient` reads. `long_poll` stands for
-- `this.options.longPoll`.
pub record Target : Type 0 where
  pub gateway_address : String
  pub use_tls : Bool
  pub custom_ssl : Option CustomSsl
  pub basic_auth : Option BasicAuth
  pub o_auth : Option OAuthConfig
  pub connection_tolerance : ℕ
  pub loglevel : Loglevel
  pub long_poll : ℕ

-- A part of the address in a template: `undefined` is written out.
abbrev shown : Option String → String
shown none = "undefined"
shown (some s) = s

abbrev pub gateway_address : Settings → String
gateway_address s = String.◌++◌ (shown (value s.hostname)) (String.◌++◌ ":" (shown (value s.port)))

-- ZEEBE_CONNECTION_TOLERANCE, by default 3 seconds.
abbrev tolerance_from_env : (String → ℕ) → Option String → ℕ
tolerance_from_env parse_int none = 3000
tolerance_from_env parse_int (some String.[]) = 3000
tolerance_from_env parse_int (some (String.◌∷◌ c s)) = parse_int (String.◌∷◌ c s)

-- What the constructor of the client sets these fields to.
unfoldable pub target : (String → ℕ) → Option String → Settings → Passed → Loglevel → Target
unfolding client_uses_tls
target parse_int env_tolerance s passed level = record {
  gateway_address = gateway_address s;
  use_tls = client_uses_tls s;
  custom_ssl = value s.custom_ssl;
  basic_auth = value s.basic_auth;
  o_auth = value s.o_auth;
  connection_tolerance =
      or_number passed.connection_tolerance (tolerance_from_env parse_int env_tolerance);
  loglevel = level;
  long_poll = passed.long_poll;
}

-- `GrpcClientCtor`, less the loggers and the protocol file.
pub record GrpcClientCtor : Type 0 where
  pub basic_auth : Option BasicAuth
  pub connection_tolerance : ℕ
  pub host : String
  pub loglevel : Loglevel
  pub o_auth : Option OAuthConfig
  pub long_poll : Option ℕ
  pub namespace : String
  pub task_type : Option String
  pub use_tls : Bool
  pub custom_ssl : Option CustomSsl

-- A gRPC client with its middleware and log interceptor, and what its channel was opened with.
pub record GrpcClient : Type 0 where
  pub config : GrpcClientCtor
  pub credentials : Credentials
  pub options : List (String × OptionValue)
  pub connection : Connection

-- `longPoll ? … : undefined`
abbrev or_undefined : ℕ → Option ℕ
or_undefined ℕ.zero = none
or_undefined (ℕ.suc n) = some (ℕ.suc n)

-- The configuration that `constructGrpcClient` makes.
abbrev pub grpc_config : Target → String → Option String → GrpcClientCtor
grpc_config t namespace task_type = record {
  basic_auth = t.basic_auth;
  connection_tolerance = t.connection_tolerance;
  host = t.gateway_address;
  loglevel = t.loglevel;
  o_auth = t.o_auth;
  long_poll = or_undefined t.long_poll;
  namespace = namespace;
  task_type = task_type;
  use_tls = t.use_tls;
  custom_ssl = t.custom_ssl;
}

-- The environment that a new connection reads: ZEEBE_INITIAL_CONNECTION_TOLERANCE and
-- GRPC_KEEPALIVE_TIME_MS.
pub record ConnectionEnv : Type 0 where
  pub initial_tolerance : Option String
  pub keepalive_time_ms : Option String

-- `ConnectionFactory.getGrpcClient`: the gRPC client, and the lines that its construction logs. The
-- level of `logConfig` is that of the log interceptor.
unfoldable pub get_grpc_client :
    (String → ℕ) → ConnectionEnv → GrpcClientCtor → Loglevel → Tag → GrpcClient × List Line
unfolding startup_time new_connection channel_credentials channel_options
get_grpc_client parse_int env config level tag =
    let (connection, lines) =
      new_connection (startup_time parse_int env.initial_tolerance config.host)
        config.connection_tolerance level tag in
    (
      record {
        config = config;
        credentials = channel_credentials config.use_tls config.custom_ssl;
        options = channel_options env.keepalive_time_ms;
        connection = connection;
      },
      lines,
    )

module _ (parse_int : String → ℕ) (env : ConnectionEnv) where
  -- `constructGrpcClient`. No caller gives it `onReady` or `onConnectionError`.
  unfoldable pub construct_grpc_client :
      Target → String → Option String → Loglevel → Tag → GrpcClient × List Line
  unfolding get_grpc_client
  construct_grpc_client t namespace task_type level tag =
      get_grpc_client parse_int env (grpc_config t namespace task_type) level tag

  -- The client's own connection.
  unfoldable pub client_connection : Target → Option String → GrpcClient × List Line
  unfolding construct_grpc_client
  client_connection t log_namespace =
      construct_grpc_client t (nullish (or_string log_namespace (some "ZBClient")) "") none
        t.loglevel zbclient

  -- A worker's: the level is its own `loglevel` option, by default the client's.
  unfoldable pub worker_connection :
      Target → Option String → Option Loglevel → GrpcClient × List Line
  unfolding construct_grpc_client
  worker_connection t task_type level =
      construct_grpc_client t "ZBWorker" task_type (nullish level t.loglevel) zbworker
