-- ===== src/Client/Connections/Secured.antt =====
-- What the connections of a configured client and of its workers have in common
-- (src/zb/ZBClient.ts, src/lib/ConfigurationHydrator.ts, src/lib/GrpcClient.ts).
use zeebe_client_node_js.Base.{
  ℕ, ◌≡◌, ◌⊎◌, inl, inr, refl, Bool, true, false, Option, none, some, String, ℤ, nullish_option,
}
use zeebe_client_node_js.Config.Settings.{Env, value, CustomSsl, Settings, Options}
use zeebe_client_node_js.Config.Address.{Url}
use zeebe_client_node_js.Config.Sources.{tls_from_env}
use zeebe_client_node_js.Config.Hydrator.{configure, client_uses_tls}
use zeebe_client_node_js.Config.Transport.{tls_by, uses_tls}
use zeebe_client_node_js.Connection.Channel.{new_channel}
use zeebe_client_node_js.Connection.Middleware.{new_middleware}
use zeebe_client_node_js.Connection.LogBuffer.{Loglevel}
use zeebe_client_node_js.Connection.Reconnect.{Credentials, insecure, ssl, channel_credentials}
use zeebe_client_node_js.Connection.Factory.{new_connection}
use zeebe_client_node_js.Client.Connections.{
  Passed, Target, target, gateway_address, GrpcClient, ConnectionEnv, get_grpc_client,
  construct_grpc_client, client_connection, worker_connection,
}

-- What decides where a connection goes and how it is secured.
pub record Route : Type 0 where
  pub host : String
  pub credentials : Credentials
  pub tolerance : ℕ
  pub blocked : Bool

abbrev pub route : GrpcClient → Route
route g = record {
  host = g.config.host;
  credentials = g.credentials;
  tolerance = g.connection.channel.connection_tolerance;
  blocked = g.connection.middleware.blocking;
}

-- The certificates that a connection is opened with.
abbrev certificate : (CustomSsl → Option String) → Option CustomSsl → Option String
certificate part none = none
certificate part (some c) = part c

abbrev pub ssl_with : Option CustomSsl → Credentials
ssl_with c =
    ssl (certificate (λ s. s.root_certs) c) (certificate (λ s. s.private_key) c)
      (certificate (λ s. s.cert_chain) c)

credentials_by :
    (b : Bool) (c : Option CustomSsl)
    → ((b ≡ true) × (channel_credentials b c ≡ ssl_with c))
      ⊎ ((b ≡ false) × (channel_credentials b c ≡ insecure))
unfolding channel_credentials
credentials_by true none = inl (refl, refl)
credentials_by true (some c) = inl (refl, refl)
credentials_by false c = inr (refl, refl)

module _ (parse : String → Option Url) (parse_int : String → Option ℤ) (seconds : ℤ → ℤ)
    (read_file : String → Option String) (parse_ms : String → ℕ) (env : ConnectionEnv) where
  routes_agree :
      (t : Target) (namespace task_type : Option String) (level : Option Loglevel)
      → route (worker_connection parse_ms env t task_type level).0
        ≡ route (client_connection parse_ms env t namespace).0
  unfolding worker_connection client_connection construct_grpc_client get_grpc_client new_connection
      new_channel new_middleware
  routes_agree t namespace task_type level = refl

  client_credentials :
      (t : Target) (namespace : Option String)
      → (client_connection parse_ms env t namespace).0.credentials
        ≡ channel_credentials t.use_tls t.custom_ssl
  unfolding client_connection construct_grpc_client get_grpc_client
  client_credentials t namespace = refl

  -- A client that could be configured connects to the configured host and port, with SSL and the
  -- configured certificates if TLS is used, which the OAuth settings, the option and the environment
  -- decide, and insecurely otherwise. The worker for any task type and log level goes to the same host,
  -- with the same credentials, and with the tolerance and the start-up gate of the client.
  pub connections_secured :
      (config_env : Env) (gateway : Option String) (options : Options) (tolerance : Option String)
      (passed : Passed) (level : Loglevel) (task_type : Option String)
      (worker_level : Option Loglevel) {s : Settings}
      → configure parse parse_int seconds read_file config_env gateway options ≡ some s
      → let t = target parse_ms tolerance s passed level in
        let client = (client_connection parse_ms env t passed.log_namespace).0 in
        let worker = (worker_connection parse_ms env t task_type worker_level).0 in
        let tls =
          tls_by parse parse_int seconds read_file
            (value s.o_auth)
            (nullish_option (value options.settings.use_tls) (tls_from_env config_env)) in
        (client.config.host ≡ gateway_address s)
        × (route worker ≡ route client)
        × (((tls ≡ true) × (client.credentials ≡ ssl_with (value s.custom_ssl)))
            ⊎ ((tls ≡ false) × (client.credentials ≡ insecure)))
  unfolding target client_connection construct_grpc_client get_grpc_client
  connections_secured config_env gateway options tolerance passed level task_type worker_level {s}
        h =
      (
        refl,
        routes_agree (target parse_ms tolerance s passed level) passed.log_namespace task_type
            worker_level,
        rw⁻¹ (uses_tls parse parse_int seconds read_file config_env gateway options h)
            (credentials_by (client_uses_tls s) (value s.custom_ssl)),
      )
