-- ===== src/Config/Settings.antt =====
-- What the hydrator reads and what it makes: the environment, the options and the configuration.
-- Options and configuration are objects, in which a property may be absent, or present and
-- `undefined`; a spread takes over the properties that are present.
use zeebe_client_node_js.Base.{Bool, Option, none, String, ℤ, or_string}

-- The environment variables of `ConfigurationHydrator.ENV`, without ZEEBE_NODE_LOG_LEVEL.
pub record Env : Type 0 where
  pub gateway_address : Option String
  pub address : Option String
  pub client_id : Option String
  pub client_secret : Option String
  pub secure_connection : Option String
  pub token_audience : Option String
  pub token_scope : Option String
  pub authorization_server_url : Option String
  pub camunda_cloud_cluster_id : Option String
  pub basic_auth_password : Option String
  pub basic_auth_username : Option String
  pub eager_connect : Option String
  pub client_retry : Option String
  pub client_max_retries : Option String
  pub client_max_retry_timeout : Option String
  pub ssl_root_certs_path : Option String
  pub ssl_private_key_path : Option String
  pub ssl_cert_chain_path : Option String
  pub tenant_id : Option String

-- A property of an object.
pub data Property (A : Type 0) : Type 0 where
  absent : Property A
  present : Option A → Property A

abbrev pub value : {A : Type 0} → Property A → Option A
value absent = none
value (present a) = a

-- One property of `{ ...first, ...second }`.
abbrev pub over : {A : Type 0} → Property A → Property A → Property A
over first absent = first
over first (present a) = present a

-- `OAuthProviderConfig`
pub record OAuthConfig : Type 0 where
  pub audience : Option String
  pub scope : Option String
  pub cache_on_disk : Bool
  pub cache_dir : Option String
  pub client_id : Option String
  pub client_secret : Option String
  pub url : Option String
  pub custom_root_cert : Option String

-- `BasicAuthConfig`
pub record BasicAuth : Type 0 where
  pub username : String
  pub password : String

-- `CustomSSL`, with the files' contents as texts.
pub record CustomSsl : Type 0 where
  pub root_certs : Option String
  pub private_key : Option String
  pub cert_chain : Option String

-- `CamundaCloudConfig`
pub record CamundaCloud : Type 0 where
  pub cluster_id : Option String
  pub cluster_region : Option String
  pub client_id : String
  pub client_secret : String
  pub cache_dir : Option String
  pub cache_on_disk : Option Bool

-- The properties of a configuration that the hydrator sets. The other options pass through it.
pub record Settings : Type 0 where
  pub hostname : Property String
  pub port : Property String
  pub custom_ssl : Property CustomSsl
  pub basic_auth : Property BasicAuth
  pub o_auth : Property OAuthConfig
  pub use_tls : Property Bool
  pub eager_connection : Property Bool
  pub retry : Property Bool
  pub max_retries : Property ℤ
  pub max_retry_timeout : Property ℤ
  pub tenant_id : Property String

-- `ZBClientOptions`
pub record Options : Type 0 where
  pub settings : Settings
  pub camunda_cloud : Option CamundaCloud

abbrev pub nothing : Settings
nothing = record {
  hostname = absent;
  port = absent;
  custom_ssl = absent;
  basic_auth = absent;
  o_auth = absent;
  use_tls = absent;
  eager_connection = absent;
  retry = absent;
  max_retries = absent;
  max_retry_timeout = absent;
  tenant_id = absent;
}

-- `{ ...first, ...second }`
abbrev pub spread : Settings → Settings → Settings
spread first second = record {
  hostname = over first.hostname second.hostname;
  port = over first.port second.port;
  custom_ssl = over first.custom_ssl second.custom_ssl;
  basic_auth = over first.basic_auth second.basic_auth;
  o_auth = over first.o_auth second.o_auth;
  use_tls = over first.use_tls second.use_tls;
  eager_connection = over first.eager_connection second.eager_connection;
  retry = over first.retry second.retry;
  max_retries = over first.max_retries second.max_retries;
  max_retry_timeout = over first.max_retry_timeout second.max_retry_timeout;
  tenant_id = over first.tenant_id second.tenant_id;
}

-- `getZeebeAddressFromEnv`
abbrev pub zeebe_address : Env → Option String
zeebe_address env = or_string env.address env.gateway_address
