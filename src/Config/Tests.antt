-- ===== src/Config/Tests.antt =====
-- The hydrator at concrete inputs (src/lib/ConfigurationHydrator.ts).
use zeebe_client_node_js.Base.{
  ◌≡◌, ◌≢◌, refl, true, Option, none, some, String, ℤ, pos, truthy, arith, ap,
}
use zeebe_client_node_js.Config.Settings.{
  Env, present, OAuthConfig, Settings, Options, nothing, zeebe_address,
}
use zeebe_client_node_js.Config.Address.{
  Url, decode_address, gateway_from_env, decode_connection_string,
}
use zeebe_client_node_js.Config.Sources.{read_custom_ssl, read_o_auth}
use zeebe_client_node_js.Config.Hydrator.{configure}
use zeebe_client_node_js.Config.Gateway.{gateway_precedence}
use zeebe_client_node_js.Config.Failure.{LacksAddress}

-- An environment with a gateway address alone.
abbrev pub env : Env
env = record {
  gateway_address = none;
  address = some "zeebe.local";
  client_id = none;
  client_secret = none;
  secure_connection = none;
  token_audience = none;
  token_scope = none;
  authorization_server_url = none;
  camunda_cloud_cluster_id = none;
  basic_auth_password = none;
  basic_auth_username = none;
  eager_connect = none;
  client_retry = none;
  client_max_retries = none;
  client_max_retry_timeout = none;
  ssl_root_certs_path = none;
  ssl_private_key_path = none;
  ssl_cert_chain_path = none;
  tenant_id = none;
}

abbrev options : Options
options = record { settings = nothing; camunda_cloud = none }

abbrev pub cloud_options : Options
cloud_options = record {
  settings = nothing;
  camunda_cloud = some (record {
    cluster_id = some "c";
    cluster_region = none;
    client_id = "i";
    client_secret = "s";
    cache_dir = none;
    cache_on_disk = none;
  });
}

-- A URL parser, a number parser and a file reader that know one answer each.
abbrev pub parse : String → Option Url
parse text = some (record { hostname = some "zeebe.local"; port = none; path = none })

abbrev pub parse_int : String → Option ℤ
parse_int text = some (pos 1)

abbrev pub seconds : ℤ → ℤ
seconds n = n

abbrev pub read_file : String → Option String
read_file path = none

abbrev pub settings_of : Option Settings → Settings
settings_of none = nothing
settings_of (some s) = s

-- The configurations of the environment alone, and of a cluster in the options.
abbrev settings : Settings
settings = settings_of (configure parse parse_int seconds read_file env none options)

abbrev pub cloud_settings : Settings
cloud_settings = settings_of (configure parse parse_int seconds read_file env none cloud_options)

settings_made : configure parse parse_int seconds read_file env none options ≡ some settings
unfolding configure read_custom_ssl read_o_auth gateway_from_env decode_connection_string
    decode_address
settings_made = refl

pub cloud_settings_made :
    configure parse parse_int seconds read_file env none cloud_options ≡ some cloud_settings
unfolding configure read_custom_ssl read_o_auth gateway_from_env decode_connection_string
    decode_address
cloud_settings_made = refl

address_given : zeebe_address env ≢ some ""
address_given e = let d = ap truthy e in ground arith

gateway_precedence_example :
    (settings.hostname ≡ present (some "zeebe.local")) × (settings.port ≡ present (some "26500"))
unfolding decode_address
gateway_precedence_example =
    gateway_precedence parse parse_int seconds read_file env none options refl refl refl
      address_given settings_made

abbrev credentials : OAuthConfig
credentials = record {
  audience = some "c.bru-2.zeebe.camunda.io";
  scope = none;
  cache_on_disk = true;
  cache_dir = none;
  client_id = some "i";
  client_secret = some "s";
  url = some "https://login.cloud.camunda.io/oauth/token";
  custom_root_cert = none;
}

-- A client id and a client secret, and no address.
abbrev lacking : Env
lacking = record env { address = none; client_id = some "i"; client_secret = some "s" }

lacking-LacksAddress : LacksAddress lacking none
lacking-LacksAddress = record {
  shortcut = refl;
  no_gateway = refl;
  no_cluster = refl;
  no_address = refl;
}
