-- ===== src/Config/Sources.antt =====
-- The parts of a configuration: one function for each `read…`, `get…` and `decode…` of
-- src/lib/ConfigurationHydrator.ts. The address of the gateway is in
-- Config/Address. `read_file` is `fs.readFileSync` (`none` where it throws), `parse_int` is
-- `parseInt(_, 10)` (`none` for NaN), and `seconds` is `Duration.seconds.from`.
use Prim.Native.String
use zeebe_client_node_js.Base.{
  Bool, true, false, Option, none, some, String, ℤ, if◌then◌else◌, not, ◌&&◌, ◌||◌, truthy,
  or_string, nullish, nullish_option, is_true, is_false, split_head, is_word,
}
use zeebe_client_node_js.Config.Settings.{
  Env, present, value, CamundaCloud, Settings, Options, nothing, zeebe_address,
}

abbrev pub camunda_cloud_auth_server : String
camunda_cloud_auth_server = "https://login.cloud.camunda.io/oauth/token"

abbrev pub camunda_cloud_default_region : String
camunda_cloud_default_region = "bru-2"

-- `getTlsFromEnv`
unfoldable pub tls_from_env : Env → Option Bool
tls_from_env env =
    let setting = nullish (or_string env.secure_connection (some "")) "" in
    if is_word setting "true"
    then some true
    else if is_word setting "false"
    then some false
    else none

-- `readTLSFromEnvironment`
unfoldable pub read_tls : Env → Options → Settings
read_tls env options = record nothing {
  use_tls = present (nullish_option (value options.settings.use_tls) (tls_from_env env));
}

-- `path ? fs.readFileSync(path) : undefined`; the outer `none` is the error of the read.
abbrev read_optional : (String → Option String) → Option String → Option (Option String)
read_optional read_file path =
    if truthy path
    then (elim (read_file (nullish path "")) [ none ↦ none | some text ↦ some (some text) ])
    else some none

-- The literal `{ certChain, privateKey, rootCerts }`, whose first failing read throws.
abbrev ssl_of :
    Option (Option String) → Option (Option String) → Option (Option String) → Option Settings
ssl_of (some chain) (some key) (some root) = some (record nothing {
  custom_ssl = present (some (record { cert_chain = chain; private_key = key; root_certs = root }));
})
ssl_of _ _ _ = none

-- `readCustomSSLFromEnvironment`
unfoldable pub read_custom_ssl : (String → Option String) → Env → Option Settings
read_custom_ssl read_file env =
    ssl_of (read_optional read_file env.ssl_cert_chain_path)
      (read_optional read_file env.ssl_private_key_path)
      (read_optional read_file env.ssl_root_certs_path)

-- `readBasicAuthFromEnvironment`
unfoldable pub read_basic_auth : Env → Settings
read_basic_auth env =
    if truthy env.basic_auth_password && truthy env.basic_auth_username
    then record nothing {
      basic_auth = present (
          some (record {
            username = nullish env.basic_auth_username "";
            password = nullish env.basic_auth_password "";
          }));
    }
    else nothing

abbrev pub cloud_suffix : String
cloud_suffix = ".zeebe.camunda.io"

abbrev pub cloud_host : String → String → String
cloud_host cluster_id region =
    String.◌++◌ cluster_id (String.◌++◌ "." (String.◌++◌ region cloud_suffix))

-- The host name of `readCamundaClusterConfFromEnv`; `none` is the error of `undefined.split`.
abbrev cluster_hostname : Env → Option String
cluster_hostname env =
    if truthy env.camunda_cloud_cluster_id
    then some (cloud_host (nullish env.camunda_cloud_cluster_id "") camunda_cloud_default_region)
    else (elim (zeebe_address env) [ none ↦ none | some a ↦ some (split_head a ":443") ])

abbrev cluster_settings : Env → String → Settings
cluster_settings env hostname =
    if truthy env.client_id
    then record nothing {
      hostname = present (some hostname);
      o_auth = present (
          some (record {
            audience = some hostname;
            scope = none;
            cache_dir = none;
            cache_on_disk = true;
            client_id = env.client_id;
            client_secret = env.client_secret;
            url = or_string env.authorization_server_url (some camunda_cloud_auth_server);
            custom_root_cert = none;
          }));
      port = present (some "443");
      use_tls = present (some true);
    }
    else nothing

-- `readCamundaClusterConfFromEnv`
unfoldable pub read_camunda_cluster : Env → Option String → Option Settings
read_camunda_cluster env gateway =
    if truthy gateway
    then some nothing
    else (elim (cluster_hostname env) [ none ↦ none | some h ↦ some (cluster_settings env h) ])

-- `isCamundaCloudShortcutConfig`
abbrev pub is_shortcut : Env → Bool
is_shortcut env =
    truthy env.camunda_cloud_cluster_id
    || (truthy env.client_id && (truthy env.client_secret && not (truthy env.token_audience)))

-- `readOAuthFromEnvironment`
unfoldable pub read_o_auth : Env → Option String → Option Settings
unfolding read_camunda_cluster
read_o_auth env gateway =
    if is_shortcut env
    then read_camunda_cluster env gateway
    else if truthy env.client_id
        && (truthy env.client_secret
            && (truthy env.token_audience && truthy env.authorization_server_url))
    then some (record nothing {
      o_auth = present (
          some (record {
            audience = env.token_audience;
            scope = env.token_scope;
            cache_dir = none;
            cache_on_disk = true;
            client_id = env.client_id;
            client_secret = env.client_secret;
            url = env.authorization_server_url;
            custom_root_cert = none;
          }));
      use_tls = present (some true);
    })
    else some nothing

-- `justClusterId`, in a template text: a missing id is written out as `undefined`.
unfoldable pub just_cluster_id : Option String → String
just_cluster_id id = if truthy id then split_head (nullish id "") cloud_suffix else "undefined"

-- `getCamundaCloudConfig`
abbrev cloud_settings : Settings → CamundaCloud → Settings
unfolding just_cluster_id
cloud_settings settings cloud =
    let host =
      cloud_host (just_cluster_id cloud.cluster_id)
        (nullish (or_string cloud.cluster_region (some camunda_cloud_default_region)) "") in
    record settings {
      hostname = present (some host);
      o_auth = present (
          some (record {
            audience = some host;
            scope = none;
            cache_dir = cloud.cache_dir;
            cache_on_disk = not (is_false cloud.cache_on_disk);
            client_id = some cloud.client_id;
            client_secret = some cloud.client_secret;
            url = some camunda_cloud_auth_server;
            custom_root_cert = none;
          }));
      port = present (some "443");
      use_tls = present (some true);
    }

unfoldable pub camunda_cloud_config : Options → Settings
unfolding just_cluster_id
camunda_cloud_config options = elim options.camunda_cloud [
  | none ↦ options.settings
  | some cloud ↦ cloud_settings options.settings cloud
]

-- `getEagerStatus`
unfoldable pub eager_status : Env → Options → Settings
eager_status env options = record nothing {
  eager_connection = present (
      some (
        is_word (nullish (or_string env.eager_connect (some "false")) "") "true"
        || is_true (value options.settings.eager_connection)));
}

-- `getTenantId`
unfoldable pub tenant_setting : Env → Options → Settings
tenant_setting env options = record nothing {
  tenant_id = present (nullish_option (value options.settings.tenant_id) env.tenant_id);
}

abbrev parsed : (String → Option ℤ) → Option String → Option ℤ
parsed parse_int none = none
parsed parse_int (some text) = parse_int text

abbrev in_seconds : (ℤ → ℤ) → Option ℤ → Option ℤ → Option ℤ
in_seconds seconds none given = given
in_seconds seconds (some n) given = some (seconds n)

abbrev is_off : Option String → Bool
is_off none = false
is_off (some text) = is_word text "false"

-- `getRetryConfiguration`
unfoldable pub retry_configuration : (String → Option ℤ) → (ℤ → ℤ) → Env → Options → Settings
retry_configuration parse_int seconds env options = record nothing {
  retry = present (some (not (is_off env.client_retry || is_false (value options.settings.retry))));
  max_retries = present (
      in_seconds seconds (parsed parse_int env.client_max_retries)
        (value options.settings.max_retries));
  max_retry_timeout = present (
      in_seconds seconds (parsed parse_int env.client_max_retry_timeout)
        (value options.settings.max_retry_timeout));
}
