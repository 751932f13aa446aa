-- ===== src/Config/Hydrator.antt =====
-- `ConfigurationHydrator.configure` (src/lib/ConfigurationHydrator.ts).
use zeebe_client_node_js.Base.{
  Bool, true, false, Option, none, some, String, ℤ, if◌then◌else◌, truthy, ◌&&◌, ◌||◌, not,
}
use zeebe_client_node_js.Variables.{◌>>=◌}
use zeebe_client_node_js.Config.Settings.{
  Env, Property, present, value, OAuthConfig, CustomSsl, Settings, Options, nothing, spread,
}
use zeebe_client_node_js.Config.Address.{
  Url, default_gateway_port, decode_connection_string, gateway_from_env,
}
use zeebe_client_node_js.Config.Sources.{
  read_tls, read_custom_ssl, read_basic_auth, read_o_auth, camunda_cloud_config, eager_status,
  tenant_setting, retry_configuration,
}

abbrev pub defaults : Settings
defaults = record nothing {
  hostname = present (some "localhost");
  port = present (some default_gateway_port);
}

abbrev root_certs_of : Option CustomSsl → Option String
root_certs_of none = none
root_certs_of (some ssl) = ssl.root_certs

-- The OAuth settings with the root certificates of the connection, where it has none of its own.
abbrev inherit : Option OAuthConfig → Option String → Property OAuthConfig → Property OAuthConfig
inherit none certs unchanged = unchanged
inherit (some auth) certs unchanged =
    if not (truthy auth.custom_root_cert) && truthy certs
    then present (some (record auth { custom_root_cert = certs }))
    else unchanged

unfoldable pub inherit_root_certs : Settings → Settings
inherit_root_certs s = record s {
  o_auth = inherit (value s.o_auth) (root_certs_of (value s.custom_ssl)) s.o_auth;
}

module _ (parse : String → Option Url) (parse_int : String → Option ℤ) (seconds : ℤ → ℤ) where
  -- The spreads of `configure`, of the settings that its parts that may throw have given.
  unfoldable pub layers : Env → Options → Settings → Settings → Settings → Settings → Settings
  unfolding camunda_cloud_config read_tls eager_status retry_configuration tenant_setting
  layers env options ssl auth from_env from_text =
      let s₁ = spread (spread (spread (spread defaults ssl) (read_basic_auth env)) auth) from_env in
      let s₂ = spread (spread s₁ from_text) (camunda_cloud_config options) in
      spread
        (spread (spread (spread s₂ (read_tls env options)) (eager_status env options))
          (retry_configuration parse_int seconds env options))
        (tenant_setting env options)

  -- `configure`; `none` is an error that it throws.
  unfoldable pub configure :
      (String → Option String) → Env → Option String → Options → Option Settings
  unfolding inherit_root_certs gateway_from_env decode_connection_string
  configure read_file env gateway options = do
    ssl ← read_custom_ssl read_file env
    auth ← read_o_auth env gateway
    from_env ← gateway_from_env parse env
    from_text ← decode_connection_string parse env gateway
    some (inherit_root_certs (layers env options ssl auth from_env from_text))

-- `useTLS` of a client (src/zb/ZBClient.ts).
abbrev is_some_config : Option OAuthConfig → Bool
is_some_config none = false
is_some_config (some _) = true

abbrev pub is_not_false : Option Bool → Bool
is_not_false (some false) = false
is_not_false _ = true

abbrev pub is_set : Option Bool → Bool
is_set (some true) = true
is_set _ = false

unfoldable pub client_uses_tls : Settings → Bool
client_uses_tls s =
    is_set (value s.use_tls) || (is_some_config (value s.o_auth) && is_not_false (value s.use_tls))
