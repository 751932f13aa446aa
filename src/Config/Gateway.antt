-- ===== src/Config/Gateway.antt =====
-- Which gateway a client connects to (src/lib/ConfigurationHydrator.ts).
use zeebe_client_node_js.Base.{
  ◌≢◌, refl, ◌≡◌, ◌∙◌, ap, false, Option, none, some, String, ℤ, nullish, or_string, truthy, arith,
  if◌then◌else◌,
}
use zeebe_client_node_js.Config.Settings.{
  Env, Property, absent, present, CamundaCloud, Settings, Options, zeebe_address,
}
use zeebe_client_node_js.Config.Address.{
  Url, decode_address, decode_connection_string, gateway_from_env,
}
use zeebe_client_node_js.Config.Sources.{
  camunda_cloud_config, cloud_host, just_cluster_id, camunda_cloud_default_region, read_o_auth,
  read_basic_auth, read_custom_ssl,
}
use zeebe_client_node_js.Config.Hydrator.{configure, layers, inherit_root_certs}
use zeebe_client_node_js.Config.Transport.{configure_inv}

-- The host of a cloud cluster that the options name.
abbrev pub host_of : CamundaCloud → String
host_of cloud =
    cloud_host (just_cluster_id cloud.cluster_id)
      (nullish (or_string cloud.cluster_region (some camunda_cloud_default_region)) "")

-- The host and the port that an address gives.
abbrev of_settings : Option Settings → Property String × Property String
of_settings none = (absent, absent)
of_settings (some s) = (s.hostname, s.port)

abbrev of_address : (String → Option Url) → Option String → Property String × Property String
of_address parse none = (absent, absent)
of_address parse (some text) = of_settings (decode_address parse text)

read_basic_auth_host :
    (env : Env) → ((read_basic_auth env).hostname ≡ absent) × ((read_basic_auth env).port ≡ absent)
unfolding read_basic_auth
read_basic_auth_host env = ground arith

read_custom_ssl_host :
    (read_file : String → Option String) (env : Env) {ssl : Settings}
    → read_custom_ssl read_file env ≡ some ssl
    → (ssl.hostname ≡ absent) × (ssl.port ≡ absent)
unfolding read_custom_ssl
read_custom_ssl_host read_file env h = ground arith

read_o_auth_host :
    (env : Env) (gateway : Option String) {auth : Settings}
    → zeebe_address env ≡ none
    → truthy env.camunda_cloud_cluster_id ≡ false
    → read_o_auth env gateway ≡ some auth
    → (auth.hostname ≡ absent) × (auth.port ≡ absent)
unfolding read_o_auth
read_o_auth_host env gateway z k h = ground arith

module _ (parse : String → Option Url) (parse_int : String → Option ℤ) (seconds : ℤ → ℤ)
    (read_file : String → Option String) where
  -- The host and the port of a gateway, by the order of the sources: a Camunda Cloud cluster in the
  -- options, the explicit address, the address in the environment, the defaults.
  abbrev pub by_precedence :
      Option CamundaCloud → Option String → Option String → Property String × Property String
  by_precedence (some cloud) gateway address =
      (present (some (host_of cloud)), present (some "443"))
  by_precedence none gateway address =
      if truthy gateway
      then of_address parse gateway
      else if truthy address
      then of_address parse address
      else (present (some "localhost"), present (some "26500"))

  by_precedence-layers :
      (env : Env) (gateway : Option String) (options : Options)
      (ssl auth from_env from_text : Settings)
      → options.settings.hostname ≡ absent
      → options.settings.port ≡ absent
      → (ssl.hostname ≡ absent) × (ssl.port ≡ absent)
      → gateway_from_env parse env ≡ some from_env
      → decode_connection_string parse env gateway ≡ some from_text
      → (truthy (zeebe_address env) ≡ false → (auth.hostname ≡ absent) × (auth.port ≡ absent))
      → ((layers parse parse_int seconds env options ssl auth from_env from_text).hostname
          ≡ (by_precedence options.camunda_cloud gateway (zeebe_address env)).0)
        × ((layers parse parse_int seconds env options ssl auth from_env from_text).port
            ≡ (by_precedence options.camunda_cloud gateway (zeebe_address env)).1)
  unfolding layers decode_connection_string gateway_from_env camunda_cloud_config
  by_precedence-layers env gateway options ssl auth from_env from_text h p s u v a =
      let k = read_basic_auth_host env in ground arith

  missing_address : (a : Option String) → a ≢ some "" → truthy a ≡ false → a ≡ none
  missing_address none n t = refl
  missing_address (some String.[]) n t = absurd (n refl)
  missing_address (some (String.◌∷◌ c a)) n t = absurd (ground arith)

  -- A configuration for which the options give no host and no port of their own, and the environment no
  -- cluster id and no address that is the empty text, has the gateway that comes first in this order: the
  -- Camunda Cloud cluster of the options (with port 443), the explicit gateway address, the address in the
  -- environment, and localhost with port 26500.
  pub gateway_precedence :
      (env : Env) (gateway : Option String) (options : Options) {s : Settings}
      → options.settings.hostname ≡ absent
      → options.settings.port ≡ absent
      → truthy env.camunda_cloud_cluster_id ≡ false
      → zeebe_address env ≢ some ""
      → configure parse parse_int seconds read_file env gateway options ≡ some s
      → (s.hostname ≡ (by_precedence options.camunda_cloud gateway (zeebe_address env)).0)
        × (s.port ≡ (by_precedence options.camunda_cloud gateway (zeebe_address env)).1)
  unfolding inherit_root_certs
  gateway_precedence env gateway options h p k n c =
      let (ssl, auth, from_env, from_text, es, ea, eu, ev, e) =
        configure_inv parse parse_int seconds read_file env gateway options c in
      let (a, b) =
        by_precedence-layers env gateway options ssl auth from_env from_text h p
          (read_custom_ssl_host read_file env es) eu ev
          (λ t. read_o_auth_host env gateway (missing_address (zeebe_address env) n t) k ea) in
      (ap (λ (x : Settings). x.hostname) e ∙ a, ap (λ (x : Settings). x.port) e ∙ b)
