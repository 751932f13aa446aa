-- ===== src/Config/Address.antt =====
-- The address of the gateway as one text (src/lib/ConfigurationHydrator.ts). `parse` is the URL parser of
-- Node.js; `none` is an error that it throws.
use Prim.Native.String
use zeebe_client_node_js.Base.{
  Option, some, String, if◌then◌else◌, truthy, or_string, nullish, includes,
}
use zeebe_client_node_js.Variables.{◌>>=◌}
use zeebe_client_node_js.Config.Settings.{Env, present, Settings, nothing, zeebe_address}

pub record Url : Type 0 where
  pub hostname : Option String
  pub port : Option String
  pub path : Option String

abbrev pub default_gateway_port : String
default_gateway_port = "26500"

-- The rest of `decodeConnectionString`, for a text that is not empty.
unfoldable pub decode_address : (String → Option Url) → String → Option Settings
decode_address parse text =
    parse (if includes text "://" then text else String.◌++◌ "zeebe://" text) >>= (λ url.
      some (record nothing {
        hostname = present (or_string url.hostname url.path);
        port = present (or_string url.port (some default_gateway_port));
      }))

-- `decodeConnectionString`
unfoldable pub decode_connection_string :
    (String → Option Url) → Env → Option String → Option Settings
unfolding decode_address
decode_connection_string parse env text =
    let address = if truthy text then text else zeebe_address env in
    if truthy address then decode_address parse (nullish address "") else some nothing

-- `getGatewayFromEnvironment`
unfoldable pub gateway_from_env : (String → Option Url) → Env → Option Settings
unfolding decode_connection_string
gateway_from_env parse env =
    if truthy (zeebe_address env)
    then decode_connection_string parse env (zeebe_address env)
    else some nothing
