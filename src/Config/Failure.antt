-- ===== src/Config/Failure.antt =====
-- When the configuration throws (src/lib/ConfigurationHydrator.ts).
use Prim.Native.String
use zeebe_client_node_js.Base.{
  ◌≡◌, true, false, Option, none, some, String, truthy, if◌then◌else◌, includes,
}
use zeebe_client_node_js.Config.Settings.{Env, zeebe_address}
use zeebe_client_node_js.Config.Address.{Url}
use zeebe_client_node_js.Config.Sources.{is_shortcut}

-- The environment asks for the short form of a Camunda Cloud configuration by its client id and
-- secret, and names neither a cluster nor an address.
pub record LacksAddress (env : Env) (gateway : Option String) : Type 0 where
  pub shortcut : is_shortcut env ≡ true
  pub no_gateway : truthy gateway ≡ false
  pub no_cluster : truthy env.camunda_cloud_cluster_id ≡ false
  pub no_address : zeebe_address env ≡ none

-- An address that is not empty and that the URL parser throws for.
abbrev pub Unparsable : (String → Option Url) → Option String → Type 0
Unparsable parse none = ⊥
Unparsable parse (some text) =
    (truthy (some text) ≡ true)
    × (parse (if includes text "://" then text else String.◌++◌ "zeebe://" text) ≡ none)
