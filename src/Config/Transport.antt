-- ===== src/Config/Transport.antt =====
-- When a configured client uses TLS (src/lib/ConfigurationHydrator.ts, src/zb/ZBClient.ts).
use zeebe_client_node_js.Base.{
  ◌≡◌, refl, sym, ◌∙◌, ap, Bool, true, false, Option, none, some, String, ℤ, nullish_option, arith,
  ◌||◌, ◌&&◌, Option-cases, inl, inr,
}
use mathlib.Core.Option.{some-injective}
use zeebe_client_node_js.Config.Settings.{Env, present, value, OAuthConfig, Settings, Options}
use zeebe_client_node_js.Config.Address.{Url, decode_connection_string, gateway_from_env}
use zeebe_client_node_js.Config.Sources.{tls_from_env, read_custom_ssl, read_o_auth}
use zeebe_client_node_js.Config.Hydrator.{
  configure, layers, inherit_root_certs, client_uses_tls, is_not_false, is_set,
}

module _ (parse : String → Option Url) (parse_int : String → Option ℤ) (seconds : ℤ → ℤ)
    (read_file : String → Option String) where
  -- A configuration that was made, by its parts that might have thrown.
  pub configure_inv :
      (env : Env) (gateway : Option String) (options : Options) {s : Settings}
      → configure parse parse_int seconds read_file env gateway options ≡ some s
      → (ssl : Settings) × (auth : Settings) × (from_env : Settings) × (from_text : Settings)
        × (read_custom_ssl read_file env ≡ some ssl)
        × (read_o_auth env gateway ≡ some auth)
        × (gateway_from_env parse env ≡ some from_env)
        × (decode_connection_string parse env gateway ≡ some from_text)
        × (s
            ≡ inherit_root_certs
                (layers parse parse_int seconds env options ssl auth from_env from_text))
  unfolding configure
  configure_inv env gateway options h = elim (Option-cases (read_custom_ssl read_file env)) [
    | inl e ↦ absurd (ground arith)
    | inr (ssl, e) ↦ elim (Option-cases (read_o_auth env gateway)) [
      | inl d ↦ absurd (ground arith)
      | inr (auth, d) ↦ elim (Option-cases (gateway_from_env parse env)) [
        | inl k ↦ absurd (ground arith)
        | inr (from_env, k) ↦ elim (Option-cases (decode_connection_string parse env gateway)) [
          | inl l ↦ absurd (ground arith)
          | inr (from_text, l) ↦
              let same = some-injective _ _ (sym h ∙ made ssl auth from_env from_text e d k l) in
              (ssl, auth, from_env, from_text, e, d, k, l, same)
        ]
      ]
    ]
  ]
    where
      made :
          (ssl auth from_env from_text : Settings)
          → read_custom_ssl read_file env ≡ some ssl
          → read_o_auth env gateway ≡ some auth
          → gateway_from_env parse env ≡ some from_env
          → decode_connection_string parse env gateway ≡ some from_text
          → configure parse parse_int seconds read_file env gateway options
            ≡ some (
                inherit_root_certs
                  (layers parse parse_int seconds env options ssl auth from_env from_text))
      made ssl auth from_env from_text e d k l = rw (e, d, k, l)

  layers-use_tls :
      (env : Env) (options : Options) (ssl auth from_env from_text : Settings)
      → (layers parse parse_int seconds env options ssl auth from_env from_text).use_tls
        ≡ present (nullish_option (value options.settings.use_tls) (tls_from_env env))
  unfolding layers
  layers-use_tls env options ssl auth from_env from_text = refl

  use_tls-configure :
      (env : Env) (gateway : Option String) (options : Options) {s : Settings}
      → configure parse parse_int seconds read_file env gateway options ≡ some s
      → s.use_tls ≡ present (nullish_option (value options.settings.use_tls) (tls_from_env env))
  unfolding inherit_root_certs
  use_tls-configure env gateway options h =
      let (ssl, auth, from_env, from_text, _, _, _, _, e) = configure_inv env gateway options h in
      ap (λ (c : Settings). c.use_tls) e ∙ layers-use_tls env options ssl auth from_env from_text

  -- With OAuth settings.
  tls_with_o_auth :
      (env : Env) (gateway : Option String) (options : Options) {s : Settings} {auth : OAuthConfig}
      → configure parse parse_int seconds read_file env gateway options ≡ some s
      → value s.o_auth ≡ some auth
      → client_uses_tls s
        ≡ is_not_false (nullish_option (value options.settings.use_tls) (tls_from_env env))
  unfolding client_uses_tls
  tls_with_o_auth env gateway options h a =
      let e = use_tls-configure env gateway options h in
      rw (e, a) (tls_cases (nullish_option (value options.settings.use_tls) (tls_from_env env)))
    where
      tls_cases : (t : Option Bool) → (is_set t || (true && is_not_false t)) ≡ is_not_false t
      tls_cases none = refl
      tls_cases (some true) = refl
      tls_cases (some false) = refl

  -- Without OAuth settings.
  tls_without_o_auth :
      (env : Env) (gateway : Option String) (options : Options) {s : Settings}
      → configure parse parse_int seconds read_file env gateway options ≡ some s
      → value s.o_auth ≡ none
      → client_uses_tls s
        ≡ is_set (nullish_option (value options.settings.use_tls) (tls_from_env env))
  unfolding client_uses_tls
  tls_without_o_auth env gateway options h a =
      let e = use_tls-configure env gateway options h in
      rw (e, a) (tls_cases (nullish_option (value options.settings.use_tls) (tls_from_env env)))
    where
      tls_cases : (t : Option Bool) → (is_set t || false) ≡ is_set t
      tls_cases none = refl
      tls_cases (some true) = refl
      tls_cases (some false) = refl

  -- Whether TLS is used, by the OAuth settings and the first value that is given for it.
  abbrev pub tls_by : Option OAuthConfig → Option Bool → Bool
  tls_by none t = is_set t
  tls_by (some auth) t = is_not_false t

  -- A client that ends up with OAuth settings, from whichever source, uses TLS unless it is turned
  -- off: by the option `useTLS: false`, or, without that option, by ZEEBE_SECURE_CONNECTION=false. A
  -- client without them uses TLS only when it is turned on, by the option or, without the option, by the
  -- environment; no other source of the configuration can turn it on.
  pub uses_tls :
      (env : Env) (gateway : Option String) (options : Options) {s : Settings}
      → configure parse parse_int seconds read_file env gateway options ≡ some s
      → client_uses_tls s
        ≡ tls_by
            (value s.o_auth)
            (nullish_option (value options.settings.use_tls) (tls_from_env env))
  uses_tls env gateway options {s} h = elim (Option-cases (value s.o_auth)) [
    | inl e ↦ rw e (tls_without_o_auth env gateway options h e)
    | inr (auth, e) ↦ rw e (tls_with_o_auth env gateway options h e)
  ]
