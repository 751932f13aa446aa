-- ===== src/Client/Tenants.antt =====
-- For which tenant a client and its workers act (src/zb/ZBClient.ts, src/lib/ZBWorkerBase.ts,
-- src/lib/ConfigurationHydrator.ts).
use zeebe_client_node_js.Base.{
  Bool, ◌≡◌, refl, ap, ◌∙◌, Option, none, some, List, [], ◌∷◌, String, ℤ, nullish_option, truthy,
  if◌then◌else◌, arith, true,
}
use zeebe_client_node_js.Config.Settings.{Env, value, present, Settings, Options}
use zeebe_client_node_js.Config.Address.{Url}
use zeebe_client_node_js.Config.Hydrator.{configure, layers, inherit_root_certs}
use zeebe_client_node_js.Config.Transport.{configure_inv}
use zeebe_client_node_js.OAuth.Provider.{Provider}
use zeebe_client_node_js.Worker.State.{Worker, new_worker}
use zeebe_client_node_js.Worker.Polling.{request}
use zeebe_client_node_js.Client.Lifecycle.{
  Client, ClientOptions, new_client, WorkerConfig, created, create_worker,
}
use zeebe_client_node_js.Client.Connections.LongPoll.{create_worker_inv}
use zeebe_client_node_js.Client.Requests.{
  CreateProcessInstanceReq, CreateProcessInstanceWithResultReq, MessageReq, DecisionReq,
  create_process_instance, create_process_instance_with_result, publish_message,
  publish_start_message, evaluate_decision,
}
use zeebe_client_node_js.Client.Deploy.{deploy_resource}
use zeebe_client_node_js.Client.Deployments.{
  Declared, name_of, content_of, resource_of, request_for, resource_deployed,
}

-- The requests that name a tenant, each as its caller gives it.
pub data Addressed (J : Type 0) : Type 0 where
  creating : CreateProcessInstanceReq J → Addressed J
  creating_with_result : CreateProcessInstanceWithResultReq J → Addressed J
  publishing : MessageReq String (Option J) → Addressed J
  publishing_start : MessageReq (Option String) (Option J) → Addressed J
  evaluating : DecisionReq J → Addressed J

abbrev pub tenant_given : {J : Type 0} → Addressed J → Option String
tenant_given (creating r) = r.tenant_id
tenant_given (creating_with_result r) = r.tenant_id
tenant_given (publishing r) = r.tenant_id
tenant_given (publishing_start r) = r.tenant_id
tenant_given (evaluating r) = r.tenant_id

-- The tenants that a worker's request names.
abbrev pub only : Option String → Option (List String)
only none = none
only (some t) = if truthy (some t) then some (t ∷ []) else none

abbrev pub first_of : Option String → Option String → Option String → Option String
first_of (some t) option env = some t
first_of none (some t) env = some t
first_of none none env = env

module _ {J : Type 0} (is_truthy : J → Bool) (stringify : J → String) (empty : J) (uuid : String)
    (c : Client) where
  -- The tenant that is sent for it.
  abbrev pub tenant_sent : Addressed J → Option String
  tenant_sent (creating r) =
      (create_process_instance is_truthy stringify empty c.tenant_id r).tenant_id
  tenant_sent (creating_with_result r) =
      (create_process_instance_with_result is_truthy stringify empty c.tenant_id
        r).request.tenant_id
  tenant_sent (publishing r) = (publish_message is_truthy stringify empty c.tenant_id r).tenant_id
  tenant_sent (publishing_start r) =
      (publish_start_message is_truthy stringify empty c.tenant_id uuid r).tenant_id
  tenant_sent (evaluating r) = (evaluate_decision is_truthy stringify empty c.tenant_id r).tenant_id

  twice : (a b : Option String) → nullish_option (nullish_option a b) b ≡ nullish_option a b
  twice a b = ground arith

  tenant_sent-given :
      (r : Addressed J) → tenant_sent r ≡ nullish_option (tenant_given r) c.tenant_id
  unfolding create_process_instance create_process_instance_with_result publish_message
      publish_start_message evaluate_decision
  tenant_sent-given (creating r) = refl
  tenant_sent-given (creating_with_result r) = twice r.tenant_id c.tenant_id
  tenant_sent-given (publishing r) = refl
  tenant_sent-given (publishing_start r) = refl
  tenant_sent-given (evaluating r) = refl

worker-tenants :
    (c c' : Client) (fresh_id : String) (config : WorkerConfig) (w : Worker)
    → create_worker c fresh_id config ≡ (c', created w)
    → (request w).tenant_ids ≡ only (nullish_option config.tenant_id c.tenant_id)
unfolding new_worker
worker-tenants c c' fresh_id config w h =
    let e = create_worker_inv c c' fresh_id config w h in ground arith

tenant_by :
    (given option env : Option String)
    → nullish_option given (nullish_option option env) ≡ first_of given option env
tenant_by given option env = ground arith

module _ (parse : String → Option Url) (parse_int : String → Option ℤ) (seconds : ℤ → ℤ)
    (read_file : String → Option String) where
  layers-tenant_id :
      (env : Env) (options : Options) (ssl auth from_env from_text : Settings)
      → (layers parse parse_int seconds env options ssl auth from_env from_text).tenant_id
        ≡ present (nullish_option (value options.settings.tenant_id) env.tenant_id)
  unfolding layers
  layers-tenant_id env options ssl auth from_env from_text = refl

  tenant_id-configure :
      (env : Env) (gateway : Option String) (options : Options) {s : Settings}
      → configure parse parse_int seconds read_file env gateway options ≡ some s
      → value s.tenant_id ≡ nullish_option (value options.settings.tenant_id) env.tenant_id
  unfolding inherit_root_certs
  tenant_id-configure env gateway options h =
      let (ssl, auth, from_env, from_text, _, _, _, _, e) =
        configure_inv parse parse_int seconds read_file env gateway options h in
      ap (λ (s : Settings). value s.tenant_id) e
      ∙ ap value (layers-tenant_id env options ssl auth from_env from_text)

  new_client-tenant_id :
      (o : ClientOptions) (provider : Option Provider)
      → (new_client o provider).tenant_id ≡ o.tenant_id
  unfolding new_client
  new_client-tenant_id o provider = refl

  -- A client that was configured sends the request of each call of createProcessInstance,
  -- createProcessInstanceWithResult, publishMessage, publishStartMessage and evaluateDecision for the
  -- tenant that the call names, else for that of its options, else for that of the environment. A worker that it creates asks for
  -- jobs of the one tenant found in the same way, from the worker's configuration on, and names
  -- no tenant if there is none or an empty one. `deployResource`, for a declared argument whose
  -- name is not empty, deploys for the tenant found in the same way, from the argument on.
  pub tenant_precedence :
      {J B : Type 0} (is_truthy : J → Bool) (stringify : J → String) (empty : J) (uuid : String)
      (env : Env) (gateway : Option String) (options : Options) (o : ClientOptions)
      (provider : Option Provider) (fresh_id : String) (config : WorkerConfig) (c' : Client)
      (w : Worker) (r : Addressed J) (read : String → Option B) (tenant : Option String)
      (d : Declared B) {s : Settings}
      → configure parse parse_int seconds read_file env gateway options ≡ some s
      → o.tenant_id ≡ value s.tenant_id
      → create_worker (new_client o provider) fresh_id config ≡ (c', created w)
      → truthy (some (name_of d)) ≡ true
      → (tenant_sent is_truthy stringify empty uuid (new_client o provider) r
          ≡ first_of (tenant_given r) (value options.settings.tenant_id) env.tenant_id)
        × ((request w).tenant_ids
            ≡ only (first_of config.tenant_id (value options.settings.tenant_id) env.tenant_id))
        × (deploy_resource read (new_client o provider).tenant_id (resource_of tenant d)
            ≡ request_for
                (name_of d)
                (first_of tenant (value options.settings.tenant_id) env.tenant_id)
                (content_of read d))
  tenant_precedence is_truthy stringify empty uuid env gateway options o provider fresh_id config c'
        w r read tenant d h e m n =
      let k = new_client-tenant_id o provider ∙ e ∙ tenant_id-configure env gateway options h in
      let by : (given : Option String)
          → nullish_option given (new_client o provider).tenant_id
            ≡ first_of given (value options.settings.tenant_id) env.tenant_id =
        λ given. ap (nullish_option given) k ∙ tenant_by given _ _ in
      (
        tenant_sent-given is_truthy stringify empty uuid (new_client o provider) r
            ∙ by (tenant_given r),
        worker-tenants (new_client o provider) c' fresh_id config w m
            ∙ ap only (by config.tenant_id),
        resource_deployed read (new_client o provider).tenant_id tenant d n
            ∙ ap (λ t. request_for (name_of d) t (content_of read d)) (by tenant),
      )
