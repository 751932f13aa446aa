-- ===== src/Client/Tests/Reach.antt =====
-- A client of a cloud cluster that creates a worker (src/zb/ZBClient.ts).
use zeebe_client_node_js.Base.{
  ℕ, ◌<◌, List, arith, ◌≡◌, ◌⊎◌, refl, true, false, none, some, [], ◌∷◌, String, pos,
  nullish_option,
}
use zeebe_client_node_js.Config.Settings.{value}
use zeebe_client_node_js.Config.Sources.{tls_from_env}
use zeebe_client_node_js.Config.Transport.{tls_by}
use zeebe_client_node_js.Config.Tests.{
  env, cloud_options, parse, parse_int, seconds, read_file, cloud_settings, cloud_settings_made,
}
use zeebe_client_node_js.Connection.LogBuffer.{info_level, debug_level}
use zeebe_client_node_js.Connection.Channel.{new_channel, stream, gives_stream, call_stream}
use zeebe_client_node_js.Connection.Reconnect.{insecure}
use zeebe_client_node_js.Worker.State.{Worker, not_closing, new_worker}
use zeebe_client_node_js.Worker.Polling.{request, poll}
use zeebe_client_node_js.Client.Lifecycle.{
  Client, ClientOptions, new_client, WorkerConfig, created, create_worker,
}
use zeebe_client_node_js.Client.Deploy.{deploy_resource}
use zeebe_client_node_js.Client.Deployments.{process_file, resource_of, request_for}
use zeebe_client_node_js.Client.Connections.{
  Passed, target, gateway_address, ConnectionEnv, client_connection, worker_connection,
}
use zeebe_client_node_js.Client.Connections.Secured.{route, ssl_with, connections_secured}
use zeebe_client_node_js.Client.Connections.LongPoll.{number, after_stream, stream_cut_short}
use zeebe_client_node_js.Connection.Calls.{end_event}
use zeebe_client_node_js.Connection.Calls.Timeouts.{Move, time_is_up, run_stream}
use zeebe_client_node_js.Client.Tenants.{
  Addressed, evaluating, tenant_sent, only, tenant_precedence,
}

abbrev parse_ms : String → ℕ
parse_ms text = 6000

abbrev connection_env : ConnectionEnv
connection_env = record { initial_tolerance = none; keepalive_time_ms = none }

abbrev passed : Passed
passed = record { connection_tolerance = none; long_poll = 30000; log_namespace = none }

connections_secured_example :
    let t = target parse_ms none cloud_settings passed info_level in
    let c = (client_connection parse_ms connection_env t none).0 in
    let w = (worker_connection parse_ms connection_env t (some "payment") (some debug_level)).0 in
    let tls =
      tls_by parse parse_int seconds read_file
        (value cloud_settings.o_auth)
        (nullish_option none (tls_from_env env)) in
    (c.config.host ≡ gateway_address cloud_settings)
    × (route w ≡ route c)
    × (((tls ≡ true) × (c.credentials ≡ ssl_with (value cloud_settings.custom_ssl)))
        ⊎ ((tls ≡ false) × (c.credentials ≡ insecure)))
connections_secured_example =
    connections_secured parse parse_int seconds read_file parse_ms connection_env env none
      cloud_options none passed info_level (some "payment") (some debug_level) cloud_settings_made

abbrev client_options : ClientOptions
client_options = record {
  retry = true;
  max_retries = none;
  max_retry_timeout = none;
  tenant_id = value cloud_settings.tenant_id;
  long_poll = some 30000;
  poll_interval = some 300;
}

-- A worker for a tenant, with a long poll of a minute.
abbrev config : WorkerConfig
config = record {
  id = some "w";
  task_type = some "payment";
  has_handler = true;
  tenant_id = some "red";
  long_poll = some 60000;
  poll_interval = none;
  max_jobs_to_activate = some 10;
  job_batch_min_size = none;
  timeout = none;
  debug = none;
  fail_process_on_exception = none;
  fetch_variable = none;
}

abbrev worker : Worker
worker = record {
  active_jobs = pos 0;
  max_jobs_to_activate = 10;
  job_batch_min_size = 0;
  task_type = "payment";
  timeout = 60000;
  poll_count = 0;
  cancel_workflow_on_exception = false;
  closing = false;
  close_state = not_closing;
  id = "w";
  long_poll = some 60000;
  debug_mode = false;
  stalled = false;
  connected = true;
  readied = false;
  job_stream = none;
  poll_interval = 300;
  poll_loop = true;
  poll_mutex = false;
  back_pressure_retry_count = 0;
  fetch_variable = none;
  tenant_id = some "red";
}

abbrev client : Client
client = new_client client_options none

abbrev client_with_worker : Client
client_with_worker = record client { worker_count = 1; workers = worker ∷ [] }

worker_created : create_worker client "x" config ≡ (client_with_worker, created worker)
unfolding create_worker new_worker new_client
worker_created = refl

-- A stream that is silent until its time is up.
abbrev silent : List (ℕ × Move)
silent = (31005, time_is_up) ∷ []

stream_cut_short_example :
    let (ch, signals, answer) =
      call_stream 5
        (number
          (worker_connection parse_ms connection_env
            (target parse_ms none cloud_settings passed info_level)
            (some "payment")
            none).0.config.long_poll)
        gives_stream
        (new_channel 3000) in
    ((request worker).request_timeout ≡ pos 60000)
    × (answer ≡ stream 31005)
    × (31005 < 60005)
    × ((run_stream "localhost" (record { channel = ch; timeout = some 31005 }) silent).1
        ≡ end_event ∷ [])
    × ((poll worker).1 ≡ some (request worker))
    × ((poll (after_stream 7 worker)).1 ≡ (poll worker).1)
unfolding target new_channel
stream_cut_short_example =
    stream_cut_short parse_ms connection_env client client_with_worker
      (target parse_ms none cloud_settings passed info_level) "x" "localhost" config worker 29999
      59999 5 7 (new_channel 3000) silent worker_created refl refl (omega arith) refl refl

abbrev decision : Addressed String
decision =
    evaluating
      (record { decision_id = some "d"; decision_key = none; variables = "{}"; tenant_id = none })

tenant_precedence_example :
    (tenant_sent (λ s. true) (λ s. s) "{}" "u" client decision ≡ none)
    × ((request worker).tenant_ids ≡ only (some "red"))
    × (deploy_resource
          (λ f. some f)
          client.tenant_id
          (resource_of (some "blue") (process_file "p.bpmn"))
        ≡ request_for "p.bpmn" (some "blue") (some "p.bpmn"))
tenant_precedence_example =
    tenant_precedence parse parse_int seconds read_file (λ (s : String). true) (λ (s : String). s)
      "{}" "u" env none cloud_options client_options none "x" config client_with_worker worker
      decision (λ (f : String). some f) (some "blue") (process_file "p.bpmn") cloud_settings_made
      refl worker_created refl
