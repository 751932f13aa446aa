-- ===== src/Client/Tests.antt =====
-- The client at concrete inputs (src/zb/ZBClient.ts).
mod Promises
mod Reach
mod Results
mod Sending
use Prim.Native.String
use zeebe_client_node_js.Base.{
  ℕ, zero, suc, ◌+◌, ◌<◌, ◌≡◌, refl, Bool, true, false, Option, none, some, List, [], ◌∷◌, String,
  ℤ, pos, arith, All, nullish, includes,
}
use zeebe_client_node_js.Connection.Middleware.{StatusEvent, connection_error, ready, unknown}
use zeebe_client_node_js.Worker.State.{Worker, Options, new_worker, made, not_closing}
use zeebe_client_node_js.Client.Retry.{
  OperationError, Outcome, resolves, rejects, Circumstances, resolved, rejected, retry_budget,
  Within, execute_operation,
}
use zeebe_client_node_js.Client.Attempts.{
  IsTransient, Ends, succeeded, operation_settles, operation_gives_up, notifications,
  retries_never_notify,
}
use zeebe_client_node_js.Client.Status.{initial}
use zeebe_client_node_js.Client.Transitions.{
  client_emits, worker_emits, changes, unset, emits-changes,
}
use zeebe_client_node_js.Client.Lifecycle.{
  Client, ClientOptions, WorkerConfig, Creation, client_is_closing, create_worker,
  create_batch_worker, close,
}
use zeebe_client_node_js.Client.Shutdown.{IsClosable, IsSilent, shutdown}
use zeebe_client_node_js.Client.Requests.{CompleteJobReq}
use zeebe_client_node_js.Client.Modify.{
  VariableInstruction, ActivateInstruction, ModifyProcessInstanceRequest, modify_once,
}
use zeebe_client_node_js.Client.Deploy.{
  Validation, Either, left, right, apply, deploy_resource, ProcessRequestObject, DeployProcess,
  file, files, deploy_process, deploys, not_found,
}
use zeebe_client_node_js.Client.Deployments.{
  Declared, process_file, resource_of, request_for, resource_deployed, files_deployed,
}
use zeebe_client_node_js.Client.Tests.Promises.{promises}

abbrev pub busy : OperationError
busy = record { message = "8 RESOURCE_EXHAUSTED: try later"; code = some 8 }

abbrev found : Outcome ℕ → Circumstances ℕ
found outcome = record {
  closing = false;
  closed_before = false;
  outcome = outcome;
  closed_after = false;
}

-- The gateway refuses twice for load, then answers 42.
abbrev world : ℕ → Circumstances ℕ
world zero = found (rejects busy)
world (suc zero) = found (rejects busy)
world (suc (suc zero)) = found (rejects busy)
world (suc (suc (suc n))) = found (resolves 42)

world-busy : (m : ℕ) → m < 2 → IsTransient (world (suc m)) busy
unfolding includes
world-busy zero l = record {
  open_client = refl;
  open_channel = refl;
  rejected_with = refl;
  transient = refl;
}
world-busy (suc zero) l = record {
  open_client = refl;
  open_channel = refl;
  rejected_with = refl;
  transient = refl;
}
world-busy (suc (suc m)) l = absurd (omega arith)

world_answers : Ends (world 3) (resolved (some 42))
world_answers = succeeded 42 refl refl refl refl

five_retries : Within (retry_budget (pos 5)) 2
unfolding retry_budget
five_retries = omega arith

operation_settles_example :
    execute_operation promises true (pos 5) world ≡ some (resolved (some 42))
operation_settles_example =
    operation_settles promises (pos 5) world (λ n. busy) 2 (resolved (some 42)) world-busy
      world_answers five_retries

-- Two attempts that find the gateway gone.
abbrev offline : Circumstances ℕ
offline = found (rejects (record { message = "14 UNAVAILABLE: no connection"; code = some 14 }))

retries_never_notify_example :
    All (λ notified. notified ≡ false) (notifications (offline ∷ offline ∷ []) (pos 0))
retries_never_notify_example = retries_never_notify (offline ∷ offline ∷ [])

abbrev statuses : List StatusEvent
statuses = connection_error ∷ connection_error ∷ unknown ∷ ready ∷ []

abbrev options : Options
options = record {
  tenant_id = none;
  max_jobs_to_activate = some 10;
  job_batch_min_size = none;
  timeout = none;
  poll_interval = 300;
  long_poll = none;
  debug = none;
  fail_process_on_exception = none;
  fetch_variable = none;
}

abbrev worker : Worker
worker = record {
  active_jobs = pos 0;
  max_jobs_to_activate = 10;
  job_batch_min_size = 0;
  task_type = "payment";
  timeout = 60000;
  poll_count = 0;
  cancel_workflow_on_exception = false;
  closing = false;
  close_state = not_closing;
  id = "w";
  long_poll = none;
  debug_mode = false;
  stalled = false;
  connected = true;
  readied = false;
  job_stream = none;
  poll_interval = 300;
  poll_loop = true;
  poll_mutex = false;
  back_pressure_retry_count = 0;
  fetch_variable = none;
  tenant_id = none;
}

worker_is_made : new_worker options (some "payment") "w" true none ≡ made worker
unfolding new_worker
worker_is_made = refl

emits-changes_example :
    (client_emits initial statuses ≡ connection_error ∷ ready ∷ [])
    × (worker_emits worker statuses ≡ connection_error ∷ ready ∷ [])
emits-changes_example = emits-changes options (some "payment") "w" true none statuses worker_is_made

abbrev client : Client
client = record {
  closing = false;
  close_called = false;
  worker_count = 1;
  workers = worker ∷ [];
  retry = true;
  max_retries = pos 5;
  max_retry_timeout = 5000;
  tenant_id = none;
  long_poll = 30000;
  poll_interval = 300;
  o_auth = none;
}

abbrev parse : String → Option String
parse s = some s

workers-IsClosable : All IsClosable client.workers
workers-IsClosable = ground arith

shutdown_example :
    All (IsSilent parse) (close client).0.workers
    × ((id : String) (config : WorkerConfig)
        → create_worker (close client).0 id config ≡ ((close client).0, client_is_closing))
    × ((T : Type 0) (id : String) (config : WorkerConfig) (max_time : ℕ)
        → create_batch_worker {T = T} (close client).0 id config max_time
          ≡ ((close client).0, client_is_closing))
    × (close (close client).0 ≡ ((close client).0, []))
shutdown_example = shutdown parse client workers-IsClosable refl
