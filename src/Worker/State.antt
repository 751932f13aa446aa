-- ===== src/Worker/State.antt =====
-- The state of a worker and its constructor (src/lib/ZBWorkerBase.ts). The typed durations of the
-- source are numbers of milliseconds here. Logging is left out.
use zeebe_client_node_js.Base.{
  ℕ, ◌*◌, Bool, true, false, Option, none, some, List, String, ℤ, pos, negsuc, leb, nullish,
  or_number, or_string, truthy, is_true, min, if◌then◌else◌, not,
}

-- Where the promise of `close` stands: `waiting` for the active jobs (a listener for
-- `CapacityEvent.Empty`), then for the gRPC client to close (with no active job from the start, or
-- after the last one), then `resolved`.
pub data CloseState : Type 0 where
  not_closing waiting closing_idle closing_drained resolved : CloseState

-- `ZBWorkerOptions` with the client's options: what the worker reads of them.
pub record Options : Type 0 where
  pub tenant_id : Option String
  pub max_jobs_to_activate : Option ℕ
  pub job_batch_min_size : Option ℕ
  pub timeout : Option ℕ
  pub poll_interval : ℕ
  pub long_poll : Option ℕ
  pub debug : Option Bool
  pub fail_process_on_exception : Option Bool
  pub fetch_variable : Option (List String)

pub record Worker : Type 0 where
  pub active_jobs : ℤ
  pub max_jobs_to_activate : ℕ
  pub job_batch_min_size : ℕ
  pub task_type : String
  pub timeout : ℕ
  pub poll_count : ℕ
  pub cancel_workflow_on_exception : Bool
  pub closing : Bool
  pub close_state : CloseState
  pub id : String
  pub long_poll : Option ℕ
  pub debug_mode : Bool
  pub stalled : Bool
  pub connected : Bool
  pub readied : Bool
  pub job_stream : Option ℕ
  pub poll_interval : ℕ
  pub poll_loop : Bool
  pub poll_mutex : Bool
  pub back_pressure_retry_count : ℕ
  pub fetch_variable : Option (List String)
  pub tenant_id : Option String

pub data ConstructorError : Type 0 where
  missing_task_type missing_task_handler : ConstructorError

pub data Constructed : Type 0 where
  made : Worker → Constructed
  threw : ConstructorError → Constructed

abbrev pub default_job_activation_timeout : ℕ
default_job_activation_timeout = 60000

abbrev pub default_max_active_jobs : ℕ
default_max_active_jobs = 32

-- The constructor; `fresh_id` is what `uuid.v4()` returns. The gRPC client's listeners and the
-- poll timer that it registers are the operations of this library's other modules.
unfoldable pub new_worker : Options → Option String → String → Bool → Option String → Constructed
new_worker options task_type fresh_id has_handler id =
    if not (truthy task_type)
    then threw missing_task_type
    else if not has_handler
    then threw missing_task_handler
    else made (record {
      active_jobs = pos 0;
      max_jobs_to_activate = capacity;
      job_batch_min_size = min (nullish options.job_batch_min_size 0) capacity;
      task_type = nullish task_type "";
      timeout = or_number options.timeout default_job_activation_timeout;
      poll_count = 0;
      cancel_workflow_on_exception = nullish options.fail_process_on_exception false;
      closing = false;
      close_state = not_closing;
      id = nullish (or_string id (some fresh_id)) "";
      long_poll = options.long_poll;
      debug_mode = is_true options.debug;
      stalled = false;
      connected = true;
      readied = false;
      job_stream = none;
      poll_interval = options.poll_interval;
      poll_loop = true;
      poll_mutex = false;
      back_pressure_retry_count = 0;
      fetch_variable = options.fetch_variable;
      tenant_id = options.tenant_id;
    })
  where
    capacity : ℕ
    capacity = or_number options.max_jobs_to_activate default_max_active_jobs

-- `activeJobs <= maxJobsToActivate * 0.3`. Exact here: below 2 ^ 50 the rounded product of the
-- source is an integer just when 3 * max is a multiple of 10, and else lies strictly between the
-- same two integers, so the comparison with an integer has the same result.
abbrev leb_tenths : ℤ → ℕ → Bool
leb_tenths (pos n) m = leb (10 * n) (3 * m)
leb_tenths (negsuc n) m = true

unfoldable pub has_capacity : Worker → Bool
has_capacity w = leb_tenths w.active_jobs w.max_jobs_to_activate
