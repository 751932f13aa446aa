-- ===== src/Worker/Polling.antt =====
-- The poll loop of a worker: `poll`, `activateJobs` and the listeners of a job stream
-- (src/lib/ZBWorkerBase.ts). Each function is a piece of code that runs without interruption:
-- `poll` up to its `await`, `resume_poll` from there, and one function for each listener.
use zeebe_client_node_js.Base.{
  ℕ, ◌+◌, ◌*◌, ◌^◌, Bool, true, false, Option, none, some, List, [], ◌∷◌, String, ℤ, pos, negsuc,
  ◌-ℤ◌, or_number, truthy, if◌then◌else◌, not, ◌||◌, ◌==◌, is_some,
}
use zeebe_client_node_js.Worker.State.{Worker, CloseState, not_closing, has_capacity}

pub record ActivateJobsRequest : Type 0 where
  pub max_jobs_to_activate : ℤ
  pub request_timeout : ℤ
  pub timeout : ℕ
  pub type : String
  pub worker : String
  pub fetch_variable : Option (List String)
  pub tenant_ids : Option (List String)

-- How `activateJobs` leaves off when it is called: with an answer at once, or with a request sent
-- by `grpcClient.activateJobsStream`.
pub data Activation : Type 0 where
  stalled_answer closing_answer : Activation
  requesting : ActivateJobsRequest → Activation

-- `longPoll || -1`
abbrev request_timeout_of : Option ℕ → ℤ
request_timeout_of long_poll = elim (or_number long_poll 0) [
  | ℕ.zero ↦ negsuc 0
  | ℕ.suc n ↦ pos (ℕ.suc n)
]

abbrev tenant_ids_of : Option String → Option (List String)
tenant_ids_of none = none
tenant_ids_of (some t) = if truthy (some t) then some (t ∷ []) else none

abbrev pub request : Worker → ActivateJobsRequest
request w = record {
  max_jobs_to_activate = pos w.max_jobs_to_activate -ℤ w.active_jobs;
  request_timeout = request_timeout_of w.long_poll;
  timeout = w.timeout;
  type = w.task_type;
  worker = w.id;
  fetch_variable = w.fetch_variable;
  tenant_ids = tenant_ids_of w.tenant_id;
}

-- `activateJobs` up to its call of the gRPC client.
abbrev pub activate_jobs : Worker → Activation
activate_jobs w =
    if w.stalled
    then stalled_answer
    else if w.closing
    then closing_answer
    else requesting (request w)

abbrev pub close_called : CloseState → Bool
close_called not_closing = false
close_called _ = true

abbrev pub poll_already_in_progress : Worker → Bool
poll_already_in_progress w = w.poll_mutex || is_some w.job_stream

abbrev pub worker_is_closing : Worker → Bool
worker_is_closing w = close_called w.close_state || w.closing

-- An answer without a stream or an error ends the poll; with a request the poll waits for it.
abbrev after_activation : Worker → Activation → Worker × Option ActivateJobsRequest
after_activation w (requesting r) = (w, some r)
after_activation w _ = (record w { poll_mutex = false }, none)

-- `poll` up to the answer of the gRPC client: the new state, and the request that was sent.
unfoldable pub poll : Worker → Worker × Option ActivateJobsRequest
unfolding has_capacity
poll w =
    if poll_already_in_progress w || worker_is_closing w || not (has_capacity w)
    then (w, none)
    else let w' = record w { poll_mutex = true } in after_activation w' (activate_jobs w')

-- What `await this.grpcClient.activateJobsStream(…)` gives: a rejection, `{ error }`, a stream, or
-- `undefined`, which a gRPC client that is closing answers.
pub data StreamResult : Type 0 where
  rejected : StreamResult
  failed : StreamResult
  opened : ℕ → StreamResult
  unanswered : StreamResult

abbrev count_poll : Worker → Worker
count_poll w = if w.debug_mode then record w { poll_count = w.poll_count + 1 } else w

-- The answer of `activateJobs` to a request that it has sent: `{ error }` or `{ stream }`, or an
-- error that it throws.
pub data Answer : Type 0 where
  error_answer threw : Answer
  stream : ℕ → Answer

-- `activateJobs` from the answer of the gRPC client on. A rejected call is caught before `pollCount`
-- moves; on `undefined` the read of `stream.error` throws.
abbrev pub activate_jobs_resumed : Worker → StreamResult → Worker × Answer
activate_jobs_resumed w rejected = (w, error_answer)
activate_jobs_resumed w failed = (count_poll w, error_answer)
activate_jobs_resumed w (opened id) = (count_poll w, stream id)
activate_jobs_resumed w unanswered = (count_poll w, threw)

-- The rest of `poll`. When `activateJobs` throws, the lock stays.
abbrev poll_answered : Worker → Answer → Worker
poll_answered w error_answer = record w { poll_mutex = false }
poll_answered w (stream id) = record w { job_stream = some id; poll_mutex = false }
poll_answered w threw = w

unfoldable pub resume_poll : Worker → StreamResult → Worker
resume_poll w r = let (w', a) = activate_jobs_resumed w r in poll_answered w' a

-- `handleStreamEnd`. Its argument, the identifier of the stream, is used for logging alone.
unfoldable pub handle_stream_end : ℕ → Worker → Worker
handle_stream_end id w = record w { job_stream = none }

-- The listener for 'end'.
unfoldable pub on_end : ℕ → Worker → Worker
unfolding handle_stream_end
on_end id w = record (handle_stream_end id w) { back_pressure_retry_count = 0 }

-- `GrpcError.RESOURCE_EXHAUSTED` and `GrpcError.INTERNAL`
abbrev pub is_retryable : ℕ → Bool
is_retryable code = code == 8 || code == 13

-- The listener for 'error': the new state, and the delay after which `handle_stream_end` is to run.
unfoldable pub on_error : ℕ → ℕ → Worker → Worker × Option ℕ
unfolding handle_stream_end
on_error id code w =
    if is_retryable code
    then (
      record w { back_pressure_retry_count = w.back_pressure_retry_count + 1 },
      some (1000 * 2 ^ w.back_pressure_retry_count),
    )
    else (handle_stream_end id w, none)
