-- ===== src/Worker/Jobs.antt =====
-- Jobs that arrive at a worker, and a handler that throws: `handleJobResponse` of
-- src/lib/ZBWorkerBase.ts and `handleJob` of src/zb/ZBWorker.ts.
use Prim.Native.String
use zeebe_client_node_js.Base.{
  Option, none, some, List, [], ◌∷◌, String, pos, ◌+ℤ◌, ◌-ℤ◌, if◌then◌else◌, length,
}
use zeebe_client_node_js.Variables.{ActivatedJob, ◌>>=◌, parse_variables_and_custom_headers_to_json}
use zeebe_client_node_js.Worker.State.{Worker}
use zeebe_client_node_js.Worker.Closing.{Effect, drain_one}
use zeebe_client_node_js.Worker.Actions.{Command, fail_job, cancel_process_instance}

-- What `handleJobResponse` does with the jobs of a response: drop them, throw on a text that is not
-- JSON, or hand them to `handleJobs`.
pub data Delivery (J : Type 0) : Type 0 where
  ignored : Delivery J
  malformed : Delivery J
  handed_over : List (ActivatedJob J) → Delivery J

module _ {J : Type 0} (parse : String → Option J) where
  -- `res.jobs.map(parseVariablesAndCustomHeadersToJSON)`
  unfoldable pub parse_jobs : List (ActivatedJob String) → Option (List (ActivatedJob J))
  parse_jobs [] = some []
  parse_jobs (job ∷ jobs) = do
    parsed ← parse_variables_and_custom_headers_to_json parse job
    rest ← parse_jobs jobs
    some (parsed ∷ rest)

  abbrev delivery_of : Option (List (ActivatedJob J)) → Delivery J
  delivery_of none = malformed
  delivery_of (some jobs) = handed_over jobs

  unfoldable pub handle_job_response : Worker → List (ActivatedJob String) → Worker × Delivery J
  handle_job_response w jobs = if w.closing then (w, ignored) else (
    record w { active_jobs = w.active_jobs +ℤ pos (length jobs) },
    delivery_of (parse_jobs jobs),
  )

abbrev pub exception_text : String → String
exception_text e = String.◌++◌ "Unhandled exception in task handler " e

-- The `catch` clause of `handleJob`: the command that it sends, and the state after `drainOne`. A
-- cancellation is awaited first, and `finally` drains whether or not it succeeds; `failJob` is not
-- awaited.
unfoldable pub handle_exception :
    {J : Type 0} → Worker → ActivatedJob J → String → Command J × Worker × List Effect
handle_exception w job e =
    let (w', effects) = drain_one w in
    (
      if w.cancel_workflow_on_exception
          then cancel_process_instance job.process_instance_key
          else fail_job (exception_text e) job.key (job.retries -ℤ pos 1) 0,
      w',
      effects,
    )
