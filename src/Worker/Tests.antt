-- ===== src/Worker/Tests.antt =====
-- The worker at concrete inputs (src/lib/ZBWorkerBase.ts, src/zb/ZBWorker.ts).
mod Board
mod Emitting
use zeebe_client_node_js.Base.{
  ℕ, ◌+◌, ◌*◌, ◌≤◌, ◌≡◌, ◌≢◌, ◌⊎◌, refl, Bool, true, false, Option, none, some, List, [], ◌∷◌,
  String, pos, pos_part, neg_part, ◌+ℤ◌, ◌-ℤ◌, arith, length,
}
use zeebe_client_node_js.Variables.{ActivatedJob}
use zeebe_client_node_js.Worker.State.{
  Worker, Options, new_worker, made, not_closing, waiting, resolved, has_capacity,
}
use zeebe_client_node_js.Worker.Polling.{
  poll, request, resume_poll, opened, on_end, on_error, handle_stream_end,
}
use zeebe_client_node_js.Worker.Closing.{close, resume_close}
use zeebe_client_node_js.Worker.Actions.{Action, complete, fail, forward, cancel_workflow, message}
use zeebe_client_node_js.Worker.Jobs.{ignored, malformed, handed_over, handle_job_response}
use zeebe_client_node_js.Worker.Capacity.{IsIdle}
use zeebe_client_node_js.Worker.Capacity.{poll_amount}
use zeebe_client_node_js.Worker.Flow.{
  abandoned, Flow, quiet, streaming, Reach, here, next, polls, opens, receives, budget,
}
use zeebe_client_node_js.Worker.Flow.Progress.{never_stuck, AllEnding}
use zeebe_client_node_js.Worker.Flow.Invariant.{capacity_respected}
use zeebe_client_node_js.Worker.Draining.{drains, close_completes}
use zeebe_client_node_js.Worker.Accounting.{settle_all, active-settle_all}
use zeebe_client_node_js.Worker.Backoff.{delays, back_pressure_delays, stale_timer_reopens}
use zeebe_client_node_js.Worker.Responses.{AllParsed, handle_job_response_lem}

abbrev pub options : Options
options = record {
  tenant_id = none;
  max_jobs_to_activate = some 10;
  job_batch_min_size = none;
  timeout = none;
  poll_interval = 300;
  long_poll = some 30000;
  debug = none;
  fail_process_on_exception = none;
  fetch_variable = none;
}

-- A worker for ten jobs, as the constructor makes it, with a number of active jobs.
abbrev pub worker : ℕ → Worker
worker n = record {
  active_jobs = pos n;
  max_jobs_to_activate = 10;
  job_batch_min_size = 0;
  task_type = "payment";
  timeout = 60000;
  poll_count = 0;
  cancel_workflow_on_exception = false;
  closing = false;
  close_state = not_closing;
  id = "w";
  long_poll = some 30000;
  debug_mode = false;
  stalled = false;
  connected = true;
  readied = false;
  job_stream = none;
  poll_interval = 300;
  poll_loop = true;
  poll_mutex = false;
  back_pressure_retry_count = 0;
  fetch_variable = none;
  tenant_id = none;
}

abbrev pub job : ActivatedJob String
job = record {
  key = "1";
  type = "payment";
  process_instance_key = "2";
  bpmn_process_id = "order";
  process_definition_version = 1;
  process_definition_key = "3";
  element_id = "task";
  element_instance_key = "4";
  custom_headers = "{}";
  worker = "w";
  retries = pos 3;
  deadline = "0";
  variables = "{}";
  tenant_id = "";
}

-- A parser that takes each text for the document.
abbrev pub parse : String → Option String
parse s = some s

pub worker_is_made : new_worker options (some "payment") "w" true none ≡ made (worker 0)
unfolding new_worker
worker_is_made = refl

-- A poll, an opened stream, and a response with one job.
abbrev after_one_job : Flow
after_one_job = record { worker = record (worker 1) { job_stream = some 7 }; phase = streaming 7 9 }

one_job_arrives : Reach parse (record { worker = worker 0; phase = quiet }) after_one_job
unfolding poll resume_poll handle_job_response ◌-ℤ◌ ◌+ℤ◌
one_job_arrives =
    next (next (next here (polls (request (worker 0)) refl refl)) (opens 10 7 refl refl))
      (receives 10 7 (job ∷ []) refl (omega arith) refl)

capacity_respected_example :
    (pos_part after_one_job.worker.active_jobs + budget after_one_job.phase
      ≤ after_one_job.worker.max_jobs_to_activate)
    × ((after_one_job.phase ≡ quiet) ⊎ ((poll after_one_job.worker).1 ≡ none))
capacity_respected_example =
    capacity_respected parse options (some "payment") "w" true none worker_is_made one_job_arrives

not_abandoned : after_one_job.phase ≢ abandoned
not_abandoned e = ground arith

never_stuck_example :
    (h : Flow) × (run : Reach parse after_one_job h) × AllEnding parse run
    × ((poll h.worker).1 ≡ some (request h.worker))
    × ((request h.worker).max_jobs_to_activate ≡ pos h.worker.max_jobs_to_activate)
never_stuck_example =
    never_stuck parse options (some "payment") "w" true none worker_is_made one_job_arrives
      (refl, refl) not_abandoned

one_asks : (poll (worker 1)).1 ≡ some (request (worker 1))
unfolding poll
one_asks = refl

poll_amount_example :
    ((request (worker 1)).max_jobs_to_activate +ℤ (worker 1).active_jobs
      ≡ pos (worker 1).max_jobs_to_activate)
    × (7 * (worker 1).max_jobs_to_activate
        ≤ 10 * pos_part (request (worker 1)).max_jobs_to_activate)
poll_amount_example = poll_amount (worker 1) one_asks

close_completes_example :
    ((2 ≤ 1) ⊎ ((drains 1 (close (worker 2)).0).close_state ≡ waiting))
    × ((resume_close (drains 2 (close (worker 2)).0)).0.close_state ≡ resolved)
close_completes_example = close_completes 2 1 (worker 2) refl refl

abbrev settled : List (Action String × Bool)
settled = (complete none, true) ∷ (cancel_workflow, true) ∷ (fail (message "no") none, false) ∷ []

has_capacity_one : has_capacity (worker 1) ≡ true
unfolding has_capacity
has_capacity_one = refl

stale_timer_reopens_example :
    ((resume_poll (poll (on_end 5 (on_error 5 8 (worker 1)).0)).0 (opened 6)).job_stream ≡ some 6)
    × ((poll (resume_poll (poll (on_end 5 (on_error 5 8 (worker 1)).0)).0 (opened 6))).1 ≡ none)
    × ((poll (
          handle_stream_end 5
            (resume_poll (poll (on_end 5 (on_error 5 8 (worker 1)).0)).0 (opened 6)))).1
        ≢ none)
stale_timer_reopens_example =
    stale_timer_reopens (worker 1) 5 6 8 refl refl refl refl refl has_capacity_one
