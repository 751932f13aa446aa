-- ===== src/Worker/Tests/Board.antt =====
-- Two jobs at the handlers of a worker that is told to close (src/zb/ZBWorker.ts).
use zeebe_client_node_js.Base.{
  ◌+◌, ◌≤◌, ◌≡◌, refl, true, false, none, some, [], ◌∷◌, String, pos, ◌+ℤ◌, ◌-ℤ◌, arith,
}
use zeebe_client_node_js.Worker.State.{waiting}
use zeebe_client_node_js.Worker.Closing.{drain_one, close}
use zeebe_client_node_js.Worker.Actions.{complete, settle, call_action}
use zeebe_client_node_js.Worker.Jobs.{handle_job_response, parse_jobs}
use zeebe_client_node_js.Variables.{parse_variables_and_custom_headers_to_json}
use zeebe_client_node_js.Worker.Tasks.{
  running, Task, Board, handle_jobs, call, answer, respond, start, responds, moves, calls, answers,
  closed, Reach, here, next,
}
use zeebe_client_node_js.Worker.Tasks.Held.{board, held, slots_held, close_waits_for_jobs}
use zeebe_client_node_js.Worker.Tests.{options, worker, job, parse, worker_is_made}

-- The first job is completed, the handler of the second is still running.
abbrev completed : Task String
completed = record {
  job = job;
  stage = running;
  called = some "job.complete";
  unanswered = [];
  released = 1;
}

abbrev one_left : Board String
one_left = record {
  worker = record (worker 1) { closing = true; poll_loop = false; close_state = waiting };
  tasks = completed ∷ start job ∷ [];
  lost = 0;
}

one_left-Reach : Reach parse "{}" (board parse "{}" (worker 0)) one_left
unfolding respond handle_job_response handle_jobs parse_jobs
    parse_variables_and_custom_headers_to_json call answer settle call_action drain_one close ◌+ℤ◌
    ◌-ℤ◌
one_left-Reach =
    next
      (next
        (next (next here (responds (job ∷ job ∷ [])))
          (calls [] (start job ∷ []) (start job) (complete none) refl))
        (answers [] (start job ∷ [])
          (record (start job) { called = some "job.complete"; unanswered = complete none ∷ [] })
          (complete none) [] [] true refl refl))
      (moves closed)

slots_held_example : one_left.worker.active_jobs ≡ pos (held one_left.tasks + one_left.lost)
slots_held_example =
    slots_held parse "{}" options (some "payment") "w" true none worker_is_made one_left-Reach
      (omega arith, (omega arith, tt))

close_waits_for_jobs_example : 1 ≤ held one_left.tasks + one_left.lost
close_waits_for_jobs_example =
    close_waits_for_jobs parse "{}" options (some "payment") "w" true none worker_is_made
      one_left-Reach (omega arith, (omega arith, tt)) refl
