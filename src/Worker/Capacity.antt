-- ===== src/Worker/Capacity.antt =====
-- When a worker asks for jobs, and for how many (src/lib/ZBWorkerBase.ts).
use zeebe_client_node_js.Base.{
  ◌*◌, ◌≤◌, ◌≡◌, true, false, none, some, pos, pos_part, neg_part, ◌+ℤ◌, ◌-ℤ◌, arith, int_laws, ap,
}
use zeebe_client_node_js.Worker.State.{Worker, not_closing}
use zeebe_client_node_js.Worker.Polling.{ActivateJobsRequest, poll, request}

-- The worker is free to ask for jobs: no request is under way, no stream is open, it is not
-- closing, and at most three tenths of its capacity are taken.
pub record IsIdle (w : Worker) : Type 0 where
  pub unlocked : w.poll_mutex ≡ false
  pub no_stream : w.job_stream ≡ none
  pub not_called : w.close_state ≡ not_closing
  pub not_closed : w.closing ≡ false
  pub running : w.stalled ≡ false
  pub capacity : 10 * pos_part w.active_jobs ≤ 3 * w.max_jobs_to_activate

pub poll-IsIdle : (w : Worker) {r : ActivateJobsRequest} → (poll w).1 ≡ some r → IsIdle w
unfolding poll
poll-IsIdle w h = ground arith

pub poll_sends :
    (w : Worker) → IsIdle w → poll w ≡ (record w { poll_mutex = true }, some (request w))
unfolding poll
poll_sends w i = ground arith

pub amount-poll :
    (w : Worker) {r : ActivateJobsRequest}
    → (poll w).1 ≡ some r
    → r.max_jobs_to_activate ≡ pos w.max_jobs_to_activate -ℤ w.active_jobs
unfolding poll
amount-poll w h = ground arith

-- A request asks for exactly the free slots of the worker, and for at least seven tenths of its
-- capacity: free slots and active jobs add up to the capacity.
pub poll_amount :
    (w : Worker) {r : ActivateJobsRequest}
    → (poll w).1 ≡ some r
    → (r.max_jobs_to_activate +ℤ w.active_jobs ≡ pos w.max_jobs_to_activate)
      × (7 * w.max_jobs_to_activate ≤ 10 * pos_part r.max_jobs_to_activate)
poll_amount w {r} h =
    let i = poll-IsIdle w h in
    let e = amount-poll w h in
    let e' = ap pos_part e in
    let e'' = ap neg_part e in (omega (int_laws, i.capacity), omega (int_laws, i.capacity))
