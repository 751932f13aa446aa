-- ===== src/Worker/Flow.antt =====
-- A worker together with its gateway and its handlers, as steps. The gateway sends no more jobs on
-- a stream than the request asked for, and each stream ends once, by 'end' or by 'error'.
pub mod Invariant
pub mod Progress
use Prim.Native.Nat.{◌-◌}
use zeebe_client_node_js.Base.{
  ℕ, ◌+◌, ◌≤◌, ◌≡◌, Bool, true, false, Option, none, some, List, String, length, pos_part, neg_part,
}
use zeebe_client_node_js.Variables.{ActivatedJob}
use zeebe_client_node_js.Worker.State.{Worker, CloseState, closing_idle}
use zeebe_client_node_js.Worker.Polling.{
  ActivateJobsRequest, poll, rejected, failed, opened, unanswered, resume_poll, on_end, on_error,
  handle_stream_end, is_retryable,
}
use zeebe_client_node_js.Worker.Closing.{drain_one, close, resume_close}
use zeebe_client_node_js.Worker.Jobs.{handle_job_response}

-- The request or the stream of a worker: none, a request for `n` jobs, a stream on which `n` jobs
-- may still come, a stream that ended by an error and is kept until a timer fires, or a request that
-- was answered by `undefined`, after which the lock of the poll loop stays.
pub data Phase : Type 0 where
  quiet : Phase
  asked : ℕ → Phase
  streaming : ℕ → ℕ → Phase
  backing_off : ℕ → Phase
  abandoned : Phase

pub record Flow : Type 0 where
  pub worker : Worker
  pub phase : Phase

-- `resume_close` cancels the stream of a worker that had no active job.
abbrev stream_cancelled : Phase → Phase
stream_cancelled (asked n) = asked n
stream_cancelled abandoned = abandoned
stream_cancelled _ = quiet

abbrev pub phase_closed : CloseState → Phase → Phase
phase_closed closing_idle p = stream_cancelled p
phase_closed _ p = p

abbrev pub phase_failed : Bool → ℕ → Phase
phase_failed true id = backing_off id
phase_failed false id = quiet

module _ {J : Type 0} (parse : String → Option J) where
  pub data Step (f g : Flow) : Type 0 where
    polls :
        (r : ActivateJobsRequest)
        → (poll f.worker).1 ≡ some r
        → g ≡ record { worker = (poll f.worker).0; phase = asked (pos_part r.max_jobs_to_activate) }
        → Step f g
    polls_in_vain :
        (poll f.worker).1 ≡ none → g ≡ record f { worker = (poll f.worker).0 } → Step f g
    is_refused :
        (n : ℕ)
        → f.phase ≡ asked n
        → g ≡ record { worker = resume_poll f.worker rejected; phase = quiet }
        → Step f g
    is_failed :
        (n : ℕ)
        → f.phase ≡ asked n
        → g ≡ record { worker = resume_poll f.worker failed; phase = quiet }
        → Step f g
    is_unanswered :
        (n : ℕ)
        → f.phase ≡ asked n
        → g ≡ record { worker = resume_poll f.worker unanswered; phase = abandoned }
        → Step f g
    opens :
        (n id : ℕ)
        → f.phase ≡ asked n
        → g ≡ record { worker = resume_poll f.worker (opened id); phase = streaming id n }
        → Step f g
    receives :
        (n id : ℕ) (jobs : List (ActivatedJob String))
        → f.phase ≡ streaming id n
        → length jobs ≤ n
        → g ≡ record {
          worker = (handle_job_response parse f.worker jobs).0;
          phase = streaming id (n - length jobs);
        }
        → Step f g
    ends :
        (n id : ℕ)
        → f.phase ≡ streaming id n
        → g ≡ record { worker = on_end id f.worker; phase = quiet }
        → Step f g
    fails :
        (n id code : ℕ)
        → f.phase ≡ streaming id n
        → g ≡ record {
          worker = (on_error id code f.worker).0;
          phase = phase_failed (is_retryable code) id;
        }
        → Step f g
    timer_fires :
        (id : ℕ)
        → f.phase ≡ backing_off id
        → g ≡ record { worker = handle_stream_end id f.worker; phase = quiet }
        → Step f g
    finishes_job :
        1 ≤ pos_part f.worker.active_jobs
        → g ≡ record f { worker = (drain_one f.worker).0 }
        → Step f g
    closes : g ≡ record f { worker = (close f.worker).0 } → Step f g
    channel_closes :
        g ≡ record {
          worker = (resume_close f.worker).0;
          phase = phase_closed f.worker.close_state f.phase;
        }
        → Step f g

  pub data Reach (f : Flow) : Flow → Type 0 where
    here : Reach f f
    next : {g h : Flow} → Reach f g → Step g h → Reach f h

-- How the worker's lock and stream reference stand in each phase.
abbrev pub Tracks : Worker → Phase → Type 0
Tracks w quiet = (w.poll_mutex ≡ false) × (w.job_stream ≡ none)
Tracks w (asked n) = (w.poll_mutex ≡ true) × (w.job_stream ≡ none)
Tracks w abandoned = (w.poll_mutex ≡ true) × (w.job_stream ≡ none)
Tracks w (streaming id n) = (w.poll_mutex ≡ false) × (w.job_stream ≡ some id)
Tracks w (backing_off id) = (w.poll_mutex ≡ false) × (w.job_stream ≡ some id)

-- The jobs that may still come.
abbrev pub budget : Phase → ℕ
budget (asked n) = n
budget (streaming id n) = n
budget _ = 0

pub record Inv (f : Flow) : Type 0 where
  pub tracks : Tracks f.worker f.phase
  pub running : f.worker.stalled ≡ false
  pub nonneg : neg_part f.worker.active_jobs ≡ 0
  pub bounded : pos_part f.worker.active_jobs + budget f.phase ≤ f.worker.max_jobs_to_activate
