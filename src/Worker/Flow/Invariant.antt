-- ===== src/Worker/Flow/Invariant.antt =====
-- What holds of a worker between any two steps of its life.
use zeebe_client_node_js.Base.{
  ◌⊎◌, inl, inr, ℕ, ◌+◌, ◌-◌, ◌≤◌, ◌≡◌, refl, Bool, Option, none, some, List, String, ℤ, pos,
  length, arith, pos_part, neg_part, ◌+ℤ◌, ◌-ℤ◌, subst,
}
use zeebe_client_node_js.Variables.{ActivatedJob}
use zeebe_client_node_js.Worker.State.{Worker, Options, made, new_worker}
use zeebe_client_node_js.Worker.Polling.{
  ActivateJobsRequest, poll, resume_poll, on_end, on_error, handle_stream_end, is_retryable,
}
use zeebe_client_node_js.Worker.Closing.{drain_one, close, resume_close}
use zeebe_client_node_js.Worker.Jobs.{handle_job_response}
use zeebe_client_node_js.Worker.Capacity.{poll-IsIdle, poll_sends, amount-poll}
use zeebe_client_node_js.Worker.Flow.{
  Phase, quiet, asked, streaming, backing_off, abandoned, Flow, budget, Inv, Step, Reach, here,
  next, polls, polls_in_vain, is_refused, is_failed, is_unanswered, opens, receives, ends, fails,
  timer_fires, finishes_job, closes, channel_closes, phase_closed, phase_failed,
}

free_slots :
    (m : ℕ) (a : ℤ) → neg_part a ≡ 0 → pos_part a ≤ m → pos_part (pos m -ℤ a) + pos_part a ≡ m
unfolding ◌-ℤ◌
free_slots m a h l = ground arith

poll-Inv :
    (w : Worker) (p : Phase) (r : ActivateJobsRequest)
    → Inv (record { worker = w; phase = p })
    → (poll w).1 ≡ some r
    → Inv (record { worker = (poll w).0; phase = asked (pos_part r.max_jobs_to_activate) })
poll-Inv w p r i h =
    let idle = poll-IsIdle w h in
    let amount =
      free_slots w.max_jobs_to_activate w.active_jobs i.nonneg (omega (arith, idle.capacity)) in
    rw (poll_sends w idle, amount-poll w h)
      (record {
        tracks = (refl, idle.no_stream);
        running = i.running;
        nonneg = i.nonneg;
        bounded = omega (arith, amount);
      })

poll_in_vain-Inv :
    (w : Worker) (p : Phase)
    → Inv (record { worker = w; phase = p })
    → (poll w).1 ≡ none
    → Inv (record { worker = (poll w).0; phase = p })
unfolding poll
poll_in_vain-Inv w quiet i h = ground arith
poll_in_vain-Inv w (asked n) i h = ground arith
poll_in_vain-Inv w (streaming id n) i h = ground arith
poll_in_vain-Inv w (backing_off id) i h = ground arith
poll_in_vain-Inv w abandoned i h = ground arith

error-Inv :
    (w : Worker) (n id code : ℕ)
    → Inv (record { worker = w; phase = streaming id n })
    → Inv (record { worker = (on_error id code w).0; phase = phase_failed (is_retryable code) id })
unfolding on_error
error-Inv w n id code i = ground arith

drain-Inv :
    (w : Worker) (p : Phase)
    → Inv (record { worker = w; phase = p })
    → 1 ≤ pos_part w.active_jobs
    → Inv (record { worker = (drain_one w).0; phase = p })
unfolding drain_one ◌-ℤ◌
drain-Inv w quiet i h = ground arith
drain-Inv w (asked n) i h = ground arith
drain-Inv w (streaming id n) i h = ground arith
drain-Inv w (backing_off id) i h = ground arith
drain-Inv w abandoned i h = ground arith

close-Inv :
    (w : Worker) (p : Phase)
    → Inv (record { worker = w; phase = p })
    → Inv (record { worker = (close w).0; phase = p })
unfolding close
close-Inv w quiet i = ground arith
close-Inv w (asked n) i = ground arith
close-Inv w (streaming id n) i = ground arith
close-Inv w (backing_off id) i = ground arith
close-Inv w abandoned i = ground arith

resume_close-Inv :
    (w : Worker) (p : Phase)
    → Inv (record { worker = w; phase = p })
    → Inv (record { worker = (resume_close w).0; phase = phase_closed w.close_state p })
unfolding resume_close
resume_close-Inv w quiet i = ground arith
resume_close-Inv w (asked n) i = ground arith
resume_close-Inv w (streaming id n) i = ground arith
resume_close-Inv w (backing_off id) i = ground arith
resume_close-Inv w abandoned i = ground arith

module _ {J : Type 0} (parse : String → Option J) where
  response-Inv :
      (w : Worker) (n id : ℕ) (jobs : List (ActivatedJob String))
      → Inv (record { worker = w; phase = streaming id n })
      → length jobs ≤ n
      → Inv (record {
        worker = (handle_job_response parse w jobs).0;
        phase = streaming id (n - length jobs);
      })
  unfolding handle_job_response ◌+ℤ◌
  response-Inv w n id jobs i h = ground arith

  pub Step-Inv : {f g : Flow} → Step parse f g → Inv f → Inv g
  unfolding resume_poll on_end handle_stream_end
  Step-Inv {f} (polls r h e) i = rw e (poll-Inv f.worker f.phase r i h)
  Step-Inv {f} (polls_in_vain h e) i = rw e (poll_in_vain-Inv f.worker f.phase i h)
  Step-Inv {f} (is_refused n p e) i = rw e (ground arith)
  Step-Inv {f} (is_failed n p e) i = rw e (ground arith)
  Step-Inv {f} (is_unanswered n p e) i = rw e (ground arith)
  Step-Inv {f} (opens n id p e) i = rw e (ground arith)
  Step-Inv {f} (receives n id jobs p l e) i =
      rw e (response-Inv f.worker n id jobs (subst (λ q. Inv (record f { phase = q })) p i) l)
  Step-Inv {f} (ends n id p e) i = rw e (ground arith)
  Step-Inv {f} (fails n id code p e) i =
      rw e (error-Inv f.worker n id code (subst (λ q. Inv (record f { phase = q })) p i))
  Step-Inv {f} (timer_fires id p e) i = rw e (ground arith)
  Step-Inv {f} (finishes_job h e) i = rw e (drain-Inv f.worker f.phase i h)
  Step-Inv {f} (closes e) i = rw e (close-Inv f.worker f.phase i)
  Step-Inv {f} (channel_closes e) i = rw e (resume_close-Inv f.worker f.phase i)

  pub Reach-Inv : {f g : Flow} → Inv f → Reach parse f g → Inv g
  Reach-Inv i here = i
  Reach-Inv i (next r s) = Step-Inv s (Reach-Inv i r)

  pub new_worker-Inv :
      (o : Options) (task_type : Option String) (fresh_id : String) (has_handler : Bool)
      (id : Option String) {w : Worker}
      → new_worker o task_type fresh_id has_handler id ≡ made w
      → Inv (record { worker = w; phase = quiet })
  unfolding new_worker
  new_worker-Inv o task_type fresh_id has_handler id h = ground arith

  one_stream :
      (w : Worker) (p : Phase)
      → Inv (record { worker = w; phase = p })
      → (p ≡ quiet) ⊎ ((poll w).1 ≡ none)
  unfolding poll
  one_stream w quiet i = inl refl
  one_stream w (asked n) i = inr (ground arith)
  one_stream w (streaming id n) i = inr (ground arith)
  one_stream w (backing_off id) i = inr (ground arith)
  one_stream w abandoned i = inr (ground arith)

  -- In every state that a worker reaches from its constructor by polls, answers, responses, stream
  -- ends, back-off timers, finished jobs and close calls, in any order in which the gateway sends no more
  -- jobs than a request asked for, each stream ends once, by 'end' or by 'error', and brings no jobs after
  -- that, its back-off timer fires before the next poll sends a request, and a job finishes only while
  -- one is active: the active jobs, together with the jobs that the gateway may still send, are at most the
  -- capacity, and no poll sends a request while another request or stream is under way.
  pub capacity_respected :
      (o : Options) (task_type : Option String) (fresh_id : String) (has_handler : Bool)
      (id : Option String) {w : Worker} {g : Flow}
      → new_worker o task_type fresh_id has_handler id ≡ made w
      → Reach parse (record { worker = w; phase = quiet }) g
      → (pos_part g.worker.active_jobs + budget g.phase ≤ g.worker.max_jobs_to_activate)
        × ((g.phase ≡ quiet) ⊎ ((poll g.worker).1 ≡ none))
  capacity_respected o task_type fresh_id has_handler id {g} h r =
      let i = Reach-Inv (new_worker-Inv o task_type fresh_id has_handler id h) r in
      (i.bounded, one_stream g.worker g.phase i)
