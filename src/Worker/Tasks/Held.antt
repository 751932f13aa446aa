-- ===== src/Worker/Tasks/Held.antt =====
-- The slots that the handlers of a worker hold, and the close that waits for them
-- (src/zb/ZBWorker.ts, src/lib/ZBWorkerBase.ts).
use zeebe_client_node_js.Base.{
  ℕ, ◌+◌, ◌-◌, ◌≤◌, ◌≡◌, ◌≢◌, ◌⊎◌, inl, inr, refl, ap, Bool, true, Option, List, [], ◌∷◌, ◌++◌,
  String, pos, pos_part, neg_part, ◌-ℤ◌, arith, int_laws, length, All,
}
use zeebe_client_node_js.Variables.{ActivatedJob}
use zeebe_client_node_js.Worker.State.{Worker, Options, made, new_worker, waiting}
use zeebe_client_node_js.Worker.Polling.{poll, resume_poll, on_end, on_error, handle_stream_end}
use zeebe_client_node_js.Worker.Closing.{drain_one, close, resume_close}
use zeebe_client_node_js.Worker.Actions.{
  Action, complete, fail, error, forward, cancel_workflow, releases, settle,
}
use zeebe_client_node_js.Worker.Jobs.{handle_job_response, handle_exception}
use zeebe_client_node_js.Worker.Accounting.{active-settle}
use zeebe_client_node_js.Worker.Tasks.{
  over, Task, Board, call, answer, throw_in, cancelled, respond, Move, polled, resumed,
  stream_ended, stream_failed, timer_fired, closed, channel_closed, Step, responds, moves, calls,
  answers, throws, cancels, returns, Reach, here, next,
}
use zeebe_client_node_js.Worker.Tasks.Slots.{
  active-Move, released_by, Balanced, replace-Balanced, call-slots, drained-slots, throw_in-slots,
  thrown, respond-Balanced,
}

-- A close that waits for jobs: the worker is closing, and it has an active job.
abbrev IsSound : Worker → Type 0
IsSound w = (w.close_state ≢ waiting) ⊎ ((w.closing ≡ true) × (1 ≤ pos_part w.active_jobs))

drain_one-IsSound : (w : Worker) → IsSound w → IsSound (drain_one w).0
unfolding drain_one ◌-ℤ◌
drain_one-IsSound w i = ground arith

Move-IsSound : {w v : Worker} → Move w v → IsSound w → IsSound v
unfolding poll resume_poll on_end on_error handle_stream_end close resume_close
Move-IsSound polled i = ground arith
Move-IsSound (resumed r) i = ground arith
Move-IsSound (stream_ended id) i = ground arith
Move-IsSound (stream_failed id code) i = ground arith
Move-IsSound (timer_fired id) i = ground arith
Move-IsSound closed i = ground arith
Move-IsSound channel_closed i = ground arith

new_worker-IsSound :
    (o : Options) (task_type : Option String) (fresh_id : String) (has_handler : Bool)
    (id : Option String) {w : Worker}
    → new_worker o task_type fresh_id has_handler id ≡ made w
    → (w.active_jobs ≡ pos 0) × IsSound w
unfolding new_worker
new_worker-IsSound o task_type fresh_id has_handler id h = ground arith

module _ {J : Type 0} where
  settle-IsSound :
      (w : Worker) (a : Action J) (accepted : Bool) → IsSound w → IsSound (settle w a accepted).0
  unfolding settle
  settle-IsSound w cancel_workflow accepted i = i
  settle-IsSound w (complete v) accepted i = drain_one-IsSound w i
  settle-IsSound w (fail c n) accepted i = drain_one-IsSound w i
  settle-IsSound w (error c m) accepted i = drain_one-IsSound w i
  settle-IsSound w forward accepted i = drain_one-IsSound w i

  call-IsSound :
      (empty : J) (w : Worker) (t : Task J) (a : Action J)
      → IsSound w
      → IsSound (call empty w t a).0
  unfolding call
  call-IsSound empty w t forward i = settle-IsSound w forward true i
  call-IsSound empty w t (complete v) i = i
  call-IsSound empty w t (fail c n) i = i
  call-IsSound empty w t (error c m) i = i
  call-IsSound empty w t cancel_workflow i = i

  throw_in-IsSound : (w : Worker) (t : Task J) (e : String) → IsSound w → IsSound (throw_in w t e).0
  unfolding throw_in handle_exception
  throw_in-IsSound w t e i = ground (arith, drain_one-IsSound w i)

  respond-IsSound :
      (parse : String → Option J) (f : Board J) (jobs : List (ActivatedJob String))
      → IsSound f.worker
      → IsSound (respond parse f jobs).worker
  unfolding respond handle_job_response
  respond-IsSound parse f jobs i = ground arith

  -- The tasks that have not given their slot back.
  abbrev pub held : List (Task J) → ℕ
  held [] = 0
  held (t ∷ rest) = 1 - t.released + held rest

  held-released_by :
      (tasks : List (Task J))
      → All (λ t. t.released ≤ 1) tasks
      → held tasks + released_by tasks ≡ length tasks
  held-released_by [] h = omega arith
  held-released_by (t ∷ rest) h = omega (arith, h.0, held-released_by rest h.1)

  -- What holds of a board between two steps.
  record Inv (f : Board J) : Type 0 where
    balanced : Balanced f
    sound : IsSound f.worker

module _ {J : Type 0} (parse : String → Option J) (empty : J) where
  Step-Inv : {f g : Board J} → Step parse empty f g → Inv f → Inv g
  unfolding answer cancelled
  Step-Inv {f} (responds jobs) i = record {
    balanced = respond-Balanced parse f jobs i.balanced;
    sound = respond-IsSound parse f jobs i.sound;
  }
  Step-Inv {f} (moves m) i = record {
    balanced = rw (active-Move m) i.balanced;
    sound = Move-IsSound m i.sound;
  }
  Step-Inv {f} (calls before after t a p) i =
      let (k, q, r) = call-slots empty f.worker t a in
      record {
        balanced =
            replace-Balanced f before after t (call empty f.worker t a).1
              (call empty f.worker t a).0 k p q r i.balanced;
        sound = call-IsSound empty f.worker t a i.sound;
      }
  Step-Inv {f} (answers before after t a ahead behind accepted p h) i = record {
    balanced =
        replace-Balanced f before after t (answer f.worker t a (ahead ++ behind) accepted).1
          (settle f.worker a accepted).0 (releases a) p (active-settle f.worker a accepted) refl
          i.balanced;
    sound = settle-IsSound f.worker a accepted i.sound;
  }
  Step-Inv {f} (throws before after t e p h) i =
      let (q, r) = throw_in-slots f.worker t e in
      record {
        balanced =
            replace-Balanced f before after t (throw_in f.worker t e).1 (throw_in f.worker t e).0
              (thrown f.worker.cancel_workflow_on_exception) p q r i.balanced;
        sound = throw_in-IsSound f.worker t e i.sound;
      }
  Step-Inv {f} (cancels before after t p h) i = record {
    balanced =
        replace-Balanced f before after t (cancelled f.worker t).1 (drain_one f.worker).0 1 p
          (drained-slots f.worker) refl i.balanced;
    sound = drain_one-IsSound f.worker i.sound;
  }
  Step-Inv {f} (returns before after t p h) i = record {
    balanced =
        replace-Balanced f before after t (record t { stage = over }) f.worker 0 p (omega int_laws)
          (omega arith) i.balanced;
    sound = i.sound;
  }

  Reach-Inv : {f g : Board J} → Inv f → Reach parse empty f g → Inv g
  Reach-Inv i here = i
  Reach-Inv i (next r s) = Step-Inv s (Reach-Inv i r)

  -- The board of a new worker.
  abbrev pub board : Worker → Board J
  board w = record { worker = w; tasks = []; lost = 0 }

  board-Inv : (w : Worker) → w.active_jobs ≡ pos 0 → IsSound w → Inv (board w)
  board-Inv w h i = record { balanced = rw h (omega int_laws); sound = i }

  active-held :
      (f : Board J)
      → Balanced f
      → All (λ t. t.released ≤ 1) f.tasks
      → f.worker.active_jobs ≡ pos (held f.tasks + f.lost)
  active-held f b h =
      let n = held-released_by f.tasks h in
      let p = ap pos_part b in let q = ap neg_part b in omega int_laws

  -- Whatever the gateway sends, the handlers of a worker call, throw or leave undone, and in
  -- whatever order their commands are answered and the worker polls, its streams end and it is
  -- closed: if no handler gives back more than one slot, the number of active jobs of the worker is
  -- the number of handlers that have given none back, plus the jobs of responses that could not be
  -- parsed.
  pub slots_held :
      (o : Options) (task_type : Option String) (fresh_id : String) (has_handler : Bool)
      (id : Option String) {w : Worker} {g : Board J}
      → new_worker o task_type fresh_id has_handler id ≡ made w
      → Reach parse empty (board w) g
      → All (λ t. t.released ≤ 1) g.tasks
      → g.worker.active_jobs ≡ pos (held g.tasks + g.lost)
  slots_held o task_type fresh_id has_handler id {w} {g} h r l =
      let (a, i) = new_worker-IsSound o task_type fresh_id has_handler id h in
      active-held g (Reach-Inv (board-Inv w a i) r).balanced l

  -- In the same runs, a close that waits for active jobs never waits for nothing: some handler has
  -- not given its slot back, or the jobs of a response were lost because it could not be parsed.
  pub close_waits_for_jobs :
      (o : Options) (task_type : Option String) (fresh_id : String) (has_handler : Bool)
      (id : Option String) {w : Worker} {g : Board J}
      → new_worker o task_type fresh_id has_handler id ≡ made w
      → Reach parse empty (board w) g
      → All (λ t. t.released ≤ 1) g.tasks
      → g.worker.close_state ≡ waiting
      → 1 ≤ held g.tasks + g.lost
  close_waits_for_jobs o task_type fresh_id has_handler id {w} {g} h r l c =
      let (a, i) = new_worker-IsSound o task_type fresh_id has_handler id h in
      let j = Reach-Inv (board-Inv w a i) r in
      let e = ap pos_part (active-held g j.balanced l) in
      elim j.sound [ inl n ↦ absurd (n c) | inr (_, p) ↦ omega arith ]
