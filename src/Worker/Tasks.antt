-- ===== src/Worker/Tasks.antt =====
-- The handlers of a worker at work: `handleJobs` and `handleJob` of src/zb/ZBWorker.ts with the
-- functions of `makeCompleteHandlers` (src/lib/ZBWorkerBase.ts), as steps of a board that holds one
-- task for each job. Handlers are user code: a step exists for whatever a handler may call next.
pub mod Slots
pub mod Held
use zeebe_client_node_js.Base.{
  ℕ, ◌+◌, ◌≡◌, Bool, true, false, Option, none, some, List, [], ◌∷◌, ◌++◌, String, if◌then◌else◌,
  length, map,
}
use zeebe_client_node_js.Variables.{ActivatedJob}
use zeebe_client_node_js.Worker.State.{Worker}
use zeebe_client_node_js.Worker.Polling.{
  StreamResult, poll, resume_poll, on_end, on_error, handle_stream_end,
}
use zeebe_client_node_js.Worker.Closing.{Effect, drain_one, close, resume_close}
use zeebe_client_node_js.Worker.Actions.{
  Action, forward, releases, Command, Outcome, command_of, call_action, settle,
}
use zeebe_client_node_js.Worker.Jobs.{
  Delivery, ignored, malformed, handed_over, handle_job_response, handle_exception,
}

-- Where `handleJob` stands: in the handler, in the `catch` clause until the cancellation of the
-- process instance has settled, or at its end.
pub data Stage : Type 0 where
  running cancelling over : Stage

-- One call of `handleJob`. `called` is `methodCalled`; `unanswered` are the actions whose commands
-- the gateway has not answered; `released` counts the slots that the task has given back.
pub record Task (J : Type 0) : Type 0 where
  pub job : ActivatedJob J
  pub stage : Stage
  pub called : Option String
  pub unanswered : List (Action J)
  pub released : ℕ

-- `lost` counts the jobs of responses that could not be parsed, for which there is no task.
pub record Board (J : Type 0) : Type 0 where
  pub worker : Worker
  pub tasks : List (Task J)
  pub lost : ℕ

module _ {J : Type 0} where
  abbrev pub start : ActivatedJob J → Task J
  start job = record { job = job; stage = running; called = none; unanswered = []; released = 0 }

  -- `handleJobs`: each job goes to a call of `handleJob` of its own.
  unfoldable pub handle_jobs : List (ActivatedJob J) → List (Task J)
  handle_jobs jobs = map start jobs

  -- A handler calls a function of its job. `forward` settles at once; the others send a command.
  unfoldable pub call :
      J → Worker → Task J → Action J → Worker × Task J × Option (Command J) × List Effect
  unfolding call_action settle command_of
  call empty w t forward =
      let (w', effects, _) = settle {J = J} w forward true in
      (
        w',
        record t { called = (call_action {J = J} forward t.called).0; released = t.released + 1 },
        none,
        effects,
      )
  call empty w t a = (
    w,
    record t { called = (call_action a t.called).0; unanswered = t.unanswered ++ a ∷ [] },
    command_of empty t.job a,
    [],
  )

  -- The gateway accepts the command of an action, or the command fails; `rest` are the other actions
  -- of the task that are unanswered.
  unfoldable pub answer :
      Worker → Task J → Action J → List (Action J) → Bool → Worker × Task J × Outcome
  unfolding settle
  answer w t a rest accepted =
      let (w', _, outcome) = settle w a accepted in
      (w', record t { unanswered = rest; released = t.released + releases a }, outcome)

  -- The handler throws: the process instance is being cancelled, or the job is failed and drained.
  unfoldable pub throw_in : Worker → Task J → String → Worker × Task J × Command J
  unfolding handle_exception
  throw_in w t e =
      let (command, w', _) = handle_exception w t.job e in
      if w.cancel_workflow_on_exception
      then (w, record t { stage = cancelling }, command)
      else (w', record t { stage = over; released = t.released + 1 }, command)

  -- The cancellation of the `catch` clause has settled, one way or the other: `finally` drains.
  unfoldable pub cancelled : Worker → Task J → Worker × Task J
  unfolding drain_one
  cancelled w t = ((drain_one w).0, record t { stage = over; released = t.released + 1 })

  abbrev deliver : Board J → Worker → ℕ → Delivery J → Board J
  deliver f w n ignored = record f { worker = w }
  deliver f w n malformed = record f { worker = w; lost = f.lost + n }
  deliver f w n (handed_over jobs) = record f { worker = w; tasks = f.tasks ++ handle_jobs jobs }

  -- A response of the gateway: `handleJobResponse` with `handleJobs`.
  unfoldable pub respond : (String → Option J) → Board J → List (ActivatedJob String) → Board J
  unfolding handle_job_response handle_jobs
  respond parse f jobs =
      let (w, delivery) = handle_job_response parse f.worker jobs in
      deliver f w (length jobs) delivery

-- What else happens to a worker: its polls, its streams and its close.
pub data Move (w : Worker) : Worker → Type 0 where
  polled : Move w (poll w).0
  resumed : (r : StreamResult) → Move w (resume_poll w r)
  stream_ended : (id : ℕ) → Move w (on_end id w)
  stream_failed : (id code : ℕ) → Move w (on_error id code w).0
  timer_fired : (id : ℕ) → Move w (handle_stream_end id w)
  closed : Move w (close w).0
  channel_closed : Move w (resume_close w).0

-- The steps of a board. The task that moves stands between the others.
module _ {J : Type 0} (parse : String → Option J) (empty : J) where
  pub data Step (f : Board J) : Board J → Type 0 where
    responds : (jobs : List (ActivatedJob String)) → Step f (respond parse f jobs)
    moves : {w : Worker} → Move f.worker w → Step f (record f { worker = w })
    calls :
        (before after : List (Task J)) (t : Task J) (a : Action J)
        → f.tasks ≡ before ++ t ∷ after
        → Step f (record f {
          worker = (call empty f.worker t a).0;
          tasks = before ++ (call empty f.worker t a).1 ∷ after;
        })
    answers :
        (before after : List (Task J)) (t : Task J) (a : Action J) (ahead behind : List (Action J))
        (accepted : Bool)
        → f.tasks ≡ before ++ t ∷ after
        → t.unanswered ≡ ahead ++ a ∷ behind
        → Step f (record f {
          worker = (answer f.worker t a (ahead ++ behind) accepted).0;
          tasks = before ++ (answer f.worker t a (ahead ++ behind) accepted).1 ∷ after;
        })
    throws :
        (before after : List (Task J)) (t : Task J) (e : String)
        → f.tasks ≡ before ++ t ∷ after
        → t.stage ≡ running
        → Step f (record f {
          worker = (throw_in f.worker t e).0;
          tasks = before ++ (throw_in f.worker t e).1 ∷ after;
        })
    cancels :
        (before after : List (Task J)) (t : Task J)
        → f.tasks ≡ before ++ t ∷ after
        → t.stage ≡ cancelling
        → Step f (record f {
          worker = (cancelled f.worker t).0;
          tasks = before ++ (cancelled f.worker t).1 ∷ after;
        })
    returns :
        (before after : List (Task J)) (t : Task J)
        → f.tasks ≡ before ++ t ∷ after
        → t.stage ≡ running
        → Step f (record f { tasks = before ++ record t { stage = over } ∷ after })

  pub data Reach (f : Board J) : Board J → Type 0 where
    here : Reach f f
    next : {g h : Board J} → Reach f g → Step g h → Reach f h
