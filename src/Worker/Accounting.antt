-- ===== src/Worker/Accounting.antt =====
-- How the actions of a handler release the slots of a worker (src/lib/ZBWorkerBase.ts).
use zeebe_client_node_js.Base.{
  ℕ, ◌+◌, ◌≡◌, ◌≢◌, refl, Bool, true, false, none, List, [], ◌∷◌, pos, ◌+ℤ◌, ◌-ℤ◌, arith, int_laws,
  String, +ℤ_chain, sub-add_cancel, ap₂, subst, Bool-cases, ◌⊎◌, inl, inr,
}
use zeebe_client_node_js.Variables.{ActivatedJob}
use zeebe_client_node_js.Worker.State.{Worker}
use zeebe_client_node_js.Worker.Closing.{drain_one}
use zeebe_client_node_js.Worker.Actions.{
  Action, complete, fail, error, forward, cancel_workflow, releases, call_action, settle,
  cancel_process_instance, fail_job,
}
use zeebe_client_node_js.Worker.Jobs.{exception_text, handle_exception}

pub active-drain_one : (w : Worker) → (drain_one w).0.active_jobs ≡ w.active_jobs -ℤ pos 1
unfolding drain_one
active-drain_one w = ground arith

module _ {J : Type 0} where
  -- The actions of many handlers, in the order in which their commands settle.
  pub settle_all : Worker → List (Action J × Bool) → Worker
  settle_all w [] = w
  settle_all w ((a, accepted) ∷ rest) = settle_all (settle w a accepted).0 rest

  abbrev pub released : List (Action J × Bool) → ℕ
  released [] = 0
  released ((a, _) ∷ rest) = releases a + released rest

  pub active-settle :
      (w : Worker) (a : Action J) (accepted : Bool)
      → (settle w a accepted).0.active_jobs +ℤ pos (releases a) ≡ w.active_jobs
  unfolding settle ◌+ℤ◌ ◌-ℤ◌
  active-settle w cancel_workflow accepted = ground arith
  active-settle w (complete v) accepted = ground (arith, active-drain_one w)
  active-settle w (fail c n) accepted = ground (arith, active-drain_one w)
  active-settle w (error c m) accepted = ground (arith, active-drain_one w)
  active-settle w forward accepted = ground (arith, active-drain_one w)

  -- Over any sequence of settled actions, accepted by the gateway or not, the number of active jobs
  -- falls by exactly one for each action other than `cancelWorkflow`, which releases no slot.
  pub active-settle_all :
      (w : Worker) (actions : List (Action J × Bool))
      → (settle_all w actions).active_jobs +ℤ pos (released actions) ≡ w.active_jobs
  unfolding settle_all
  active-settle_all w [] = omega int_laws
  active-settle_all w ((a, accepted) ∷ rest) =
      +ℤ_chain _ _ _ (releases a) (released rest) (active-settle_all (settle w a accepted).0 rest)
        (active-settle w a accepted)

  releases_one : (a : Action J) → a ≢ cancel_workflow → releases a ≡ 1
  releases_one cancel_workflow p = absurd (p refl)
  releases_one _ p = refl

  second_call_warns :
      (a b : Action J)
      → a ≢ cancel_workflow
      → b ≢ cancel_workflow
      → (call_action b (call_action a none).0).1 ≡ true
  unfolding call_action
  second_call_warns a b p q = ground arith

  -- Two actions other than `cancelWorkflow` on one job: the second call is warned about and is not
  -- refused, and the job gives back two slots.
  pub second_action_drains :
      (w : Worker) (a b : Action J) (x y : Bool)
      → a ≢ cancel_workflow
      → b ≢ cancel_workflow
      → ((call_action b (call_action a none).0).1 ≡ true)
        × ((settle (settle w a x).0 b y).0.active_jobs +ℤ pos 2 ≡ w.active_jobs)
  second_action_drains w a b x y p q = (
    second_call_warns a b p q,
    subst (λ n. (settle (settle w a x).0 b y).0.active_jobs +ℤ pos n ≡ w.active_jobs)
        (ap₂ ◌+◌ (releases_one a p) (releases_one b q))
        (+ℤ_chain _ _ _ (releases a) (releases b) (active-settle (settle w a x).0 b y)
          (active-settle w a x)),
  )

-- A handler that throws gives its job's slot back once, whatever the worker is configured to do:
-- it cancels the process instance, or fails the job with one retry less and no delay.
pub handler_throws :
    {J : Type 0} (w : Worker) (job : ActivatedJob J) (e : String)
    → let (command, w', _) = handle_exception w job e in
      (w'.active_jobs +ℤ pos 1 ≡ w.active_jobs)
      × (((w.cancel_workflow_on_exception ≡ true)
            × (command ≡ cancel_process_instance job.process_instance_key))
          ⊎ ((w.cancel_workflow_on_exception ≡ false)
              × (command ≡ fail_job (exception_text e) job.key (job.retries -ℤ pos 1) 0)))
unfolding handle_exception
handler_throws w job e = (
  rw (active-drain_one w) (sub-add_cancel w.active_jobs),
  elim (Bool-cases w.cancel_workflow_on_exception) [
    | inl c ↦ inl (c, rw c)
    | inr c ↦ inr (c, rw c)
  ],
)
