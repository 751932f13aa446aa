-- ===== src/Worker/Actions.antt =====
-- The functions that a handler calls on its job: `makeCompleteHandlers`, `failJob`, `completeJob`
-- and `errorJob` of src/lib/ZBWorkerBase.ts. The commands that they send to the gateway are data.
use zeebe_client_node_js.Base.{
  ℕ, Bool, true, false, Option, none, some, List, [], String, ℤ, pos, ◌-ℤ◌, nullish,
}
use zeebe_client_node_js.Variables.{ActivatedJob}
use zeebe_client_node_js.Worker.State.{Worker}
use zeebe_client_node_js.Worker.Closing.{Effect, drain_one}

-- The first argument of `job.fail`: `string | JobFailureConfiguration`.
pub data FailConf : Type 0 where
  message : String → FailConf
  configuration : String → Option ℤ → Option ℕ → FailConf

-- The first argument of `job.error`: `string | ErrorJobWithVariables`.
pub data ErrorConf (J : Type 0) : Type 0 where
  code : String → ErrorConf J
  with_variables : J → String → Option String → ErrorConf J

pub data Action (J : Type 0) : Type 0 where
  complete : Option J → Action J
  fail : FailConf → Option ℤ → Action J
  error : ErrorConf J → Option String → Action J
  forward : Action J
  cancel_workflow : Action J

-- The slots that an action gives back when it settles: all but `cancelWorkflow` drain.
abbrev pub releases : {J : Type 0} → Action J → ℕ
releases cancel_workflow = 0
releases _ = 1

pub data Command (J : Type 0) : Type 0 where
  complete_job : String → J → Command J
  fail_job : String → String → ℤ → ℕ → Command J
  throw_error : String → String → String → J → Command J
  cancel_process_instance : String → Command J

-- `failJob`: the message, the job's key, the retries left and the delay before the next one.
abbrev fail_command : {J : Type 0} → ActivatedJob J → String → Option ℤ → Option ℕ → Command J
fail_command job error_message retries retry_back_off =
    fail_job error_message job.key (nullish retries (job.retries -ℤ pos 1))
      (nullish retry_back_off 0)

module _ {J : Type 0} (empty : J) where
  -- The command that an action sends at once; `forward` sends none.
  unfoldable pub command_of : ActivatedJob J → Action J → Option (Command J)
  command_of job (complete variables) = some (complete_job job.key (nullish variables empty))
  command_of job (fail (message text) retries) = some (fail_command job text retries (some 0))
  command_of job (fail (configuration text retries back_off) _) =
      some (fail_command job text (some (nullish retries (pos 0))) (some (nullish back_off 0)))
  command_of job (error (code c) text) = some (throw_error c (nullish text "") job.key empty)
  command_of job (error (with_variables variables c text) _) =
      some (throw_error c (nullish text "") job.key variables)
  command_of job forward = none
  command_of job cancel_workflow = some (cancel_process_instance job.process_instance_key)

-- The wrapper `errorMsgOnPriorMessageCall`: `methodCalled` after the call, and whether it warns.
-- The wrapped function is called in either case. `cancelWorkflow` is not wrapped.
abbrev wrapped : String → Option String → Option String × Bool
wrapped method none = (some method, false)
wrapped method (some first) = (some first, true)

unfoldable pub call_action : {J : Type 0} → Action J → Option String → Option String × Bool
call_action (complete _) called = wrapped "job.complete" called
call_action (fail _ _) called = wrapped "job.fail" called
call_action (error _ _) called = wrapped "error" called
call_action forward called = wrapped "job.forward" called
call_action cancel_workflow called = (called, false)

-- What the action's promise comes to.
pub data Outcome : Type 0 where
  acknowledged rejected : Outcome

abbrev acknowledged_if : Bool → Outcome
acknowledged_if true = acknowledged
acknowledged_if false = rejected

abbrev drained : Worker → Outcome → Worker × List Effect × Outcome
drained w o = let (w', effects) = drain_one w in (w', effects, o)

-- What happens when the gateway has accepted the command (`true`) or the command has failed.
unfoldable pub settle : {J : Type 0} → Worker → Action J → Bool → Worker × List Effect × Outcome
settle w (complete _) accepted = drained w acknowledged
settle w (fail _ _) accepted = drained w (acknowledged_if accepted)
settle w (error _ _) accepted = drained w acknowledged
settle w forward accepted = drained w acknowledged
settle w cancel_workflow accepted = (w, [], acknowledged_if accepted)
