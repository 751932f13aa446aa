-- ===== src/Client/Requests.antt =====
-- The requests that the client's operations send (src/zb/ZBClient.ts): the defaults that they fill
-- in, the documents that they print, the tenant. `stringify` is `JSON.stringify`, `empty` is `{}`.
use zeebe_client_node_js.Base.{
  Bool, ℕ, zero, suc, Option, none, some, List, [], String, ℤ, pos, negsuc, nullish, nullish_option,
  or_number,
}
use zeebe_client_node_js.Variables.{stringify_variables}

pub record CreateProcessInstanceReq (V : Type 0) : Type 0 where
  pub bpmn_process_id : String
  pub variables : Option V
  pub version : Option ℤ
  pub start_instructions : Option (List String)
  pub tenant_id : Option String

pub record CreateProcessInstanceRequest : Type 0 where
  pub bpmn_process_id : String
  pub variables : String
  pub version : ℤ
  pub start_instructions : List String
  pub tenant_id : Option String

pub record CreateProcessInstanceWithResultReq (V : Type 0) : Type 0 where
  pub bpmn_process_id : String
  pub variables : Option V
  pub version : Option ℤ
  pub request_timeout : Option ℕ
  pub fetch_variables : Option (List String)
  pub tenant_id : Option String

-- `CreateProcessInstanceBaseRequest`
pub record BaseRequest : Type 0 where
  pub bpmn_process_id : String
  pub variables : String
  pub version : ℤ
  pub tenant_id : Option String

pub record CreateProcessInstanceWithResultRequest : Type 0 where
  pub fetch_variables : Option (List String)
  pub request : BaseRequest
  pub request_timeout : ℕ

-- `PublishMessageRequest` and `PublishStartMessageRequest`: the correlation key may be missing from
-- the second alone.
pub record MessageReq (K V : Type 0) : Type 0 where
  pub name : String
  pub correlation_key : K
  pub time_to_live : Option ℕ
  pub message_id : Option String
  pub variables : V
  pub tenant_id : Option String

pub record DecisionReq (V : Type 0) : Type 0 where
  pub decision_id : Option String
  pub decision_key : Option String
  pub variables : V
  pub tenant_id : Option String

pub record ThrowErrorReq (V : Type 0) : Type 0 where
  pub job_key : String
  pub error_code : String
  pub error_message : String
  pub variables : V

pub record SignalReq (V : Type 0) : Type 0 where
  pub signal_name : String
  pub variables : V

pub record CompleteJobReq (V : Type 0) : Type 0 where
  pub job_key : String
  pub variables : V

-- `version || -1`
abbrev pub version_of : Option ℤ → ℤ
version_of none = negsuc 0
version_of (some (pos zero)) = negsuc 0
version_of (some (pos (suc n))) = pos (suc n)
version_of (some (negsuc n)) = negsuc n

module _ {J : Type 0} (is_truthy : J → Bool) (stringify : J → String) (empty : J)
    (client_tenant : Option String) where
  -- `createProcessInstance`
  unfoldable pub create_process_instance : CreateProcessInstanceReq J → CreateProcessInstanceRequest
  unfolding stringify_variables
  create_process_instance config = record {
    bpmn_process_id = config.bpmn_process_id;
    variables = stringify_variables is_truthy stringify empty config.variables;
    version = version_of config.version;
    start_instructions = nullish config.start_instructions [];
    tenant_id = nullish_option config.tenant_id client_tenant;
  }

  -- `createProcessInstanceWithResult`, up to the answer
  unfoldable pub create_process_instance_with_result :
      CreateProcessInstanceWithResultReq J → CreateProcessInstanceWithResultRequest
  unfolding stringify_variables
  create_process_instance_with_result config = record {
    fetch_variables = config.fetch_variables;
    request = record {
      bpmn_process_id = config.bpmn_process_id;
      variables = stringify_variables is_truthy stringify empty config.variables;
      version = version_of config.version;
      tenant_id = nullish_option (nullish_option config.tenant_id client_tenant) client_tenant;
    };
    request_timeout = or_number config.request_timeout 0;
  }

  -- `publishMessage`
  unfoldable pub publish_message : MessageReq String (Option J) → MessageReq String String
  unfolding stringify_variables
  publish_message r = record {
    name = r.name;
    correlation_key = r.correlation_key;
    time_to_live = r.time_to_live;
    message_id = r.message_id;
    variables = stringify_variables is_truthy stringify empty r.variables;
    tenant_id = nullish_option r.tenant_id client_tenant;
  }

  -- `publishStartMessage`; `uuid` is the fresh identifier.
  unfoldable pub publish_start_message :
      String → MessageReq (Option String) (Option J) → MessageReq String String
  unfolding stringify_variables
  publish_start_message uuid r = record {
    name = r.name;
    correlation_key = nullish r.correlation_key uuid;
    time_to_live = r.time_to_live;
    message_id = r.message_id;
    variables = stringify_variables is_truthy stringify empty (some (nullish r.variables empty));
    tenant_id = nullish_option r.tenant_id client_tenant;
  }

  -- `evaluateDecision`
  unfoldable pub evaluate_decision : DecisionReq J → DecisionReq String
  evaluate_decision r = record {
    decision_id = r.decision_id;
    decision_key = r.decision_key;
    variables = stringify r.variables;
    tenant_id = nullish_option r.tenant_id client_tenant;
  }

module _ {J : Type 0} (is_truthy : J → Bool) (stringify : J → String) (empty : J) where
  -- `broadcastSignal`
  unfoldable pub broadcast_signal : SignalReq (Option J) → SignalReq String
  broadcast_signal r = record {
    signal_name = r.signal_name;
    variables = stringify (nullish r.variables empty);
  }

  -- `throwError`
  unfoldable pub throw_error : ThrowErrorReq (Option J) → ThrowErrorReq String
  unfolding stringify_variables
  throw_error r = record {
    job_key = r.job_key;
    error_code = r.error_code;
    error_message = r.error_message;
    variables = stringify_variables is_truthy stringify empty (some (nullish r.variables empty));
  }

  -- The request of `completeJob`
  unfoldable pub complete_job : CompleteJobReq (Option J) → CompleteJobReq String
  unfolding stringify_variables
  complete_job r = record {
    job_key = r.job_key;
    variables = stringify_variables is_truthy stringify empty r.variables;
  }
