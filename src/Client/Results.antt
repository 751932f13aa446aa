-- ===== src/Client/Results.antt =====
-- What the client does with the answers of the gateway (src/zb/ZBClient.ts): the result of a process
-- instance, and the topology that an eager connection asks for.
use mathlib.Core.Option
use zeebe_client_node_js.Base.{
  ℕ, Bool, true, false, Option, none, some, List, [], ◌∷◌, String, ℤ, if◌then◌else◌,
}
use zeebe_client_node_js.Variables.{parse_variables}
use zeebe_client_node_js.Connection.Middleware.{StatusEvent}
use zeebe_client_node_js.Client.Retry.{
  OperationError, Circumstances, Final, resolved, rejected, PromiseRetry, execute_operation,
}

-- With the variables as a text, as the gateway sends them, or as a document.
pub record CreateProcessInstanceWithResultResponse (V : Type 0) : Type 0 where
  pub process_definition_key : String
  pub bpmn_process_id : String
  pub version : ℤ
  pub process_instance_key : String
  pub variables : V
  pub tenant_id : String

-- Why a promise is rejected: by the operation, or by an error that the code itself throws.
pub data Rejection : Type 0 where
  operation_failed : OperationError → Rejection
  type_error syntax_error : Rejection

pub data Result (A : Type 0) : Type 0 where
  gives : A → Result A
  throws : Rejection → Result A

module _ {J : Type 0} (parse : String → Option J) where
  abbrev with_variables :
      CreateProcessInstanceWithResultResponse String
      → Option J
      → Result (CreateProcessInstanceWithResultResponse J)
  with_variables r none = throws syntax_error
  with_variables r (some v) = gives (record {
    process_definition_key = r.process_definition_key;
    bpmn_process_id = r.bpmn_process_id;
    version = r.version;
    process_instance_key = r.process_instance_key;
    variables = v;
    tenant_id = r.tenant_id;
  })

  -- `.then(res => parseVariables(res))`: on `undefined` the read of `res.variables` throws.
  unfoldable pub parse_result :
      Final (CreateProcessInstanceWithResultResponse String)
      → Result (CreateProcessInstanceWithResultResponse J)
  unfolding parse_variables
  parse_result (resolved (some r)) = with_variables r (parse_variables parse (some r.variables))
  parse_result (resolved none) = throws type_error
  parse_result (rejected e) = throws (operation_failed e)

-- `PartitionBrokerRole` and `PartitionBrokerHealth`
pub data PartitionBrokerRole : Type 0 where
  leader broker inactive : PartitionBrokerRole

pub data PartitionBrokerHealth : Type 0 where
  healthy unhealthy dead : PartitionBrokerHealth

pub record Partition : Type 0 where
  pub partition_id : ℕ
  pub role : PartitionBrokerRole
  pub health : PartitionBrokerHealth

pub record BrokerInfo : Type 0 where
  pub node_id : ℕ
  pub host : String
  pub port : ℕ
  pub partitions : List Partition

pub record TopologyResponse : Type 0 where
  pub brokers : List BrokerInfo
  pub cluster_size : ℕ
  pub partitions_count : ℕ
  pub replication_factor : ℕ
  pub gateway_version : String

-- `topology`: the operation without a request.
unfoldable pub topology :
    PromiseRetry TopologyResponse
    → Bool
    → ℤ
    → (ℕ → Circumstances TopologyResponse)
    → Option (Final TopologyResponse)
unfolding execute_operation
topology p retry max_retries world = execute_operation p retry max_retries world

-- What `logDirect` is called with.
pub data Shown : Type 0 where
  title : String → Shown
  brokers : List BrokerInfo → Shown

-- The callbacks of the eager call, by what `topology` comes to. On `undefined` the title is shown and
-- the read of `res.brokers` throws, which the `catch` swallows like any other error: no error has
-- the property that it tests.
abbrev topology_shown : Final TopologyResponse → List Shown
topology_shown (resolved (some r)) = title "Zeebe cluster topology:" ∷ brokers r.brokers ∷ []
topology_shown (resolved none) = title "Zeebe cluster topology:" ∷ []
topology_shown (rejected e) = []

-- The end of the constructor: whether `topology` is called, what is shown of its answer, and the
-- events that the client emits for it.
unfoldable pub eager_topology :
    Option Bool → Final TopologyResponse → Bool × List Shown × List StatusEvent
eager_topology eager_connection answer = elim eager_connection [
  | none ↦ (false, [], [])
  | some wanted ↦ if wanted then (true, topology_shown answer, []) else (false, [], [])
]

-- `createProcessInstanceWithResult`, from its call of `executeOperation` on.
unfoldable pub with_result :
    {J : Type 0}
    → (String → Option J)
    → PromiseRetry (CreateProcessInstanceWithResultResponse String)
    → Bool
    → ℤ
    → (ℕ → Circumstances (CreateProcessInstanceWithResultResponse String))
    → Option (Result (CreateProcessInstanceWithResultResponse J))
unfolding execute_operation parse_result
with_result parse p retry max_retries world =
    Option.map (parse_result parse) (execute_operation p retry max_retries world)
