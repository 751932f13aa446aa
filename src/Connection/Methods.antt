-- ===== src/Connection/Methods.antt =====
-- The methods that the gRPC client makes for the calls of its service, and its plain calls
-- (src/lib/GrpcClient.ts), and those that the rest of the client uses (`ZBGrpc` of
-- src/lib/interfaces-1.0.ts).
use Prim.Native.String
use zeebe_client_node_js.Base.{
  Option, none, some, List, [], ◌∷◌, String, if◌then◌else◌, is_some, map,
}
use zeebe_client_node_js.Connection.Channel.{Signal, event_error, event_ready}

-- A property of the client: the streaming call, or the unary one, of a method of the service.
pub data Property : Type 0 where
  stream_of sync_of : String → Property

-- An assignment `this[name] = property`.
pub record Assigned : Type 0 where
  pub name : String
  pub property : Property

abbrev pub stream_method : String → Assigned
stream_method n = record { name = String.◌++◌ n "Stream"; property = stream_of n }

abbrev pub sync_method : String → Assigned
sync_method n = record { name = String.◌++◌ n "Sync"; property = sync_of n }

-- What the loop leaves: the names of `listNameMethods`, and the assignments.
pub record Methods : Type 0 where
  pub list_name_methods : List String
  pub assigned : List Assigned

abbrev add_method : String → Methods → Methods
add_method n m = record {
  list_name_methods = n ∷ m.list_name_methods;
  assigned = stream_method n ∷ sync_method n ∷ m.assigned;
}

-- The loop over `listMethods`, which has the `originalName` of each method, and nothing for a key
-- whose value is falsy.
unfoldable pub make_methods : List (Option String) → Methods
make_methods [] = record { list_name_methods = []; assigned = [] }
make_methods (none ∷ rest) = make_methods rest
make_methods (some n ∷ rest) = add_method n (make_methods rest)

-- `listMethods`
unfoldable pub list_methods : Methods → List String
list_methods m = m.list_name_methods

-- The callback of `waitForReady`, which is given an error or nothing.
unfoldable pub wait_for_ready : Option String → Signal
wait_for_ready error = if is_some error then event_error else event_ready

-- `ZBGrpc`: the properties that it declares, as what they have to be.
unfoldable pub zb_grpc : List Assigned
zb_grpc =
    sync_method "completeJob"
    ∷ stream_method "activateJobs"
    ∷ map sync_method (
        "publishMessage" ∷ "throwError" ∷ "topology" ∷ "updateJobRetries" ∷ "deployProcess"
        ∷ "deployResource" ∷ "evaluateDecision" ∷ "failJob" ∷ "createProcessInstance"
        ∷ "createProcessInstanceWithResult" ∷ "cancelProcessInstance" ∷ "modifyProcessInstance"
        ∷ "setVariables" ∷ "resolveIncident" ∷ "broadcastSignal" ∷ [])
