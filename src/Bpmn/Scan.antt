-- ===== src/Bpmn/Scan.antt =====
-- src/lib/BpmnParser.ts: the task types and the message names of parsed BPMN documents. `none` is
-- an error that the code throws, or the rejection that it becomes.
use zeebe_client_node_js.Variables.{◌>>=◌}
use text.Mathlib.Text.{◌==◌}
use zeebe_client_node_js.Base.{Option, some, List, [], ◌∷◌, ◌++◌, String, if◌then◌else◌}
use zeebe_client_node_js.Bpmn.Order.{text_order}
use zeebe_client_node_js.Bpmn.Unique.{sort, to_set}
use zeebe_client_node_js.Bpmn.Document.{
  Value, scalar, array, object, Items, nil, item, Fields, end, attribute, element, get,
  get_attribute, to_array, map_items,
}

-- `scanRecursively`: what `read` makes of each element under the key, wherever it stands.
module _ (key : String) (read : Value → Option (Option String)) where
  unfoldable mutual
    pub scan : Value → Option (List (Option String))
    scan (scalar s) = some []
    scan (array vs) = scan_items vs
    scan (object fs) = scan_fields fs

    pub scan_items : Items → Option (List (Option String))
    scan_items nil = some []
    scan_items (item v vs) = do xs ← scan v; ys ← scan_items vs; some (xs ++ ys)

    pub scan_fields : Fields → Option (List (Option String))
    scan_fields end = some []
    scan_fields (attribute a t fs) = scan_fields fs
    scan_fields (element k v fs) =
        let inner = scan v in
        do
          xs ← if k == key then map_items read (to_array v) else inner
          ys ← scan_fields fs
          some (xs ++ ys)

-- The type of a service task, which may be undefined; without a task definition, the code throws.
unfoldable pub task_type : Value → Option (Option String)
task_type t = do
  extension ← get "bpmn:extensionElements" t
  definition ← get "zeebe:taskDefinition" extension
  some (get_attribute "type" definition)

unfoldable pub message_name : Value → Option (Option String)
message_name m = some (get_attribute "name" m)

abbrev pub sorted_set : List (Option String) → List (Option String)
sorted_set xs = to_set text_order (sort text_order xs)

unfoldable pub scan_bpmn_object_for_tasks : Value → Option (List (Option String))
scan_bpmn_object_for_tasks v = do
  types ← scan "bpmn:serviceTask" task_type v
  some (sorted_set types)

unfoldable pub scan_bpmn_object_for_messages : Value → Option (List (Option String))
scan_bpmn_object_for_messages v = do
  names ← scan "bpmn:message" message_name v
  some (sorted_set names)

abbrev pub concat : List (List (Option String)) → List (Option String)
concat [] = []
concat (xs ∷ rest) = xs ++ concat rest

unfoldable pub merge_dedupe_and_sort : List (List (Option String)) → List (Option String)
merge_dedupe_and_sort arr = sorted_set (concat arr)

unfoldable pub get_task_types : Value → Option (List (Option String))
get_task_types processes = do
  types ← map_items scan_bpmn_object_for_tasks (to_array processes)
  some (merge_dedupe_and_sort types)

unfoldable pub get_message_names : Value → Option (List (Option String))
get_message_names processes = do
  names ← map_items scan_bpmn_object_for_messages (to_array processes)
  some (merge_dedupe_and_sort names)
