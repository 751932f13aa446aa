-- ===== src/Bpmn/Tests.antt =====
-- Documents and files on which the theorems about src/lib/BpmnParser.ts are run.
use Prim.Native.Char.{Char}
use zeebe_client_node_js.Base.{All, ◌≢◌, ◌⊎◌, ◌≡◌, ◌↔◌, refl, Option, none, some, [], ◌∷◌, String}
use zeebe_client_node_js.Bpmn.Order.{text_order}
use zeebe_client_node_js.Bpmn.Unique.{◌∈◌, sort, to_set, IsAscending}
use zeebe_client_node_js.Bpmn.Document.{Value, array, object, nil, item, end, attribute, element}
use zeebe_client_node_js.Bpmn.Scan.{
  scan, task_type, message_name, scan_bpmn_object_for_tasks, scan_bpmn_object_for_messages,
  merge_dedupe_and_sort, get_task_types, get_message_names,
}
use zeebe_client_node_js.Bpmn.Occurrences.{found, found_items}
use zeebe_client_node_js.Bpmn.Gathering
use zeebe_client_node_js.Bpmn.Names.{split, join, get_safe_name, get_constant_name}
use zeebe_client_node_js.Bpmn.SafeNames
use zeebe_client_node_js.Bpmn.Shapes.{AnyEmpty}
use zeebe_client_node_js.Bpmn.Files.{
  valid, invalid, Xml, parse_file, parse_files, parse_bpmn, get_process_id,
}
use zeebe_client_node_js.Bpmn.Scaffold.{header_names, add_task, headers}
use zeebe_client_node_js.Bpmn.Generate.{
  scaffold, generate_constants_for_bpmn_files, worker, enum_list, enum_dictionary,
}
use zeebe_client_node_js.Bpmn.Complete
use zeebe_client_node_js.Bpmn.Writable.{IsWritable}

abbrev task : String → Value
task t = object (
    attribute "id" "t" (
      element "bpmn:extensionElements"
        (object (element "zeebe:taskDefinition" (object (attribute "type" t end)) end)) end))

abbrev process : Value → Value
process tasks = object (
    element "bpmn:definitions"
      (object (
        element "bpmn:process" (object (attribute "id" "p" (element "bpmn:serviceTask" tasks end)))
          end))
      end)

-- Two documents with the same types, in another order and number.
abbrev orders : Value
orders = process (array (item (task "ship") (item (task "charge") (item (task "ship") nil))))

abbrev others : Value
others = array (item (process (task "charge")) (item (process (task "ship")) nil))

abbrev undefined_task : Value
undefined_task = process (object (attribute "id" "t" end))

two_types : get_task_types orders ≡ some (some "charge" ∷ some "ship" ∷ [])
unfolding get_task_types scan_bpmn_object_for_tasks merge_dedupe_and_sort scan task_type sort to_set
two_types = refl

same_types : get_task_types others ≡ some (some "charge" ∷ some "ship" ∷ [])
unfolding get_task_types scan_bpmn_object_for_tasks merge_dedupe_and_sort scan task_type sort to_set
same_types = refl

no_definition : get_task_types undefined_task ≡ none
unfolding get_task_types scan_bpmn_object_for_tasks merge_dedupe_and_sort scan task_type sort to_set
no_definition = refl

-- `toUpperCase`, where a text of no letter stays as it is.
abbrev same : String → String
same s = s

safe : get_safe_name same "a_b-c" ≡ some "abc"
unfolding get_safe_name split join
safe = refl

unsafe : get_safe_name same "a__b" ≡ none
unfolding get_safe_name split join
unsafe = refl

constant : get_constant_name same "a b-c" ≡ "a_b_c"
unfolding get_constant_name split join
constant = refl

abbrev files : Xml
files = record { read_file = λ f. some f; validate = λ s. invalid s; parse = λ s. some orders }

process_id : get_process_id files "" ≡ some (some "p")
unfolding get_process_id
process_id = refl

get_task_types-IsAscending_example :
    IsAscending text_order (some "charge" ∷ some "ship" ∷ [])
    × ((x : Option String)
        → (x ∈ (some "charge" ∷ some "ship" ∷ [])) ↔ Gathering.TaskTypeOf orders x)
get_task_types-IsAscending_example =
    Gathering.get_task_types-IsAscending orders (some "charge" ∷ some "ship" ∷ []) two_types

visible : (c : Char) → String.◌∷◌ c String.[] ≢ ""
visible c e = cc

get_safe_name_lem_example :
    ((get_safe_name same "a_b-c" ≡ none)
      ↔ (AnyEmpty (split b'_' "a_b-c") ⊎ AnyEmpty (split b'-' (join "" (split b'_' "a_b-c")))))
    × SafeNames.IsSafe (get_safe_name same "a_b-c")
get_safe_name_lem_example =
    SafeNames.get_safe_name_lem same visible (λ c h. refl) (λ n s h k. h) "a_b-c"

abbrev one_task : Xml
one_task = record {
  read_file = λ f. some f;
  validate = λ s. valid;
  parse = λ s. some (process (task "ship"));
}

-- What the scaffold of a document with one service task is.
abbrev output : String
output =
    "import { ZBClient } from \"zeebe-node\"\n\nconst zbc = new ZBClient()\n\n// @TODO Update with the shape of your job variables\n// For better intellisense and type-safety\nexport interface WorkflowVariables {\n\t[key: string]: any\n}\n\n// Autogenerated constants for f\n\nexport enum TaskType {\n    ship = \"ship\"\n}\n\nexport enum MessageName {\n\n}\n\n\n// Worker for tasks of type \"ship\"\ntype shipCustomHeaders = never\n\nexport const shipWorker = zbc.createWorker<\nWorkflowVariables,\nshipCustomHeaders,\nWorkflowVariables\n>({ taskType: TaskType.ship,\n\ttaskHandler: job => {\n\t\tconsole.log(job)\n\t\treturn job.complete()\n\t}\n})\n"

scaffolds : scaffold one_task same same "f" ≡ some output
unfolding scaffold generate_constants_for_bpmn_files parse_bpmn parse_files parse_file
    get_task_types get_message_names message_name scan_bpmn_object_for_messages
    scan_bpmn_object_for_tasks merge_dedupe_and_sort scan task_type sort to_set headers add_task
    header_names worker enum_list enum_dictionary get_constant_name get_safe_name split join
scaffolds = refl

parsed : parse_file one_task "f" ≡ some (process (task "ship"))
unfolding parse_file
parsed = refl

ship_IsWritable : IsWritable same (task "ship")
unfolding header_names task_type get_safe_name split join
ship_IsWritable = record {
  extension = object (element "zeebe:taskDefinition" (object (attribute "type" "ship" end)) end);
  header = none;
  type = "ship";
  safe = "ship";
  has_extension = refl;
  has_header = refl;
  has_type = refl;
  has_safe = refl;
  own_name = refl;
}

tasks_IsWritable : All (IsWritable same) (Gathering.service_tasks (process (task "ship")))
unfolding found found_items
tasks_IsWritable = (ship_IsWritable, tt)

scaffold-Covers_example :
    (output : String) × (scaffold one_task same same "f" ≡ some output)
    × All
        (Complete.Covers one_task same same output)
        (Gathering.service_tasks (process (task "ship")))
scaffold-Covers_example =
    Complete.scaffold-Covers one_task same same "f" (process (task "ship")) parsed tasks_IsWritable
