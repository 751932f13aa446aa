-- ===== src/Bpmn/Generate.antt =====
-- The files that src/lib/BpmnParser.ts writes out as text: the constants and the starter worker.
-- `path.basename`, `toUpperCase` and the reading of files are parameters.
use Prim.Native.String.{◌++◌}
use zeebe_client_node_js.Variables.{◌>>=◌}
use zeebe_client_node_js.Base.{Option, none, some, List, [], ◌∷◌, map, String, if◌then◌else◌}
use zeebe_client_node_js.Bpmn.Document.{Value, array, item}
use zeebe_client_node_js.Bpmn.Scan.{get_task_types, get_message_names}
use zeebe_client_node_js.Bpmn.Names.{join, get_safe_name, get_constant_name}
use zeebe_client_node_js.Bpmn.Files.{many, Filenames, one, names_of, Xml, parse_bpmn}
use zeebe_client_node_js.Bpmn.Scaffold.{
  present, shown, Interfaces, interfaces_of, mem, inherited, headers,
}

abbrev first : Value → Option Value
first (array (item v vs)) = some v
first _ = none

-- The templates.
abbrev pub constants_text : List String → String → String → String
constants_text files task_members message_members =
    "\n// Autogenerated constants for "
    ++ (join "," files
        ++ ("\n\nexport enum TaskType {\n"
            ++ (task_members
                ++ ("\n}\n\nexport enum MessageName {\n" ++ (message_members ++ "\n}\n\n")))))

abbrev pub worker_text : String → String → String → String → String
worker_text t custom safe constant =
    "// Worker for tasks of type \""
    ++ (t
        ++ ("\"\n"
            ++ (custom
                ++ ("\n\n"
                    ++ (("export const " ++ (safe ++ "Worker = zbc.createWorker<"))
                        ++ ("\nWorkflowVariables,\n"
                            ++ (safe
                                ++ ("CustomHeaders,\nWorkflowVariables\n>({ taskType: TaskType."
                                    ++ (constant
                                        ++ ",\n\ttaskHandler: job => {\n\t\tconsole.log(job)\n\t\treturn job.complete()\n\t}\n})\n")))))))))

abbrev pub starter_text : String → List String → String
starter_text interfaces ws =
    "import { ZBClient } from \"zeebe-node\"\n\nconst zbc = new ZBClient()\n\n"
    ++ ("// @TODO Update with the shape of your job variables\n// For better intellisense and type-safety\n"
        ++ ("export interface WorkflowVariables {\n\t[key: string]: any\n}\n"
            ++ (interfaces ++ ("\n" ++ join "\n" ws))))

module _ (xml : Xml) (upper basename : String → String) where
  -- `getServiceTypesFromBpmn` of the client.
  unfoldable pub get_service_types_from_bpmn : Filenames → Option (List (Option String))
  get_service_types_from_bpmn files = do
    parsed ← parse_bpmn xml (many (names_of files))
    get_task_types parsed

  abbrev pub enum_member : String → String
  enum_member t = "    " ++ get_constant_name upper t ++ " = \"" ++ t ++ "\""

  -- `buildEnumListFromArray`
  unfoldable pub enum_list : List (Option String) → String
  enum_list a = join ",\n" (map enum_member (present a))

  unfoldable pub generate_constants_for_bpmn_files : Filenames → Option String
  generate_constants_for_bpmn_files filenames = do
    parsed ← parse_bpmn xml filenames
    task_types ← get_task_types parsed
    message_names ← get_message_names parsed
    some (
        constants_text (map basename (names_of filenames)) (enum_list task_types)
          (enum_list message_names))

  -- `buildEnumDictionaryFromArray`, read at a key.
  unfoldable pub enum_dictionary : List (Option String) → Option String → Option String
  enum_dictionary a t =
      if mem (shown t) (present a) then some (get_constant_name upper (shown t)) else none

  abbrev pub custom_headers : Interfaces → String → String → Option String
  custom_headers m t safe = if mem t inherited then none else elim (interfaces_of t m) [
    | none ↦ some ("type " ++ safe ++ "CustomHeaders = never")
    | some ds ↦ some (join "|" ds)
  ]

  -- The worker of one task type.
  unfoldable pub worker : Interfaces → List (Option String) → Option String → Option String
  worker m types t = do
    safe ← t >>= get_safe_name upper
    custom ← custom_headers m (shown t) safe
    some (worker_text (shown t) custom safe (shown (enum_dictionary types t)))

  abbrev pub workers :
      Interfaces → List (Option String) → List (Option String) → Option (List String)
  workers m types [] = some []
  workers m types (t ∷ ts) = do w ← worker m types t; ws ← workers m types ts; some (w ∷ ws)

  unfoldable pub scaffold : String → Option String
  scaffold filename = do
    parsed ← parse_bpmn xml (one filename)
    bpmn_object ← first parsed
    task_types ← get_task_types bpmn_object
    interfaces ← generate_constants_for_bpmn_files (one filename)
    header_interfaces ← headers upper bpmn_object []
    ws ← workers header_interfaces task_types task_types
    some (starter_text interfaces ws)
