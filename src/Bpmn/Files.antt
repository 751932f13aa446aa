-- ===== src/Bpmn/Files.antt =====
-- The files that src/lib/BpmnParser.ts reads. Reading a file, the XML validator and the XML parser
-- are parameters; `none` is an error that they throw.
use zeebe_client_node_js.Variables.{◌>>=◌}
use zeebe_client_node_js.Base.{Bool, true, Option, some, List, [], ◌∷◌, String, if◌then◌else◌}
use zeebe_client_node_js.Bpmn.Document.{
  Value, array, object, Items, nil, item, end, get, get_attribute,
}

pub data Filenames : Type 0 where
  one : String → Filenames
  many : List String → Filenames

abbrev pub names_of : Filenames → List String
names_of (one filename) = filename ∷ []
names_of (many filenames) = filenames

-- `validate` answers `true`, or an object that describes the error.
pub data Verdict : Type 0 where
  valid : Verdict
  invalid : String → Verdict

-- Both are truthy.
abbrev pub holds : Verdict → Bool
holds valid = true
holds (invalid message) = true

pub record Xml : Type 0 where
  pub read_file : String → Option String
  pub validate : String → Verdict
  pub parse : String → Option Value

module _ (xml : Xml) where
  unfoldable pub parse_file : String → Option Value
  parse_file filename = do
    data' ← xml.read_file filename
    if holds (xml.validate data') then xml.parse data' else some (object end)

  unfoldable pub parse_files : List String → Option Items
  parse_files [] = some nil
  parse_files (filename ∷ filenames) = do
    v ← parse_file filename
    vs ← parse_files filenames
    some (item v vs)

  -- `parseBpmn`
  unfoldable pub parse_bpmn : Filenames → Option Value
  parse_bpmn filenames = do vs ← parse_files (names_of filenames); some (array vs)

  -- `getProcessId`: undefined where a part is missing.
  unfoldable pub get_process_id : String → Option (Option String)
  get_process_id bpmn_string = do
    document ← xml.parse bpmn_string
    some (do
      definitions ← get "bpmn:definitions" document
      process ← get "bpmn:process" definitions
      get_attribute "id" process)
