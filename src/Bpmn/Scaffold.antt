-- ===== src/Bpmn/Scaffold.antt =====
-- The texts that src/lib/BpmnParser.ts generates: the constants of task types and message names, and
-- a starter worker file. `none` is an error that the code throws.
use Prim.Native.String.{◌++◌}
use text.Mathlib.Text.{◌==◌}
use zeebe_client_node_js.Variables.{◌>>=◌}
use zeebe_client_node_js.Base.{
  Bool, false, ◌||◌, Option, none, some, List, [], ◌∷◌, map, String, if◌then◌else◌,
}
use zeebe_client_node_js.Bpmn.Order.{text_order}
use zeebe_client_node_js.Bpmn.Unique.{sort}
use zeebe_client_node_js.Bpmn.Document.{
  Value, scalar, array, object, Items, nil, item, Fields, end, attribute, element, get,
  get_attribute, to_array, truthy,
}
use zeebe_client_node_js.Bpmn.Scan.{task_type}
use zeebe_client_node_js.Bpmn.Names.{join, get_safe_name}

-- Texts that are neither undefined nor empty.
abbrev pub present : List (Option String) → List String
present [] = []
present (none ∷ ts) = present ts
present (some t ∷ ts) = if t == "" then present ts else t ∷ present ts

-- How a template writes a value that may be undefined.
abbrev pub shown : Option String → String
shown none = "undefined"
shown (some t) = t

-- The interfaces of the tasks' headers, by task type.
abbrev pub Interfaces : Type 0
Interfaces = List (String × List String)

abbrev pub interfaces_of : String → Interfaces → Option (List String)
interfaces_of t [] = none
interfaces_of t ((k, ds) ∷ rest) = if k == t then some ds else interfaces_of t rest

abbrev pub set_interfaces : String → List String → Interfaces → Interfaces
set_interfaces t ds [] = (t, ds) ∷ []
set_interfaces t ds ((k, es) ∷ rest) =
    let after = set_interfaces t ds rest in if k == t then (k, ds) ∷ rest else (k, es) ∷ after

abbrev pub add_definition : String → List String → List String
add_definition d [] = d ∷ []
add_definition d (e ∷ ds) = e ∷ add_definition d ds

abbrev pub mem : String → List String → Bool
mem t [] = false
mem t (d ∷ ds) = (d == t) || mem t ds

-- What an empty object inherits: `headerInterfaces[t]` is a function then, which has no `filter` or
-- `join`.
abbrev pub inherited : List String
inherited =
    "constructor" ∷ "hasOwnProperty" ∷ "isPrototypeOf" ∷ "propertyIsEnumerable" ∷ "toLocaleString"
    ∷ "toString" ∷ "valueOf" ∷ []

abbrev keys_of : Items → List (Option String)
keys_of nil = []
keys_of (item h hs) = get_attribute "key" h ∷ keys_of hs

-- `customHeaderNames`: undefined without headers; a task with headers but no `zeebe:header` throws.
unfoldable pub header_names : Value → Option (Option (List (Option String)))
header_names extension = elim (get "zeebe:taskHeaders" extension) [
  | none ↦ some none
  | some headers ↦
      if truthy headers
      then (get "zeebe:header" headers >>= λ vs. some (some (keys_of (to_array vs))))
      else some none
]

abbrev pub header_body : List (Option String) → String
header_body names = join "\n" (map (λ h. "    " ++ shown h ++ ": string") (sort text_order names))

abbrev pub header_definition : String → String → String
header_definition safe body = "interface " ++ safe ++ "CustomHeaders {\n" ++ body ++ "\n}"

-- What a task with headers adds to the interfaces of its type.
unfoldable pub add_interface :
    String → String → List (Option String) → Interfaces → Option Interfaces
add_interface t safe names m =
    let definition = header_definition safe (header_body names) in
    if mem t inherited then none else elim (interfaces_of t m) [
      | none ↦ some (set_interfaces t (definition ∷ []) m)
      | some ds ↦ some (
          if mem definition ds
          then m
          else set_interfaces t (add_definition ("{\n" ++ header_body names ++ "\n}") ds) m)
    ]

module _ (upper : String → String) where
  -- One task of `scanForHeadersRecursively`.
  unfoldable pub add_task : Value → Interfaces → Option Interfaces
  add_task t m = do
    extension ← get "bpmn:extensionElements" t
    headers ← header_names extension
    type' ← task_type t
    safe ← type' >>= get_safe_name upper
    elim headers [ none ↦ some m | some names ↦ add_interface (shown type') safe names m ]

  abbrev pub add_tasks : Items → Interfaces → Option Interfaces
  add_tasks nil m = some m
  add_tasks (item t ts) m = do n ← add_task t m; add_tasks ts n

  -- `scanForHeadersRecursively`
  unfoldable mutual
    pub headers : Value → Interfaces → Option Interfaces
    headers (scalar b) m = some m
    headers (array vs) m = headers_items vs m
    headers (object fs) m = headers_fields fs m

    pub headers_items : Items → Interfaces → Option Interfaces
    headers_items nil m = some m
    headers_items (item v vs) m = do n ← headers v m; headers_items vs n

    pub headers_fields : Fields → Interfaces → Option Interfaces
    headers_fields end m = some m
    headers_fields (attribute a t fs) m = headers_fields fs m
    headers_fields (element k v fs) m =
        let inner = headers v m in
        do
          n ← if k == "bpmn:serviceTask" then add_tasks (to_array v) m else inner
          headers_fields fs n
