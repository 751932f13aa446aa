-- ===== src/Variables.antt =====
-- Jobs as the gateway sends them and as a handler sees them, and the passage between JavaScript
-- values and their JSON texts (src/lib/stringifyVariables.ts, src/lib/interfaces-grpc-1.0.ts).
pub mod RoundTrip
use zeebe_client_node_js.Base.{
  ℕ, Bool, Option, none, some, String, ℤ, nullish, or_string, if◌then◌else◌, truthy,
}

-- `ActivatedJob`, with texts for its two documents; `Job` is the same with JavaScript values.
pub record ActivatedJob (P : Type 0) : Type 0 where
  pub key : String
  pub type : String
  pub process_instance_key : String
  pub bpmn_process_id : String
  pub process_definition_version : ℕ
  pub process_definition_key : String
  pub element_id : String
  pub element_instance_key : String
  pub custom_headers : P
  pub worker : String
  pub retries : ℤ
  pub deadline : String
  pub variables : P
  pub tenant_id : String

infixl 5 ◌>>=◌
abbrev pub ◌>>=◌ : {A B : Type 0} → Option A → (A → Option B) → Option B
none >>= k = none
some a >>= k = k a

-- `JSON.parse` and `JSON.stringify` are parameters: `none` is a text that `JSON.parse` rejects.
module _ {J : Type 0} (parse : String → Option J) where
  -- `parseVariables`: an empty text stands for an empty document.
  unfoldable pub parse_variables : Option String → Option J
  parse_variables variables = parse (nullish (or_string variables (some "{}")) "")

  -- `parseVariablesAndCustomHeadersToJSON`
  unfoldable pub parse_variables_and_custom_headers_to_json :
      ActivatedJob String → Option (ActivatedJob J)
  parse_variables_and_custom_headers_to_json response = do
    headers ← parse response.custom_headers
    variables ← parse response.variables
    some (record {
      key = response.key;
      type = response.type;
      process_instance_key = response.process_instance_key;
      bpmn_process_id = response.bpmn_process_id;
      process_definition_version = response.process_definition_version;
      process_definition_key = response.process_definition_key;
      element_id = response.element_id;
      element_instance_key = response.element_instance_key;
      custom_headers = headers;
      worker = response.worker;
      retries = response.retries;
      deadline = response.deadline;
      variables = variables;
      tenant_id = response.tenant_id;
    })

-- `variables || {}`, where `is_truthy` tells the values that `||` keeps.
abbrev pub or_empty : {J : Type 0} → (J → Bool) → J → Option J → J
or_empty is_truthy empty none = empty
or_empty is_truthy empty (some v) = if is_truthy v then v else empty

-- `stringifyVariables`: the text of the request's variables, of `{}` where they are missing or falsy.
unfoldable pub stringify_variables :
    {J : Type 0} → (J → Bool) → (J → String) → J → Option J → String
stringify_variables is_truthy stringify empty variables =
    stringify (or_empty is_truthy empty variables)
