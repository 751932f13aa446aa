-- ===== src/Client/Modify.antt =====
-- `modifyProcessInstance` and its attempts (src/zb/ZBClient.ts). Its closure, which is what
-- `executeOperation` calls for each attempt, writes into the request of the caller.
use zeebe_client_node_js.Base.{ℕ, zero, suc, List, map, String, Option, none, some}

-- `J` is the type of JavaScript values, texts included: `stringify` gives the text of a value as a value.
pub record VariableInstruction (J : Type 0) : Type 0 where
  pub variables : J
  pub scope_id : String

pub record ActivateInstruction (J : Type 0) : Type 0 where
  pub element_id : String
  pub ancestor_element_instance_key : String
  pub variable_instructions : List (VariableInstruction J)

pub record ModifyProcessInstanceRequest (J : Type 0) : Type 0 where
  pub process_instance_key : String
  pub activate_instructions : Option (List (ActivateInstruction J))
  pub terminate_instructions : Option (List String)

module _ {J : Type 0} (stringify : J → J) where
  abbrev pub stringify_instruction : VariableInstruction J → VariableInstruction J
  stringify_instruction v = record v { variables = stringify v.variables }

  abbrev pub stringify_activation : ActivateInstruction J → ActivateInstruction J
  stringify_activation a = record a {
    variable_instructions = map stringify_instruction a.variable_instructions;
  }

  abbrev on_activations :
      Option (List (ActivateInstruction J)) → Option (List (ActivateInstruction J))
  on_activations none = none
  on_activations (some activations) = some (map stringify_activation activations)

  -- One call of the closure: the request as it is left, which is also what is sent.
  unfoldable pub modify_once : ModifyProcessInstanceRequest J → ModifyProcessInstanceRequest J
  modify_once r = record r { activate_instructions = on_activations r.activate_instructions }

-- The request that attempt `n + 1` of one call sends.
unfoldable pub modify_attempt :
    {J : Type 0} → (J → J) → ℕ → ModifyProcessInstanceRequest J → ModifyProcessInstanceRequest J
unfolding modify_once
modify_attempt stringify zero r = modify_once stringify r
modify_attempt stringify (suc n) r = modify_attempt stringify n (modify_once stringify r)
