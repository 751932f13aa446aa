-- ===== src/Client/Tests/Sending.antt =====
-- The requests of the client at concrete inputs (src/zb/ZBClient.ts).
use Prim.Native.Nat.{◌/◌}
use zeebe_client_node_js.Base.{
  ℕ, ◌+◌, ◌≡◌, refl, Option, none, some, List, [], ◌∷◌, String, Bool, true, false,
}
use zeebe_client_node_js.Variables.{◌>>=◌}
use zeebe_client_node_js.Client.Modify.{ModifyProcessInstanceRequest}
use zeebe_client_node_js.Client.Deploy.{
  Validation, Either, right, apply, ProcessRequestObject, file, files, deploy_process, not_found,
}
use zeebe_client_node_js.Client.Deployments.{files_deployed}

abbrev modification : ModifyProcessInstanceRequest ℕ
modification = record {
  process_instance_key = "1";
  activate_instructions = some (
      record {
        element_id = "task";
        ancestor_element_instance_key = "-1";
        variable_instructions = record { variables = 5; scope_id = "" } ∷ [];
      }
      ∷ []);
  terminate_instructions = none;
}

-- Texts are odd numbers: printing doubles a number and adds one.
abbrev print : ℕ → ℕ
print j = (j + j) + 1

abbrev half : ℕ → ℕ
half j = j / 2

-- A file system with every file but one.
abbrev there : String → Bool
there String.[] = false
there (String.◌∷◌ c s) = true

abbrev read : String → Option ℕ
read s = some 7

abbrev traverse_all :
    {E A P : Type 0} → List P → (P → Option (Either (List E) A)) → Option (Either (List E) (List A))
traverse_all [] f = some (right [])
traverse_all (p ∷ ps) f = f p >>= λ a. traverse_all ps f >>= λ others. some (apply a others)

abbrev validation : Validation String (ProcessRequestObject ℕ) String
validation = record {
  traverse = traverse_all;
  traverse-nil = λ f. refl;
  traverse-cons = λ p ps f. refl;
}

files_deployed_example :
    (deploy_process validation there read (λ f. f) (files ("a" ∷ "" ∷ [])) ≡ not_found ("" ∷ []))
    × ((path : String)
        → deploy_process validation there read (λ f. f) (file path)
          ≡ deploy_process validation there read (λ f. f) (files (path ∷ [])))
files_deployed_example = files_deployed validation there read (λ f. f) ("a" ∷ "" ∷ [])
