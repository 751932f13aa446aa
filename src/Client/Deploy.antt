-- ===== src/Client/Deploy.antt =====
-- Deployments: `deployResource` and `deployProcess` of src/zb/ZBClient.ts, with
-- src/lib/deployWorkflow/pure.ts and src/lib/deployWorkflow/impure.ts. Parameters: the file system
-- (`exists_sync`, and `read`, where `none` is an error that `readFileSync` throws), `path.basename`, and the package fp-ts.
use mathlib.Core.Option
use zeebe_client_node_js.Variables.{◌>>=◌}
use zeebe_client_node_js.Base.{
  ℕ, ◌≡◌, Bool, Option, none, some, List, [], ◌∷◌, ◌++◌, String, nullish_option, truthy, is_some,
  if◌then◌else◌,
}

-- The argument of `deployResource`: any of its fields may be missing.
pub record Resource (B : Type 0) : Type 0 where
  pub process_filename : Option String
  pub process : Option B
  pub decision_filename : Option String
  pub decision : Option B
  pub form_filename : Option String
  pub form : Option B
  pub name : Option String
  pub tenant_id : Option String

pub record DeployResourceRequest (B : Type 0) : Type 0 where
  pub name : Option String
  pub content : Option B
  pub tenant_id : Option String

module _ {B : Type 0} (read : String → Option B) (client_tenant : Option String) where
  abbrev from_file : Resource B → Option String → Option (DeployResourceRequest B)
  from_file r none = none
  from_file r (some filename) = elim (read filename) [
    | none ↦ none
    | some content ↦ some (record {
      name = some filename;
      content = some content;
      tenant_id = nullish_option r.tenant_id client_tenant;
    })
  ]

  abbrev from_buffer : Resource B → Option B → Option (DeployResourceRequest B)
  from_buffer r content = some (record {
    name = r.name;
    content = content;
    tenant_id = nullish_option r.tenant_id client_tenant;
  })

  -- `deployResource`; `none`: `readFileSync` throws.
  unfoldable pub deploy_resource : Resource B → Option (DeployResourceRequest B)
  deploy_resource r =
      if truthy r.process_filename
      then from_file r r.process_filename
      else if is_some r.process
      then from_buffer r r.process
      else if truthy r.decision_filename
      then from_file r r.decision_filename
      else if is_some r.decision
      then from_buffer r r.decision
      else if truthy r.form_filename
      then from_file r r.form_filename
      else from_buffer r r.form

pub data DeployProcess (B : Type 0) : Type 0 where
  file : String → DeployProcess B
  files : List String → DeployProcess B
  buffer : B → String → DeployProcess B

pub record ProcessRequestObject (B : Type 0) : Type 0 where
  pub definition : B
  pub name : String
  pub type : Option ℕ

-- `Either`
pub data Either (E A : Type 0) : Type 0 where
  left : E → Either E A
  right : A → Either E A

-- `Either<DeployProcessBuffer[], string[]>`, by `bufferOrFiles` and `coerceFilenamesToArray`
unfoldable pub buffer_or_files :
    {B : Type 0} → DeployProcess B → Either (List (ProcessRequestObject B)) (List String)
buffer_or_files (file path) = right (path ∷ [])
buffer_or_files (files paths) = right paths
buffer_or_files (buffer definition name) =
    left (record { definition = definition; name = name; type = none } ∷ [])

-- The applicative of `getValidation` over the semigroup of non-empty arrays: errors are appended.
abbrev pub apply :
    {E A : Type 0} → Either (List E) A → Either (List E) (List A) → Either (List E) (List A)
apply (left e) (left es) = left (e ++ es)
apply (left e) (right found) = left e
apply (right a) (left es) = left es
apply (right a) (right found) = right (a ∷ found)

-- `A.array.traverse(E.getValidation(NEA.getSemigroup()))`, as fp-ts documents it. It calls
-- the function for each element; `none` is an error that the function throws.
pub record Validation (E A P : Type 0) : Type 0 where
  pub traverse : List P → (P → Option (Either (List E) A)) → Option (Either (List E) (List A))
  pub traverse-nil : (f : P → Option (Either (List E) A)) → traverse [] f ≡ some (right [])
  pub traverse-cons :
      (p : P) (ps : List P) (f : P → Option (Either (List E) A))
      → traverse (p ∷ ps) f ≡ (f p >>= λ a. traverse ps f >>= λ found. some (apply a found))

abbrev pub map_left : {E A : Type 0} → Either E A → Either (List E) A
map_left (left e) = left (e ∷ [])
map_left (right a) = right a

-- `mapThese`
unfoldable pub map_these :
    {E A P : Type 0}
    → Validation E A P
    → List P
    → (P → Option (Either E A))
    → Option (Either (List E) (List A))
map_these v paths read = v.traverse paths (λ path. Option.map map_left (read path))

-- The object of `readDefinitionFromFile`; `none`: `readFileSync` throws.
abbrev pub definition_of :
    {B : Type 0} → String → Option B → Option (Either String (ProcessRequestObject B))
definition_of base none = none
definition_of base (some content) =
    some (right (record { definition = content; name = base; type = some 1 }))

-- What `deployProcess` does: a call of `deployProcessSync` in `executeOperation`, a rejection that names
-- the files that were not found, or a rejection with the error of a file that cannot be read.
pub data Deployment (B : Type 0) : Type 0 where
  deploys : List (ProcessRequestObject B) → Deployment B
  not_found : List String → Deployment B
  read_fails : Deployment B

module _ {B : Type 0} (v : Validation String (ProcessRequestObject B) String)
    (exists_sync : String → Bool) (read : String → Option B) (basename : String → String) where
  -- `readDefinitionFromFile`
  unfoldable pub read_definition_from_file :
      String → Option (Either String (ProcessRequestObject B))
  read_definition_from_file path =
      if exists_sync path then definition_of (basename path) (read path) else some (left path)

  abbrev pub fold_files :
      Option (Either (List String) (List (ProcessRequestObject B))) → Deployment B
  fold_files none = read_fails
  fold_files (some (left missing)) = not_found missing
  fold_files (some (right processes)) = deploys processes

  abbrev fold_process : Either (List (ProcessRequestObject B)) (List String) → Deployment B
  fold_process (left processes) = deploys processes
  fold_process (right paths) = fold_files (map_these v paths read_definition_from_file)

  -- `deployProcess`
  unfoldable pub deploy_process : DeployProcess B → Deployment B
  unfolding buffer_or_files map_these read_definition_from_file
  deploy_process process = fold_process (buffer_or_files process)
