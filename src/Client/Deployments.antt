-- ===== src/Client/Deployments.antt =====
-- What the client deploys (src/zb/ZBClient.ts, src/lib/deployWorkflow).
use mathlib.Core.Option
use zeebe_client_node_js.Variables.{◌>>=◌}
use zeebe_client_node_js.Base.{
  ◌≡◌, refl, ap, ◌∙◌, Bool, true, false, is_some, not, ◌&&◌, ◌||◌, if◌then◌else◌, Bool-cases,
  Option-cases, inl, inr, Option, none, some, List, [], ◌∷◌, String, arith, nullish_option, truthy,
}
use zeebe_client_node_js.Client.Deploy.{
  Resource, DeployResourceRequest, deploy_resource, file, files, ProcessRequestObject, Either, left,
  right, apply, Validation, map_these, Deployment, deploys, not_found, read_fails, map_left,
  fold_files, read_definition_from_file, deploy_process, buffer_or_files,
}

-- The arguments that `deployResource` is declared with.
pub data Declared (B : Type 0) : Type 0 where
  process_file decision_file form_file : String → Declared B
  process_buffer decision_buffer form_buffer : String → B → Declared B

abbrev pub no_resource : {B : Type 0} → Option String → Option String → Resource B
no_resource name tenant = record {
  process_filename = none;
  process = none;
  decision_filename = none;
  decision = none;
  form_filename = none;
  form = none;
  name = name;
  tenant_id = tenant;
}

abbrev pub resource_of : {B : Type 0} → Option String → Declared B → Resource B
resource_of tenant (process_file f) = record (no_resource none tenant) { process_filename = some f }
resource_of tenant (decision_file f) = record (no_resource none tenant) {
  decision_filename = some f;
}
resource_of tenant (form_file f) = record (no_resource none tenant) { form_filename = some f }
resource_of tenant (process_buffer n b) = record (no_resource (some n) tenant) { process = some b }
resource_of tenant (decision_buffer n b) = record (no_resource (some n) tenant) {
  decision = some b;
}
resource_of tenant (form_buffer n b) = record (no_resource (some n) tenant) { form = some b }

-- A resource's name and, if it can be had, its content.
abbrev pub name_of : {B : Type 0} → Declared B → String
name_of (process_file f) = f
name_of (decision_file f) = f
name_of (form_file f) = f
name_of (process_buffer n b) = n
name_of (decision_buffer n b) = n
name_of (form_buffer n b) = n

abbrev pub content_of : {B : Type 0} → (String → Option B) → Declared B → Option B
content_of read (process_file f) = read f
content_of read (decision_file f) = read f
content_of read (form_file f) = read f
content_of read (process_buffer n b) = some b
content_of read (decision_buffer n b) = some b
content_of read (form_buffer n b) = some b

abbrev pub request_for :
    {B : Type 0} → String → Option String → Option B → Option (DeployResourceRequest B)
request_for name tenant none = none
request_for name tenant (some b) =
    some (record { name = some name; content = some b; tenant_id = tenant })

-- For each of the six declared arguments, whose name is not empty, `deployResource` sends the content of
-- the named file or the given buffer, under that name and for the argument's tenant, by default the
-- client's; it throws just when the file cannot be read.
pub resource_deployed :
    {B : Type 0} (read : String → Option B) (client_tenant tenant : Option String) (d : Declared B)
    → truthy (some (name_of d)) ≡ true
    → deploy_resource read client_tenant (resource_of tenant d)
      ≡ request_for (name_of d) (nullish_option tenant client_tenant) (content_of read d)
unfolding deploy_resource
resource_deployed read c t (process_file f) h = ground arith
resource_deployed read c t (decision_file f) h = ground arith
resource_deployed read c t (form_file f) h = ground arith
resource_deployed read c t (process_buffer n b) h = ground arith
resource_deployed read c t (decision_buffer n b) h = ground arith
resource_deployed read c t (form_buffer n b) h = ground arith

module _ {B : Type 0} (exists_sync : String → Bool) (read : String → Option B)
    (basename : String → String) where
  -- The files that are missing, in order.
  abbrev pub missing : List String → List String
  missing [] = []
  missing (f ∷ fs) = let rest = missing fs in if exists_sync f then rest else f ∷ rest

  -- Whether some file is there and cannot be read.
  abbrev pub unreadable : List String → Bool
  unreadable [] = false
  unreadable (f ∷ fs) =
      let rest = unreadable fs in (exists_sync f && not (is_some (read f))) || rest

  abbrev add_found :
      String → Option B → List (ProcessRequestObject B) → List (ProcessRequestObject B)
  add_found f none rest = rest
  add_found f (some b) rest = record { definition = b; name = basename f; type = some 1 } ∷ rest

  -- The definitions in the files that are there, in order.
  abbrev pub found : List String → List (ProcessRequestObject B)
  found [] = []
  found (f ∷ fs) = let rest = found fs in if exists_sync f then add_found f (read f) rest else rest

abbrev pub all_or_nothing :
    {B : Type 0} → Bool → List String → List (ProcessRequestObject B) → Deployment B
all_or_nothing true missing processes = read_fails
all_or_nothing false [] processes = deploys processes
all_or_nothing false (f ∷ fs) processes = not_found (f ∷ fs)

abbrev checked :
    {B : Type 0}
    → Bool
    → List String
    → List (ProcessRequestObject B)
    → Option (Either (List String) (List (ProcessRequestObject B)))
checked true missing processes = none
checked false [] processes = some (right processes)
checked false (f ∷ fs) processes = some (left (f ∷ fs))

module _ {B : Type 0} (v : Validation String (ProcessRequestObject B) String)
    (exists_sync : String → Bool) (read : String → Option B) (basename : String → String) where
  checked_absent :
      (f : String) (u : Bool) (ms : List String) (ps : List (ProcessRequestObject B))
      → (some (left (f ∷ [])) >>= λ a. checked u ms ps >>= λ others. some (apply a others))
        ≡ checked u (f ∷ ms) ps
  checked_absent f true ms ps = refl
  checked_absent f false [] ps = refl
  checked_absent f false (m ∷ ms) ps = refl

  checked_present :
      (p : ProcessRequestObject B) (u : Bool) (ms : List String)
      (ps : List (ProcessRequestObject B))
      → (some (right p) >>= λ a. checked u ms ps >>= λ others. some (apply a others))
        ≡ checked u ms (p ∷ ps)
  checked_present p true ms ps = refl
  checked_present p false [] ps = refl
  checked_present p false (m ∷ ms) ps = refl

  checked-cons :
      (f : String) (fs : List String)
      → (Option.map map_left (read_definition_from_file v exists_sync read basename f) >>= λ a.
          checked
            (unreadable exists_sync read basename fs)
            (missing exists_sync read basename fs)
            (found exists_sync read basename fs)
          >>= λ others. some (apply a others))
        ≡ checked
            (unreadable exists_sync read basename (f ∷ fs))
            (missing exists_sync read basename (f ∷ fs))
            (found exists_sync read basename (f ∷ fs))
  unfolding read_definition_from_file
  checked-cons f fs = elim (Bool-cases (exists_sync f)) [
    | inl e ↦ elim (Option-cases (read f)) [
      | inl d ↦ rw (e, d) refl
      | inr (b, d) ↦ rw (e, d) (checked_present _ _ _ _)
    ]
    | inr e ↦ rw e (checked_absent f _ _ _)
  ]

  map_these-checked :
      (paths : List String)
      → map_these v paths (read_definition_from_file v exists_sync read basename)
        ≡ checked
            (unreadable exists_sync read basename paths)
            (missing exists_sync read basename paths)
            (found exists_sync read basename paths)
  unfolding map_these
  map_these-checked [] =
      v.traverse-nil
        (λ p. Option.map map_left (read_definition_from_file v exists_sync read basename p))
  map_these-checked (f ∷ fs) =
      v.traverse-cons f fs
        (λ p. Option.map map_left (read_definition_from_file v exists_sync read basename p))
      ∙ ap
          (λ rest.
            Option.map map_left (read_definition_from_file v exists_sync read basename f) >>= λ a.
            rest >>= λ others. some (apply a others))
          (map_these-checked fs)
      ∙ checked-cons f fs

  fold_files-checked :
      (u : Bool) (ms : List String) (ps : List (ProcessRequestObject B))
      → fold_files v exists_sync read basename (checked u ms ps) ≡ all_or_nothing u ms ps
  fold_files-checked true ms ps = refl
  fold_files-checked false [] ps = refl
  fold_files-checked false (m ∷ ms) ps = refl

  -- A list of files is deployed as a whole or not at all: when every file is there and can be read, all
  -- their definitions are deployed in the given order. If a file that is there cannot be read, nothing
  -- is deployed and the promise is rejected with the error of the read; otherwise, if files are missing,
  -- nothing is deployed and the rejection names exactly these, in the given order. One file alone is a
  -- list of one.
  pub files_deployed :
      (paths : List String)
      → (deploy_process v exists_sync read basename (files paths)
          ≡ all_or_nothing
              (unreadable exists_sync read basename paths)
              (missing exists_sync read basename paths)
              (found exists_sync read basename paths))
        × ((path : String)
            → deploy_process v exists_sync read basename (file path)
              ≡ deploy_process v exists_sync read basename (files (path ∷ [])))
  unfolding deploy_process buffer_or_files
  files_deployed paths = (
    ap (fold_files v exists_sync read basename) (map_these-checked paths)
        ∙ fold_files-checked (unreadable exists_sync read basename paths)
            (missing exists_sync read basename paths) (found exists_sync read basename paths),
    (λ path. refl),
  )
