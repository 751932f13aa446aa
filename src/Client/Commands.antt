-- ===== src/Client/Commands.antt =====
-- The operations of src/zb/ZBClient.ts that pass a request on: what they send, with src/lib/utils.ts,
-- and the manual activation of jobs. `stringify` is `JSON.stringify`, `parse` is `JSON.parse`.
use zeebe_client_node_js.Base.{
  ℕ, ◌≡◌, ◌≢◌, refl, ap, arith, Bool, Option, none, some, List, [], ◌∷◌, String, ℤ, if◌then◌else◌,
}
use zeebe_client_node_js.Variables.{ActivatedJob}
use zeebe_client_node_js.Worker.Jobs.{parse_jobs}
use zeebe_client_node_js.Variables.RoundTrip.{Json}

-- What a call does first: throw, or run the operation with a request.
pub data Sent (R : Type 0) : Type 0 where
  threw : String → Sent R
  runs : R → Sent R

-- A key as the caller gives it.
pub data Key : Type 0 where
  key_text : String → Key
  key_number : ℤ → Key

-- `validateNumber`: `Number.isInteger(Number(variable))` is a parameter; the error names the field.
abbrev validate_number : (Key → Bool) → Key → String → Option String
validate_number is_integer variable field = if is_integer variable then none else some field

abbrev sent_after : {R : Type 0} → Option String → R → Sent R
sent_after none r = runs r
sent_after (some field) r = threw field

unfoldable pub cancel_process_instance : (Key → Bool) → Key → Sent Key
cancel_process_instance is_integer process_instance_key =
    sent_after (validate_number is_integer process_instance_key "processInstanceKey")
      process_instance_key

pub record FailJobRequest : Type 0 where
  pub job_key : String
  pub retries : ℤ
  pub error_message : String
  pub retry_back_off : ℕ

pub record UpdateJobRetriesRequest : Type 0 where
  pub job_key : String
  pub retries : ℤ

pub record ResolveIncidentRequest : Type 0 where
  pub incident_key : String

-- The operations that send the caller's request as it is.
unfoldable pub fail_job_directly : FailJobRequest → Sent FailJobRequest
fail_job_directly request = runs request

unfoldable pub update_job_retries : UpdateJobRetriesRequest → Sent UpdateJobRetriesRequest
update_job_retries request = runs request

unfoldable pub resolve_incident : ResolveIncidentRequest → Sent ResolveIncidentRequest
resolve_incident request = runs request

-- `typeof request.variables`: an object, or a text that is taken as it is.
pub data Variables (J : Type 0) : Type 0 where
  document : J → Variables J
  printed : String → Variables J

pub record SetVariablesRequest (J : Type 0) : Type 0 where
  pub element_instance_key : String
  pub variables : Variables J
  pub local : Bool

abbrev printed_variables : {J : Type 0} → (J → String) → Variables J → Variables J
printed_variables stringify (document v) = printed (stringify v)
printed_variables stringify (printed s) = printed s

-- The caller's request is changed, and it is the request that is sent.
unfoldable pub set_variables :
    {J : Type 0} → (J → String) → SetVariablesRequest J → SetVariablesRequest J
set_variables stringify request = record request {
  variables = printed_variables stringify request.variables;
}

-- What `activateJobsStream` gives: nothing or an object without `on`, or a stream with its responses
-- in the order in which they arrive.
pub data StreamCall : Type 0 where
  rejected_call no_stream : StreamCall
  stream : List (List (ActivatedJob String)) → StreamCall

-- The promise of `activateJobs`. `crashed`: the listener throws, which settles nothing.
pub data Activation (J : Type 0) : Type 0 where
  pending crashed rejected : Activation J
  resolved : List (ActivatedJob J) → Activation J

-- The listener is called for every response, but a promise that is resolved stays as it is.
module _ {J : Type 0} (parse : String → Option J) where
  abbrev activation_of : Option (List (ActivatedJob J)) → Activation J
  activation_of none = crashed
  activation_of (some jobs) = resolved jobs

  abbrev on_data : Activation J → List (ActivatedJob String) → Activation J
  on_data pending jobs = activation_of (parse_jobs parse jobs)
  on_data crashed jobs = crashed
  on_data rejected jobs = rejected
  on_data (resolved earlier) jobs = resolved earlier

  abbrev on_all : Activation J → List (List (ActivatedJob String)) → Activation J
  on_all a [] = a
  on_all a (jobs ∷ rest) = on_all (on_data a jobs) rest

  unfoldable pub activate_jobs : StreamCall → Activation J
  activate_jobs rejected_call = rejected
  activate_jobs no_stream = rejected
  activate_jobs (stream responses) = on_all pending responses

module _ {J : Type 0} (j : Json J) where
  -- What the gateway, or the next call, reads of the variables.
  abbrev pub read_variables : Variables J → Option J
  read_variables (document v) = some v
  read_variables (printed s) = j.parse s

  -- The request of `setVariables` carries the document that the caller gave, as a text, and a second
  -- call with the request that the first one changed sends the same.
  pub set_variables-set_variables :
      (request : SetVariablesRequest J)
      → (read_variables (set_variables j.stringify request).variables
          ≡ read_variables request.variables)
        × (set_variables j.stringify (set_variables j.stringify request)
            ≡ set_variables j.stringify request)
  unfolding set_variables
  set_variables-set_variables request = (
    same_document request.variables,
    ap (λ v. record request { variables = v }) (printed_again request.variables),
  )
    where
      same_document :
          (v : Variables J) → read_variables (printed_variables j.stringify v) ≡ read_variables v
      same_document (document d) = j.parse-stringify d
      same_document (printed s) = refl

      printed_again :
          (v : Variables J)
          → printed_variables j.stringify (printed_variables j.stringify v)
            ≡ printed_variables j.stringify v
      printed_again (document d) = refl
      printed_again (printed s) = refl

module _ {J : Type 0} (parse : String → Option J) where
  settled_stays :
      (a : Activation J) (responses : List (List (ActivatedJob String)))
      → a ≢ pending
      → on_all parse a responses ≡ a
  settled_stays a [] h = refl
  settled_stays pending (jobs ∷ rest) h = absurd (h refl)
  settled_stays crashed (jobs ∷ rest) h = settled_stays crashed rest h
  settled_stays rejected (jobs ∷ rest) h = settled_stays rejected rest h
  settled_stays (resolved earlier) (jobs ∷ rest) h = settled_stays (resolved earlier) rest h

  -- However many responses a stream has, `activateJobs` gives the jobs of the first alone.
  pub activate_jobs-first :
      (jobs : List (ActivatedJob String)) (parsed : List (ActivatedJob J))
      (rest : List (List (ActivatedJob String)))
      → parse_jobs parse jobs ≡ some parsed
      → activate_jobs parse (stream (jobs ∷ rest)) ≡ resolved parsed
  unfolding activate_jobs
  activate_jobs-first jobs parsed rest h =
      rw h (settled_stays (resolved parsed) rest (λ e. ground arith))
