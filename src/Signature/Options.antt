-- ===== src/Signature/Options.antt =====
-- What the decoded signature of src/lib/ZBWorkerSignature.ts holds, and which options the batch
-- worker of src/zb/ZBClient.ts takes from its configuration and which from the client.
use text.Mathlib.Text.{◌==◌}
use zeebe_client_node_js.Base.{
  ℕ, ◌≡◌, refl, ◌||◌, String, if◌then◌else◌, Bool-cases, inl, inr, ap, ◌∙◌,
}
use zeebe_client_node_js.Signature.Values.{
  Value, undefined, null, string, function, object, Fields, end, is_nullish, lookup, set,
  lookup-set,
}
use zeebe_client_node_js.Signature.Clean.{
  clean_empty, clean_value, IsObject, kept, lookup-clean_empty, clean_empty-IsClean,
}
use zeebe_client_node_js.Signature.Fields.{
  lookup-spread, clean_empty-IsObject, has_clean, set-IsObject,
}
use zeebe_client_node_js.Signature.Decode.{
  Signature, decoded, config_options, entries, of_config, or_else, decode_create_zb_worker_sig,
  batch_options,
}

-- What the configuration sets for an option, if anything.
abbrev pub own : String → Fields → Value
own k fs =
    if ("taskType" == k) || (("taskHandler" == k) || ("onReady" == k))
    then undefined
    else kept (clean_value (lookup k fs))

-- What the client passes on to its batch workers.
abbrev pub inherited : Fields → Value → Fields
inherited client loglevel =
    set "onReady" undefined (set "onConnectionError" undefined (set "loglevel" loglevel client))

kept_undefined : kept (clean_value undefined) ≡ undefined
unfolding clean_empty
kept_undefined = refl

kept_null : kept (clean_value null) ≡ undefined
unfolding clean_empty
kept_null = refl

kept_string : (s : String) → kept (clean_value (string s)) ≡ string s
unfolding clean_empty
kept_string s = refl

kept_function : (f : ℕ) → kept (clean_value (function f)) ≡ function f
unfolding clean_empty
kept_function f = refl

kept_object : (p : ℕ) (fs : Fields) → kept (clean_value (object p fs)) ≡ object 0 (clean_empty fs)
unfolding clean_empty
kept_object p fs = refl

lookup-decoded :
    (k : String) (id on_connection_error on_ready options task_handler task_type : Value)
    → lookup k
        (clean_empty (decoded id on_connection_error on_ready options task_handler task_type))
      ≡ kept (
          clean_value
            (lookup k (decoded id on_connection_error on_ready options task_handler task_type)))
lookup-decoded k a b c d e f =
    lookup-clean_empty k (decoded a b c d e f) (refl, (refl, (refl, (refl, (refl, (refl, tt))))))

config_options-own :
    (k : String) (p : ℕ) (fs : Fields)
    → kept (clean_value (lookup k (config_options (object p fs)))) ≡ own k fs
config_options-own k p fs =
    rw
      (
        lookup-set k "taskType" undefined
            (set "taskHandler" undefined (set "onReady" undefined fs)),
        lookup-set k "taskHandler" undefined (set "onReady" undefined fs),
        lookup-set k "onReady" undefined fs,
      )
      (elim (Bool-cases ("taskType" == k)) [
        | inl a ↦ rw a kept_undefined
        | inr a ↦ rw a (elim (Bool-cases ("taskHandler" == k)) [
          | inl b ↦ rw b kept_undefined
          | inr b ↦ rw b (elim (Bool-cases ("onReady" == k)) [
            | inl c ↦ rw c kept_undefined
            | inr c ↦ rw c refl
          ])
        ])
      ])

options_decoded :
    (p : ℕ) (fs : Fields)
    → entries (lookup "options" (decode_create_zb_worker_sig (of_config (object p fs))))
      ≡ clean_empty (config_options (object p fs))
unfolding decode_create_zb_worker_sig
options_decoded p fs = ap entries (
    lookup-decoded "options" (lookup "id" fs) (lookup "onConnectionError" fs) (lookup "onReady" fs)
      (object 0 (config_options (object p fs))) (lookup "taskHandler" fs) (lookup "taskType" fs)
    ∙ kept_object 0 (config_options (object p fs)))

-- A batch worker takes each option from its configuration where the cleaned configuration has
-- one, and otherwise what it inherits: the option of the client, the log level of the client, and
-- never its onReady and onConnectionError; onReady, taskHandler and taskType of the configuration
-- are no options. The configuration is an object with each key once.
pub lookup-batch_options :
    (client : Fields) (loglevel : Value) (p : ℕ) (fs : Fields) (k : String)
    → IsObject fs
    → lookup k (batch_options client loglevel (object p fs))
      ≡ (if is_nullish (own k fs) then lookup k (inherited client loglevel) else own k fs)
unfolding batch_options
lookup-batch_options client loglevel p fs k h =
    let options = config_options (object p fs) in
    let plain =
      set-IsObject _ undefined _
        (set-IsObject _ undefined _ (set-IsObject "onReady" undefined fs h)) in
    rw
      (
        options_decoded p fs,
        lookup-spread k (inherited client loglevel) (clean_empty options)
            (clean_empty-IsObject options plain),
        has_clean k (clean_empty options) (clean_empty-IsClean options),
        lookup-clean_empty k options plain,
        config_options-own k p fs,
      )
      (elim (Bool-cases (is_nullish (own k fs))) [ inl e ↦ rw e refl | inr e ↦ rw e refl ])

-- The two call forms, as the code has them.
abbrev pub shorthand : String → ℕ → Value → Value → Signature
shorthand task_type handler options on_error = record {
  id_or_task_type_or_config = string task_type;
  task_type_or_task_handler = function handler;
  task_handler_or_options = options;
  options_or_on_connection_error = on_error;
  on_connection_error = undefined;
}

abbrev pub longhand : String → String → ℕ → Value → Value → Signature
longhand id task_type handler options on_error = record {
  id_or_task_type_or_config = string id;
  task_type_or_task_handler = string task_type;
  task_handler_or_options = function handler;
  options_or_on_connection_error = options;
  on_connection_error = on_error;
}

-- What both forms decode alike.
abbrev pub Decodes : Signature → Value → Value → Value → Value → Type 0
Decodes sig task_type handler options id =
    (lookup "taskType" (decode_create_zb_worker_sig sig) ≡ task_type)
    × (lookup "taskHandler" (decode_create_zb_worker_sig sig) ≡ handler)
    × (lookup "options" (decode_create_zb_worker_sig sig) ≡ options)
    × (lookup "id" (decode_create_zb_worker_sig sig) ≡ id)

-- The call forms with and without an id decode to the same task type, handler and options; the
-- shorthand form takes the task type for the id, and the form with an id loses it.
pub decode_create_zb_worker_sig_forms :
    (id task_type : String) (handler : ℕ) (options on_error : Value)
    → Decodes
        (shorthand task_type handler options on_error)
        (string task_type)
        (function handler)
        (kept (clean_value (or_else options (object 0 end))))
        (string task_type)
      × Decodes
          (longhand id task_type handler options on_error)
          (string task_type)
          (function handler)
          (kept (clean_value (or_else options (object 0 end))))
          undefined
unfolding decode_create_zb_worker_sig
decode_create_zb_worker_sig_forms id task_type handler options on_error = (
  (
    lookup-decoded "taskType" _ _ _ _ _ _ ∙ kept_string task_type,
    lookup-decoded "taskHandler" _ _ _ _ _ _ ∙ kept_function handler,
    lookup-decoded "options" _ _ _ _ _ _,
    lookup-decoded "id" _ _ _ _ _ _ ∙ kept_string task_type,
  ),
  (
    lookup-decoded "taskType" _ _ _ _ _ _ ∙ kept_string task_type,
    lookup-decoded "taskHandler" _ _ _ _ _ _ ∙ kept_function handler,
    lookup-decoded "options" _ _ _ _ _ _,
    lookup-decoded "id" _ _ _ _ _ _ ∙ kept_null,
  ),
)
