-- ===== src/Signature/Decode.antt =====
-- `decodeCreateZBWorkerSig` of src/lib/ZBWorkerSignature.ts, and the options of `createBatchWorker`
-- in src/zb/ZBClient.ts.
use zeebe_client_node_js.Base.{Bool, true, false, if◌then◌else◌, ◌&&◌}
use zeebe_client_node_js.Signature.Values.{
  Value, undefined, null, function, array, object, Fields, end, field, is_truthy, lookup, get, set,
  spread,
}
use zeebe_client_node_js.Signature.Clean.{clean_empty}

-- The arguments, by the names that the code gives them.
pub record Signature : Type 0 where
  pub id_or_task_type_or_config : Value
  pub task_type_or_task_handler : Value
  pub task_handler_or_options : Value
  pub options_or_on_connection_error : Value
  pub on_connection_error : Value

-- `typeof config === 'object'`
abbrev pub is_config : Value → Bool
is_config null = true
is_config (array fs) = true
is_config (object p fs) = true
is_config _ = false

abbrev pub is_function : Value → Bool
is_function (function f) = true
is_function _ = false

-- `a || b`
abbrev pub or_else : Value → Value → Value
or_else a b = if is_truthy a then a else b

-- `{ ...v }`
abbrev pub entries : Value → Fields
entries (array fs) = fs
entries (object p fs) = fs
entries _ = end

-- The properties of the decoded signature.
abbrev pub decoded : Value → Value → Value → Value → Value → Value → Fields
decoded id on_connection_error on_ready options task_handler task_type = field "id" id (
    field "onConnectionError" on_connection_error (
      field "onReady" on_ready (
        field "options" options
          (field "taskHandler" task_handler (field "taskType" task_type end)))))

abbrev pub config_options : Value → Fields
config_options conf =
    set "taskType" undefined (set "taskHandler" undefined (set "onReady" undefined (entries conf)))

unfoldable pub decode_create_zb_worker_sig : Signature → Fields
decode_create_zb_worker_sig config =
    let conf = config.id_or_task_type_or_config in
    let shorthand = is_function config.task_type_or_task_handler in
    let options =
      or_else
        (if shorthand
          then config.task_handler_or_options
          else config.options_or_on_connection_error)
        (object 0 end) in
    clean_empty (
      if is_config conf && is_truthy conf
      then decoded (get "id" conf) (get "onConnectionError" conf) (get "onReady" conf)
          (object 0 (config_options conf)) (get "taskHandler" conf) (get "taskType" conf)
      else decoded (if shorthand then conf else null)
          (if shorthand
            then config.options_or_on_connection_error
            else or_else (or_else config.on_connection_error (get "onConnectionError" options))
                config.on_connection_error)
          (get "onReady" options) options
          (if shorthand then config.task_type_or_task_handler else config.task_handler_or_options)
          (if shorthand then conf else config.task_type_or_task_handler))

-- What `createBatchWorker` passes on: a configuration alone.
abbrev pub of_config : Value → Signature
of_config conf = record {
  id_or_task_type_or_config = conf;
  task_type_or_task_handler = undefined;
  task_handler_or_options = undefined;
  options_or_on_connection_error = undefined;
  on_connection_error = undefined;
}

-- `options` of `createBatchWorker`, from the client's options and log level.
unfoldable pub batch_options : Fields → Value → Value → Fields
unfolding decode_create_zb_worker_sig
batch_options client loglevel conf =
    spread
      (set "onReady" undefined (set "onConnectionError" undefined (set "loglevel" loglevel client)))
      (entries (lookup "options" (decode_create_zb_worker_sig (of_config conf))))
