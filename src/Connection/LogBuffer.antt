-- ===== src/Connection/LogBuffer.antt =====
-- The log buffer of a connection (src/lib/StatefulLogInterceptor.ts). `info` and `error` hold the
-- arrays that the properties `logs` and `errors` had at construction; a flush gives a property a new
-- array, so each property is the held array or an empty one.
use zeebe_client_node_js.Base.{
  ℕ, Bool, true, false, List, [], ◌∷◌, ◌++◌, if◌then◌else◌, ltb, not, ◌&&◌, String,
}
use zeebe_client_node_js.Connection.Middleware.{State, error, connected}

-- `Loglevel`
pub data Loglevel : Type 0 where
  info_level debug_level none_level error_level : Loglevel

-- `_tag`
pub data Tag : Type 0 where
  zbclient zbworker : Tag

-- A line that the logger behind the interceptor writes.
pub data Line : Type 0 where
  info_line error_line : String → Line

-- What `ZBLogger.info` and `ZBLogger.error` write at each level, of lines that they are called for.
abbrev pub shown : Loglevel → List Line → List Line
shown info_level lines = lines
shown debug_level lines = lines
shown none_level lines = []
shown error_level lines = []

abbrev pub shown_errors : Loglevel → List Line → List Line
shown_errors info_level lines = lines
shown_errors debug_level lines = lines
shown_errors none_level lines = []
shown_errors error_level lines = lines

-- `loglevel` is the level of the logger.
pub record Interceptor : Type 0 where
  pub loglevel : Loglevel
  pub tag : Tag
  pub blocking : Bool
  pub state : State
  pub initial_connection : Bool
  pub held_logs : List String
  pub held_errors : List String
  pub logs_replaced : Bool
  pub errors_replaced : Bool
  pub blocking_timer : Bool

abbrev is_debug : Loglevel → Bool
is_debug debug_level = true
is_debug _ = false

-- `logDirect`
abbrev pub direct : Loglevel → Tag → String → List Line
direct level zbclient text = shown level (info_line text ∷ [])
direct level zbworker text = []

abbrev pub authenticating : String
authenticating = "Authenticating client with Camunda Cloud..."

abbrev pub established : String
established = "Established encrypted connection to Camunda Cloud."

abbrev pub failed_to_connect : String
failed_to_connect = "Error connecting to Camunda Cloud."

-- The constructor.
unfoldable pub new_interceptor : ℕ → Loglevel → Tag → Interceptor × List Line
new_interceptor startup_time level tag =
    let blocking = ltb 0 startup_time && not (is_debug level) in
    (
      record {
        loglevel = level;
        tag = tag;
        blocking = blocking;
        state = error;
        initial_connection = false;
        held_logs = [];
        held_errors = [];
        logs_replaced = false;
        errors_replaced = false;
        blocking_timer = blocking;
      },
      if blocking then direct level tag authenticating else [],
    )

-- The properties `logs` and `errors`.
abbrev pub logs : Interceptor → List String
logs s = if s.logs_replaced then [] else s.held_logs

abbrev pub errors : Interceptor → List String
errors s = if s.errors_replaced then [] else s.held_errors

abbrev pub is_error : State → Bool
is_error error = true
is_error _ = false

-- `logInfo` and `logError`, by `wrap`.
unfoldable pub log_info : Interceptor → String → Interceptor × List Line
log_info s msg =
    if s.blocking && is_error s.state
    then (record s { held_logs = s.held_logs ++ msg ∷ [] }, [])
    else (s, shown s.loglevel (info_line msg ∷ []))

unfoldable pub log_error : Interceptor → String → Interceptor × List Line
log_error s msg =
    if s.blocking && is_error s.state
    then (record s { held_errors = s.held_errors ++ msg ∷ [] }, [])
    else (s, shown_errors s.loglevel (error_line msg ∷ []))

-- `forEach` over a buffer.
abbrev pub each :
    (Interceptor → String → Interceptor × List Line)
    → Interceptor
    → List String
    → Interceptor × List Line
each log s [] = (s, [])
each log s (msg ∷ rest) =
    let (s₁, first) = log s msg in let (s₂, later) = each log s₁ rest in (s₂, first ++ later)

-- `emptyErrors`
unfoldable pub empty_errors : Interceptor → Interceptor × List Line
empty_errors s = elim (errors s) [
  | [] ↦ (s, [])
  | msg ∷ rest ↦
      let (s', lines) = each log_error s (msg ∷ rest) in
      (record s' { errors_replaced = true }, lines ++ direct s'.loglevel s'.tag failed_to_connect)
]

-- The greeting of `emptyLogs`, on the first connection only.
abbrev pub greet : Interceptor → Interceptor × List Line
greet s =
    if s.initial_connection
    then (s, [])
    else (record s { initial_connection = true }, direct s.loglevel s.tag established)

abbrev pub flush_logs : Interceptor → Interceptor × List Line
flush_logs s = elim (logs s) [
  | [] ↦ (s, [])
  | msg ∷ rest ↦
      let (s', lines) = each log_info s (msg ∷ rest) in (record s' { logs_replaced = true }, lines)
]

-- `emptyLogs`
unfoldable pub empty_logs : Interceptor → Interceptor × List Line
empty_logs s =
    let (s₁, greeting) = greet s in let (s₂, lines) = flush_logs s₁ in (s₂, greeting ++ lines)

-- The callback of the constructor's timer.
unfoldable pub deadline : Interceptor → Interceptor × List Line
unfolding empty_errors empty_logs
deadline s =
    let s' = record s { blocking = false; blocking_timer = false } in
    if s.blocking
    then (if is_error s.state then empty_errors s' else empty_logs s')
    else (record s { blocking_timer = false }, [])

-- `connectionError` and `ready`
unfoldable pub connection_failed : Interceptor → Interceptor
connection_failed s = record s { state = error }

unfoldable pub connection_ready : Interceptor → Interceptor × List Line
unfolding empty_logs
connection_ready s =
    if s.blocking
    then empty_logs (record s { state = connected; blocking = false })
    else (record s { state = connected }, [])

-- `close`
unfoldable pub close_interceptor : Interceptor → Interceptor
close_interceptor s = record s { blocking_timer = false }
