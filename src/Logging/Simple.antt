-- ===== src/Logging/Simple.antt =====
-- `ZBSimpleLogger` of src/lib/SimpleLogger.ts. `JSON.parse`, `JSON.stringify`, the way a template
-- writes a value, and the time and the stack of the call are parameters.
use Prim.Native.String.{◌++◌}
use text.Mathlib.Text.{◌==◌}
use zeebe_client_node_js.Base.{Bool, true, false, Option, none, some, String, if◌then◌else◌}
use zeebe_client_node_js.Signature.Values.{Value, undefined, null, string, is_truthy, get}
use zeebe_client_node_js.Signature.Decode.{is_config}

-- The levels that have a logger.
pub data Level : Type 0 where
  level_debug : Level
  level_error : Level
  level_info : Level

abbrev pub name_of : Level → String
name_of level_debug = "DEBUG"
name_of level_error = "ERROR"
name_of level_info = "INFO"

-- A call of `console.info` or `console.error`.
pub data Line : Type 0 where
  console_info : String → Line
  console_error : String → Line

abbrev pub is_text : String → Value → Bool
is_text s (string t) = t == s
is_text s _ = false

-- Reading a property of `null` throws.
abbrev pub readable : Value → Bool
readable null = false
readable undefined = false
readable _ = true

module _ (parse : String → Option Value) (stringify shown : Value → String) where
  -- The message that the parsed text describes.
  unfoldable pub describe : Level → Value → String
  describe level parsed =
      let channel = if is_text "gRPC Channel" (get "id" parsed) then " [gRPC Channel]:" else "" in
      let task_type =
        if is_truthy (get "taskType" parsed)
        then " [" ++ shown (get "taskType" parsed) ++ "]"
        else "" in
      let msg =
        if is_config (get "message" parsed)
        then stringify (get "message" parsed)
        else shown (get "message" parsed) in
      "| zeebe | " ++ channel ++ task_type ++ " " ++ name_of level ++ ": " ++ msg

  -- A text that is not JSON, or has no properties, stays as it is.
  abbrev pub described_or : Level → String → Option Value → String
  described_or level log_message none = log_message
  described_or level log_message (some parsed) =
      if readable parsed then describe level parsed else log_message

  unfoldable pub message_of : Level → String → String
  message_of level log_message = described_or level log_message (parse log_message)

  unfoldable pub logger : String → String → Level → String → Line
  unfolding message_of
  logger time stack level_debug log_message =
      console_info (time ++ " " ++ message_of level_debug log_message ++ "\n" ++ stack)
  logger time stack level_error log_message =
      console_error (time ++ " " ++ message_of level_error log_message)
  logger time stack level_info log_message =
      console_info (time ++ " " ++ message_of level_info log_message)
