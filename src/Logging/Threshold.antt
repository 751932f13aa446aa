-- ===== src/Logging/Threshold.antt =====
-- Which calls of src/lib/ZBLogger.ts write, and what.
use text.Mathlib.Text.{◌==◌}
use text.Mathlib.TextEquality.{eq_iff}
use zeebe_client_node_js.Base.{
  ℕ, ◌≡◌, refl, true, false, Option, none, some, List, String, if◌then◌else◌, arith, leb, subst,
  sym,
}
use zeebe_client_node_js.Logging.Logger
use zeebe_client_node_js.Logging.Logger.{Message, Output, to_info, to_error, make_message, rest_of}

pub data Method : Type 0 where
  info_call : Method
  error_call : Method
  debug_call : Method
  log_call : Method

-- The number that stands in the messages of a method.
abbrev pub severity : Method → ℕ
severity info_call = 30
severity error_call = 50
severity debug_call = 20
severity log_call = 30

-- The least number that a log level lets through.
abbrev pub threshold : String → ℕ
threshold level =
    if level == "NONE"
    then 60
    else if level == "ERROR"
    then 50
    else if level == "DEBUG"
    then 20
    else 30

distinct :
    (level : String)
    → (level == "DEBUG") ≡ true
    → ((level == "NONE") ≡ false) × ((level == "ERROR") ≡ false)
distinct level h =
    subst (λ l. ((l == "NONE") ≡ false) × ((l == "ERROR") ≡ false))
      (sym ((eq_iff level "DEBUG").0 h)) (refl, refl)

module _ {J : Type 0} (stringify : Message J → String) (logger : Logger.Logger)
    (frame : String) where
  abbrev pub call : Method → J → List J → Option Output
  call info_call message parameters = Logger.info stringify logger frame message parameters
  call error_call message parameters = Logger.error stringify logger frame message parameters
  call debug_call message parameters = Logger.debug stringify logger frame message parameters
  call log_call message parameters = Logger.log stringify logger frame message parameters

  -- The text that goes to `stdout`: coloured only for `debug` on the console.
  abbrev pub written : Method → J → List J → Output
  written error_call message parameters =
      to_error (stringify (make_message logger frame 50 message (rest_of parameters)))
  written debug_call message parameters =
      let msg = stringify (make_message logger frame 20 message (rest_of parameters)) in
      to_info (if logger.is_console then Logger.colorise logger msg else msg)
  written m message parameters =
      to_info (stringify (make_message logger frame 30 message (rest_of parameters)))

  -- A call of info, error, debug or log writes exactly when the number in its messages reaches
  -- the threshold of the logger's level (DEBUG 20, ERROR 50, NONE none, any other 30), and then
  -- it writes once, errors to stdout.error and the others to stdout.info.
  pub call-threshold :
      (m : Method) (message : J) (parameters : List J)
      → call m message parameters ≡ (
          if leb (threshold logger.loglevel) (severity m)
          then some (written m message parameters)
          else none)
  unfolding Logger.info Logger.error Logger.debug Logger.log
  call-threshold info_call message parameters = ground (arith, distinct logger.loglevel)
  call-threshold error_call message parameters = ground (arith, distinct logger.loglevel)
  call-threshold debug_call message parameters = ground (arith, distinct logger.loglevel)
  call-threshold log_call message parameters = ground (arith, distinct logger.loglevel)
