-- ===== src/Logging/Logger.antt =====
-- `ZBLogger` of src/lib/ZBLogger.ts. The serialisation of a message, the colours, the stack frame and
-- the conversion of a duration are parameters; the time of day is part of the serialisation.
use text.Mathlib.Text.{◌==◌}
use zeebe_client_node_js.Base.{
  ℕ, zero, suc, Bool, true, ◌||◌, not, Option, none, some, List, [], ◌∷◌, String, if◌then◌else◌,
  or_string,
}
use zeebe_client_node_js.Bpmn.Names.{join}

pub data Namespace : Type 0 where
  single : String → Namespace
  parts : List String → Namespace

pub data Tag : Type 0 where
  zbclient : Tag
  zbworker : Tag

-- A number of milliseconds, or a duration with its unit.
pub data Interval : Type 0 where
  milliseconds : ℕ → Interval
  duration : String → ℕ → Interval

pub record LoggerConfig : Type 0 where
  pub loglevel : Option String
  pub color : Option (String → String)
  pub id : Option String
  pub namespace : Option Namespace
  pub is_console : Bool
  pub task_type : Option String
  pub colorise : Option Bool
  pub poll_interval : Option Interval
  pub tag : Tag

pub record Logger : Type 0 where
  pub tag : Tag
  pub loglevel : String
  pub color_fn : String → String
  pub task_type : Option String
  pub id : Option String
  pub is_console : Bool
  pub colorise : Bool
  pub poll_interval : Option ℕ
  pub namespace : Option String

-- What `makeMessage` serialises. `data` holds the optional parameters as one element.
pub record Message (J : Type 0) : Type 0 where
  pub context : String
  pub id : Option String
  pub level : ℕ
  pub message : J
  pub poll_interval : Option ℕ
  pub namespace : Option String
  pub task_type : Option String
  pub data' : Option (List (List J))

abbrev pub namespace_of : Option Namespace → Option String
namespace_of none = none
namespace_of (some (single n)) = some n
namespace_of (some (parts ns)) = some (join " " ns)

abbrev pub interval_of : (String → ℕ → ℕ) → Option Interval → Option ℕ
interval_of from none = none
interval_of from (some (milliseconds n)) = some n
interval_of from (some (duration u n)) = some (from u n)

abbrev pub level_of : Option String → String
level_of (some l) = l
level_of none = "INFO"

-- The constructor; the first argument is the log level of the environment.
unfoldable pub new_logger : (String → ℕ → ℕ) → Option String → LoggerConfig → Logger
new_logger from env config = record {
  tag = config.tag;
  loglevel = level_of (or_string env (or_string config.loglevel none));
  color_fn = elim config.color [ none ↦ λ m. m | some f ↦ f ];
  task_type = config.task_type;
  id = config.id;
  is_console = config.is_console;
  colorise = elim config.colorise [ none ↦ true | some b ↦ b ];
  poll_interval = interval_of from config.poll_interval;
  namespace = namespace_of config.namespace;
}

-- A key that is set if its value is truthy.
abbrev pub truthy_text : Option String → Option String
truthy_text t = or_string t none

abbrev pub truthy_number : Option ℕ → Option ℕ
truthy_number none = none
truthy_number (some zero) = none
truthy_number (some (suc n)) = some (suc n)

abbrev pub data_of : {J : Type 0} → List (List J) → Option (List (List J))
data_of [] = none
data_of (p ∷ ps) = some (p ∷ ps)

-- `makeMessage`, before it is serialised.
unfoldable pub make_message : {J : Type 0} → Logger → String → ℕ → J → List (List J) → Message J
make_message logger frame level message optional_parameters = record {
  context = frame;
  id = logger.id;
  level = level;
  message = message;
  poll_interval = truthy_number logger.poll_interval;
  namespace = truthy_text logger.namespace;
  task_type = truthy_text logger.task_type;
  data' = data_of optional_parameters;
}

-- `_colorise`
abbrev pub colorise : Logger → String → String
colorise logger message = if logger.colorise then logger.color_fn message else message

-- A call of a method of `stdout`.
pub data Output : Type 0 where
  to_info : String → Output
  to_error : String → Output

module _ {J : Type 0} where
  -- The parameters of a call, as `makeMessage` gets them: their array, or nothing.
  abbrev pub rest_of : List J → List (List J)
  rest_of [] = []
  rest_of (p ∷ ps) = (p ∷ ps) ∷ []

  -- The methods; `none` is a return before anything is written.
  module _ (stringify : Message J → String) (logger : Logger) (frame : String) where
    unfoldable pub info : J → List J → Option Output
    unfolding make_message
    info message parameters =
        if (logger.loglevel == "NONE") || (logger.loglevel == "ERROR")
        then none
        else some (to_info (stringify (make_message logger frame 30 message (rest_of parameters))))

    unfoldable pub error : J → List J → Option Output
    unfolding make_message
    error message parameters =
        if logger.loglevel == "NONE"
        then none
        else some (to_error (stringify (make_message logger frame 50 message (rest_of parameters))))

    unfoldable pub debug : J → List J → Option Output
    unfolding make_message
    debug message parameters =
        let msg = stringify (make_message logger frame 20 message (rest_of parameters)) in
        if not (logger.loglevel == "DEBUG")
        then none
        else if logger.is_console
        then some (to_info (colorise logger msg))
        else some (to_info msg)

    unfoldable pub log : J → List J → Option Output
    unfolding make_message
    log message parameters =
        if (logger.loglevel == "NONE") || (logger.loglevel == "ERROR")
        then none
        else some (to_info (stringify (make_message logger frame 30 message (rest_of parameters))))
