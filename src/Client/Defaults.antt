-- ===== src/Client/Defaults.antt =====
-- The options that the constructor of src/zb/ZBClient.ts fills in, with the loggers that the client
-- gives to itself and to its workers (src/lib/ZBLogger.ts).
use text.Mathlib.Text.{◌==◌}
use zeebe_client_node_js.Base.{
  ℕ, ◌≡◌, refl, Bool, true, Option, none, some, String, if◌then◌else◌, nullish, nullish_option,
  or_string,
}
use zeebe_client_node_js.Logging.Logger.{LoggerConfig, new_logger, level_of}

-- `stdout`: the caller's, or one of the loggers of the package.
pub data Stdout : Type 0 where
  custom : ℕ → Stdout
  json_logger : Stdout
  simple_logger : Stdout

-- `logTypeFromEnvironment`
abbrev pub log_type : Option String → Option Stdout
log_type none = none
log_type (some t) =
    if t == "JSON" then some json_logger else if t == "SIMPLE" then some simple_logger else none

pub record ConstructorOptions : Type 0 where
  pub long_poll : Option ℕ
  pub poll_interval : Option ℕ
  pub retry : Option Bool
  pub loglevel : Option String
  pub stdout : Option Stdout

-- `constructorOptionsWithDefaults`
pub record WithDefaults : Type 0 where
  pub long_poll : Option ℕ
  pub poll_interval : Option ℕ
  pub retry : Bool
  pub loglevel : String
  pub stdout : Stdout

abbrev is_not_false : Option Bool → Bool
is_not_false none = true
is_not_false (some b) = b

-- From the environment's log level and log type. An option that is set replaces the default.
unfoldable pub constructor_options_with_defaults :
    Option String → Option String → ConstructorOptions → WithDefaults
constructor_options_with_defaults env_level env_type options = record {
  long_poll = some (nullish options.long_poll 30000);
  poll_interval = some (nullish options.poll_interval 300);
  retry = is_not_false options.retry;
  loglevel = level_of (or_string env_level (or_string options.loglevel none));
  stdout = nullish (nullish_option options.stdout (log_type env_type)) simple_logger;
}

level_text :
    (env option : Option String)
    → level_of
        (or_string env (or_string (some (level_of (or_string env (or_string option none)))) none))
      ≡ level_of (or_string env (or_string option none))
level_text none none = refl
level_text none (some String.[]) = refl
level_text none (some (String.◌∷◌ c s)) = refl
level_text (some String.[]) none = refl
level_text (some String.[]) (some String.[]) = refl
level_text (some String.[]) (some (String.◌∷◌ c s)) = refl
level_text (some (String.◌∷◌ d t)) option = refl

-- A logger that is given the client's log level has that level.
pub new_logger-loglevel :
    (from : String → ℕ → ℕ) (env_level env_type : Option String) (options : ConstructorOptions)
    (config : LoggerConfig)
    → config.loglevel ≡ some (constructor_options_with_defaults env_level env_type options).loglevel
    → (new_logger from env_level config).loglevel
      ≡ (constructor_options_with_defaults env_level env_type options).loglevel
unfolding new_logger constructor_options_with_defaults
new_logger-loglevel from env_level env_type options config h =
    rw h (level_text env_level options.loglevel)
