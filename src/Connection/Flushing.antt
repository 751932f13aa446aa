-- ===== src/Connection/Flushing.antt =====
-- What an interceptor that no longer blocks writes of the lines that it holds
-- (src/lib/StatefulLogInterceptor.ts).
use zeebe_client_node_js.Base.{
  ◌≡◌, refl, sym, ap, true, false, List, [], ◌∷◌, ◌++◌, map, arith, String,
}
use zeebe_client_node_js.Connection.LogBuffer.{
  Loglevel, info_level, debug_level, none_level, error_level, shown, shown_errors, Tag, Line,
  info_line, error_line, Interceptor, direct, established, failed_to_connect, log_info, log_error,
  each, empty_errors, empty_logs,
}

shown-cons :
    (level : Loglevel) (line : Line) (lines : List Line)
    → shown level (line ∷ []) ++ shown level lines ≡ shown level (line ∷ lines)
shown-cons info_level line lines = refl
shown-cons debug_level line lines = refl
shown-cons none_level line lines = refl
shown-cons error_level line lines = refl

shown_errors-cons :
    (level : Loglevel) (line : Line) (lines : List Line)
    → shown_errors level (line ∷ []) ++ shown_errors level lines ≡ shown_errors level (line ∷ lines)
shown_errors-cons info_level line lines = refl
shown_errors-cons debug_level line lines = refl
shown_errors-cons none_level line lines = refl
shown_errors-cons error_level line lines = refl

shown-nil : (level : Loglevel) → shown level [] ≡ []
shown-nil info_level = refl
shown-nil debug_level = refl
shown-nil none_level = refl
shown-nil error_level = refl

shown_errors-nil : (level : Loglevel) → shown_errors level [] ≡ []
shown_errors-nil info_level = refl
shown_errors-nil debug_level = refl
shown_errors-nil none_level = refl
shown_errors-nil error_level = refl

each-log_info :
    (s : Interceptor) (msgs : List String)
    → s.blocking ≡ false
    → each log_info s msgs ≡ (s, shown s.loglevel (map info_line msgs))
unfolding log_info
each-log_info s [] h = ap (λ lines. (s, lines)) (sym (shown-nil s.loglevel))
each-log_info s (msg ∷ rest) h =
    ground
      (arith, each-log_info s rest h, shown-cons s.loglevel (info_line msg) (map info_line rest))

pub each-log_error :
    (s : Interceptor) (msgs : List String)
    → s.blocking ≡ false
    → each log_error s msgs ≡ (s, shown_errors s.loglevel (map error_line msgs))
unfolding log_error
each-log_error s [] h = ap (λ lines. (s, lines)) (sym (shown_errors-nil s.loglevel))
each-log_error s (msg ∷ rest) h = ground (
  arith,
  each-log_error s rest h,
  shown_errors-cons s.loglevel (error_line msg) (map error_line rest),
)

-- What a flush of the errors writes.
abbrev pub error_report : Loglevel → Tag → List String → List Line
error_report level tag [] = []
error_report level tag (msg ∷ rest) =
    shown_errors level (map error_line (msg ∷ rest)) ++ direct level tag failed_to_connect

pub empty_errors_lem :
    (s : Interceptor)
    → s.blocking ≡ false
    → s.errors_replaced ≡ false
    → (empty_errors s).1 ≡ error_report s.loglevel s.tag s.held_errors
unfolding empty_errors
empty_errors_lem s b r = ground (arith, each-log_error s s.held_errors b)

pub empty_logs_lem :
    (s : Interceptor)
    → s.blocking ≡ false
    → s.logs_replaced ≡ false
    → s.initial_connection ≡ false
    → (empty_logs s).1
      ≡ direct s.loglevel s.tag established ++ shown s.loglevel (map info_line s.held_logs)
unfolding empty_logs
empty_logs_lem s b r i =
    ground (arith, each-log_info (record s { initial_connection = true }) s.held_logs b)
