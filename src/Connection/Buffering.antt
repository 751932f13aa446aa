-- ===== src/Connection/Buffering.antt =====
-- What becomes of the lines that are logged before a connection stands
-- (src/lib/StatefulLogInterceptor.ts).
use zeebe_client_node_js.Base.{
  ℕ, ◌<◌, ◌≡◌, refl, true, false, List, [], ◌∷◌, ◌++◌, map, arith, String, ◌≢◌,
}
use mathlib.Core.List.{append-nil, append_assoc}
use zeebe_client_node_js.Connection.Middleware.{error, connected}
use zeebe_client_node_js.Connection.Flushing.{
  each-log_error, error_report, empty_errors_lem, empty_logs_lem,
}
use zeebe_client_node_js.Connection.LogBuffer.{
  Loglevel, debug_level, Tag, Line, shown, authenticating, info_line, Interceptor, direct,
  established, new_interceptor, log_info, log_error, deadline, connection_failed, connection_ready,
}

-- What reaches the interceptor before the connection is ready.
pub data Entry : Type 0 where
  info err : String → Entry
  connection_fails : Entry

pub enter : Interceptor → Entry → Interceptor × List Line
enter s (info msg) = log_info s msg
enter s (err msg) = log_error s msg
enter s connection_fails = (connection_failed s, [])

pub enter_all : Interceptor → List Entry → Interceptor × List Line
enter_all s [] = (s, [])
enter_all s (e ∷ rest) =
    let (s₁, first) = enter s e in let (s₂, later) = enter_all s₁ rest in (s₂, first ++ later)

abbrev pub infos : List Entry → List String
infos [] = []
infos (info msg ∷ rest) = msg ∷ infos rest
infos (_ ∷ rest) = infos rest

abbrev pub errs : List Entry → List String
errs [] = []
errs (err msg ∷ rest) = msg ∷ errs rest
errs (_ ∷ rest) = errs rest

-- An interceptor that holds lines back.
record IsHolding (s : Interceptor) : Type 0 where
  blocking : s.blocking ≡ true
  state : s.state ≡ error
  greeting : s.initial_connection ≡ false
  same_logs : s.logs_replaced ≡ false
  same_errors : s.errors_replaced ≡ false

abbrev hold : Interceptor → List String → List String → Interceptor
hold s more_logs more_errors = record s {
  held_logs = s.held_logs ++ more_logs;
  held_errors = s.held_errors ++ more_errors;
}

log_info_holding :
    (s : Interceptor) (msg : String)
    → IsHolding s
    → log_info s msg ≡ (record s { held_logs = s.held_logs ++ msg ∷ [] }, [])
unfolding log_info
log_info_holding s msg h = ground arith

log_error_holding :
    (s : Interceptor) (msg : String)
    → IsHolding s
    → log_error s msg ≡ (record s { held_errors = s.held_errors ++ msg ∷ [] }, [])
unfolding log_error
log_error_holding s msg h = ground arith

connection_failed_holding : (s : Interceptor) → IsHolding s → connection_failed s ≡ s
unfolding connection_failed
connection_failed_holding s h = ground arith

more_logs-IsHolding :
    (s : Interceptor) (l : List String) → IsHolding s → IsHolding (record s { held_logs = l })
more_logs-IsHolding s l h = ground arith

more_errors-IsHolding :
    (s : Interceptor) (l : List String) → IsHolding s → IsHolding (record s { held_errors = l })
more_errors-IsHolding s l h = ground arith

enter_all_holding :
    (s : Interceptor) (entries : List Entry)
    → IsHolding s
    → enter_all s entries ≡ (hold s (infos entries) (errs entries), [])
unfolding enter_all enter
enter_all_holding s [] h = rw (append-nil, append-nil)
enter_all_holding s (info msg ∷ rest) h = rw (log_info_holding s msg h) (
    rw (enter_all_holding _ rest (more_logs-IsHolding s (s.held_logs ++ msg ∷ []) h), append_assoc))
enter_all_holding s (err msg ∷ rest) h = rw (log_error_holding s msg h) (
    rw (
      enter_all_holding _ rest (more_errors-IsHolding s (s.held_errors ++ msg ∷ []) h),
      append_assoc,
    ))
enter_all_holding s (connection_fails ∷ rest) h =
    rw (connection_failed_holding s h) (enter_all_holding s rest h)

ready_of_holding :
    (s : Interceptor)
    → IsHolding s
    → (connection_ready s).1
      ≡ direct s.loglevel s.tag established ++ shown s.loglevel (map info_line s.held_logs)
unfolding connection_ready
ready_of_holding s h =
    let s' = record s { state = connected; blocking = false } in
    rw h.blocking (empty_logs_lem s' refl h.same_logs h.greeting)

deadline_of_holding :
    (s : Interceptor) → IsHolding s → (deadline s).1 ≡ error_report s.loglevel s.tag s.held_errors
unfolding deadline
deadline_of_holding s h =
    let s' = record s { blocking = false; state = error; blocking_timer = false } in
    rw (h.blocking, h.state) (empty_errors_lem s' refl h.same_errors)

deadline_opens : (s : Interceptor) → IsHolding s → (deadline s).0.blocking ≡ false
unfolding deadline
deadline_opens s h =
    let s' = record s { blocking = false; blocking_timer = false } in
    ground (arith, each-log_error s' s.held_errors refl)

ready_when_open : (s : Interceptor) → s.blocking ≡ false → (connection_ready s).1 ≡ []
unfolding connection_ready
ready_when_open s h = ground arith

hold-IsHolding : (s : Interceptor) (l m : List String) → IsHolding s → IsHolding (hold s l m)
hold-IsHolding s l m h = ground arith

new_interceptor-IsHolding :
    (startup_time : ℕ) (level : Loglevel) (tag : Tag)
    → 0 < startup_time
    → level ≢ debug_level
    → IsHolding (new_interceptor startup_time level tag).0
unfolding new_interceptor
new_interceptor-IsHolding startup_time level tag t l = ground arith

-- From the constructor on: all that is written up to now.
pub start : ℕ → Loglevel → Tag → List Entry → Interceptor × List Line
start startup_time level tag entries =
    let (s, first) = new_interceptor startup_time level tag in
    let (s', lines) = enter_all s entries in (s', first ++ lines)

blocked_from_start :
    (startup_time : ℕ) (level : Loglevel) (tag : Tag)
    → 0 < startup_time
    → level ≢ debug_level
    → (new_interceptor startup_time level tag).1 ≡ direct level tag authenticating
unfolding new_interceptor
blocked_from_start startup_time level tag t l = ground arith

started :
    (startup_time : ℕ) (level : Loglevel) (tag : Tag) (entries : List Entry)
    → 0 < startup_time
    → level ≢ debug_level
    → start startup_time level tag entries ≡ (
      hold (new_interceptor startup_time level tag).0 (infos entries) (errs entries),
      direct level tag authenticating,
    )
unfolding start
started startup_time level tag entries t l =
    rw
      (
        enter_all_holding _ entries (new_interceptor-IsHolding startup_time level tag t l),
        blocked_from_start startup_time level tag t l,
        append-nil,
      )
      refl

-- With a start-up time and a log level other than DEBUG, all that is written before the connection is
-- ready is the line with which a client says that it authenticates; when it becomes ready in time, the
-- greeting of the client is written, then every information line that was logged so far, in order.
-- Errors that were logged are not written. At the levels NONE and ERROR nothing of this is written.
pub ready_flushes :
    (startup_time : ℕ) (level : Loglevel) (tag : Tag) (entries : List Entry)
    → 0 < startup_time
    → level ≢ debug_level
    → let (s, lines) = start startup_time level tag entries in
      (lines ≡ direct level tag authenticating)
      × ((connection_ready s).1
          ≡ direct level tag established ++ shown level (map info_line (infos entries)))
unfolding new_interceptor
ready_flushes startup_time level tag entries t l =
    let h =
      hold-IsHolding _ (infos entries) (errs entries)
        (new_interceptor-IsHolding startup_time level tag t l) in
    rw (started startup_time level tag entries t l) (refl, ready_of_holding _ h)

-- With a start-up time and a log level other than DEBUG: when the start-up time ends before the
-- connection is ready, every error that was logged so far is written, in order, with a closing line of the
-- client; the information lines are not written, then or when the connection becomes ready later. At the
-- level ERROR the closing line is not written, and at the level NONE nothing is.
pub deadline_flushes :
    (startup_time : ℕ) (level : Loglevel) (tag : Tag) (entries : List Entry)
    → 0 < startup_time
    → level ≢ debug_level
    → let (s, lines) = start startup_time level tag entries in
      let (s', report) = deadline s in
      (lines ≡ direct level tag authenticating)
      × (report ≡ error_report level tag (errs entries))
      × ((connection_ready s').1 ≡ [])
unfolding new_interceptor
deadline_flushes startup_time level tag entries t l =
    let h =
      hold-IsHolding _ (infos entries) (errs entries)
        (new_interceptor-IsHolding startup_time level tag t l) in
    rw (started startup_time level tag entries t l)
      (refl, deadline_of_holding _ h, ready_when_open _ (deadline_opens _ h))
