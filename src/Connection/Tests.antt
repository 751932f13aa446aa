-- ===== src/Connection/Tests.antt =====
-- The connection at concrete inputs (src/lib/GrpcClient.ts, src/lib/GrpcMiddleware.ts,
-- src/lib/StatefulLogInterceptor.ts).
use zeebe_client_node_js.Base.{
  ℕ, ◌+◌, ◌≡◌, ◌≢◌, ◌⊎◌, refl, if◌then◌else◌, false, none, some, List, [], ◌∷◌, arith,
}
use zeebe_client_node_js.Connection.Channel.{Signal, event_error, event_ready, new_channel}
use zeebe_client_node_js.Connection.Middleware.{
  connection_error, ready, new_middleware, startup_ends,
}
use zeebe_client_node_js.Connection.LogBuffer.{
  info_level, debug_level, zbclient, info_line, authenticating, established, connection_ready,
  deadline,
}
use zeebe_client_node_js.Connection.Factory.{Connection, new_connection}
use zeebe_client_node_js.Connection.Debounce.{
  Op, ready_at, not_ready_at, fail_fires, apply, no_call, was_ready, was_not_ready, run, debounced,
}
use zeebe_client_node_js.Connection.Calls.{
  GrpcCallStatus, unsettled, receive_status, Streaming, data_event, end_event,
}
use zeebe_client_node_js.Connection.Calls.Timeouts.{
  Move, emits, time_is_up, run_stream, cut_short, over, cut_short_once,
}
use zeebe_client_node_js.Connection.Calls.Settling.{IsKept, Answers, receive_status_lem}
use zeebe_client_node_js.Connection.Gate.{feed, gate_holds}
use zeebe_client_node_js.Connection.Flushing.{error_report}
use zeebe_client_node_js.Connection.Buffering.{
  Entry, info, err, connection_fails, start, ready_flushes, deadline_flushes,
}

abbrev ops : List Op
ops = not_ready_at 5 ∷ ready_at 7 ∷ fail_fires ∷ []

debounced_example :
    (((run (new_channel 3000) no_call ops).0.connected ≡ false)
      ⊎ ((run (new_channel 3000) no_call ops).0.fail_timer ≡ none))
    × (((apply (run (new_channel 3000) no_call ops).0 fail_fires).1 ≡ [])
        ⊎ ((t : ℕ) × ((run (new_channel 3000) no_call ops).1 ≡ was_not_ready t)))
    × (((run (new_channel 3000) no_call ops).0.ready_timer ≡ none)
        ⊎ ((t : ℕ) × ((run (new_channel 3000) no_call ops).1 ≡ was_ready t)
            × ((run (new_channel 3000) no_call ops).0.ready_timer ≡ some (t + 3000))))
debounced_example = debounced 3000 ops

abbrev signals : List Signal
signals = event_error ∷ event_ready ∷ []

gate_holds_example :
    ((feed (new_middleware 6000) signals).1 ≡ [])
    × ((startup_ends (feed (new_middleware 6000) signals).0).1 ≡ ready ∷ [])
    × ((feed (startup_ends (feed (new_middleware 6000) signals).0).0 signals).1
        ≡ connection_error ∷ ready ∷ [])
gate_holds_example = gate_holds 6000 signals signals (omega arith)

abbrev entries : List Entry
entries = info "a" ∷ err "b" ∷ connection_fails ∷ info "c" ∷ []

info-debug : info_level ≢ debug_level
info-debug = ground arith

ready_flushes_example :
    ((start 6000 info_level zbclient entries).1 ≡ info_line authenticating ∷ [])
    × ((connection_ready (start 6000 info_level zbclient entries).0).1
        ≡ info_line established ∷ info_line "a" ∷ info_line "c" ∷ [])
ready_flushes_example = ready_flushes 6000 info_level zbclient entries (omega arith) info-debug

deadline_flushes_example :
    ((start 6000 info_level zbclient entries).1 ≡ info_line authenticating ∷ [])
    × ((deadline (start 6000 info_level zbclient entries).0).1
        ≡ error_report info_level zbclient ("b" ∷ []))
    × ((connection_ready (deadline (start 6000 info_level zbclient entries).0).0).1 ≡ [])
deadline_flushes_example =
    deadline_flushes 6000 info_level zbclient entries (omega arith) info-debug

abbrev connection : Connection
unfolding new_connection
connection = (new_connection 6000 3000 info_level zbclient).0

-- A call that the gateway answers with CANCELLED for a bad gateway.
abbrev bad_gateway_status : GrpcCallStatus
bad_gateway_status = record { code = 1; details = "Received HTTP status code 503" }

receive_status_lem_example :
    (IsKept bad_gateway_status (new_channel 3000)
      × ((receive_status 5 bad_gateway_status (new_channel 3000)).0 ≡ new_channel 3000)
      × ((receive_status 5 bad_gateway_status (new_channel 3000)).2 ≡ unsettled))
    ⊎ (¬ IsKept bad_gateway_status (new_channel 3000)
        × Answers 5 bad_gateway_status
            (new_channel 3000)
            (receive_status 5 bad_gateway_status (new_channel 3000)))
receive_status_lem_example = receive_status_lem 5 bad_gateway_status (new_channel 3000)

-- A stream that gives a response and is then silent until its time is up.
abbrev streaming : Streaming
streaming = record { channel = new_channel 3000; timeout = some 31000 }

abbrev silent : List (ℕ × Move)
silent = (100, emits data_event) ∷ (31000, time_is_up) ∷ (31005, emits end_event) ∷ []

cut_short_once_example :
    ((run_stream "localhost" streaming silent).1
      ≡ (if cut_short silent then end_event ∷ [] else []))
    × ((run_stream "localhost" streaming silent).0.timeout
        ≡ (if over silent then none else some 31000))
cut_short_once_example = cut_short_once "localhost" streaming 31000 silent refl
