-- ===== src/Connection/Channel.antt =====
-- The ready and fail timers of the gRPC client, its calls and its `close` (src/lib/GrpcClient.ts).
-- A pending timer is the time at which it fires; times are milliseconds. Log signals are left out.
use Prim.Native.String
use zeebe_client_node_js.Base.{
  ℕ, ◌+◌, Bool, true, false, Option, none, some, List, [], ◌∷◌, ◌++◌, if◌then◌else◌, ◌==◌, is_some,
  not, ◌&&◌, ◌||◌, String,
}

-- `MiddlewareSignals.Event`
pub data Signal : Type 0 where
  event_error event_ready grpc_intercept_error : Signal

pub record Channel : Type 0 where
  pub connected : Bool
  pub closing : Bool
  pub channel_closed : Bool
  pub channel_state : ℕ
  pub ready_timer : Option ℕ
  pub fail_timer : Option ℕ
  pub connection_tolerance : ℕ
  pub retry_count : ℕ

-- The constructor.
unfoldable pub new_channel : ℕ → Channel
new_channel tolerance = record {
  connected = false;
  closing = false;
  channel_closed = false;
  channel_state = 0;
  ready_timer = none;
  fail_timer = none;
  connection_tolerance = tolerance;
  retry_count = 0;
}

-- `setReady`
unfoldable pub set_ready : ℕ → Channel → Channel
set_ready now c = record c { ready_timer = some (now + c.connection_tolerance) }

-- The callback of the ready timer.
unfoldable pub ready_timer_fires : Channel → Channel × List Signal
ready_timer_fires c =
    (record c { fail_timer = none; ready_timer = none; connected = true }, event_ready ∷ [])

-- `setNotReady`
unfoldable pub set_not_ready : ℕ → Channel → Channel
set_not_ready now c =
    let c' = record c { ready_timer = none; connected = false } in
    if is_some c.fail_timer
    then c'
    else record c' { fail_timer = some (now + c.connection_tolerance) }

-- The callback of the fail timer.
unfoldable pub fail_timer_fires : Channel → Channel × List Signal
fail_timer_fires c =
    if is_some c.ready_timer
    then (record c { fail_timer = none }, [])
    else (record c { fail_timer = none; connected = false }, event_error ∷ [])

-- What a call of `client[methodName]` for a stream does: throw, give no stream, or give one.
pub data StreamCall : Type 0 where
  throws no_stream gives_stream : StreamCall

-- What `${methodName}Stream` returns: `undefined`, `{ error }` or the stream. The client-side timeout
-- of a stream stands beside it.
pub data StreamAnswer : Type 0 where
  short_circuited error_answer : StreamAnswer
  stream : ℕ → StreamAnswer

called : ℕ → ℕ → StreamCall → Channel → Channel × List Signal × StreamAnswer
unfolding set_ready set_not_ready
called now long_poll throws c = (set_not_ready now c, event_error ∷ [], error_answer)
called now long_poll no_stream c = (set_ready now c, [], error_answer)
called now long_poll gives_stream c = (set_ready now c, [], stream (now + (long_poll + 1000)))

-- `${methodName}Stream`: the channel, the signals and the answer. `long_poll` is in milliseconds.
unfoldable pub call_stream : ℕ → ℕ → StreamCall → Channel → Channel × List Signal × StreamAnswer
unfolding called
call_stream now long_poll result c =
    if c.closing then (c, [], short_circuited) else called now long_poll result c

-- The client's own listeners of a stream, for 'error' and 'data'.
unfoldable pub stream_errs : ℕ → Channel → Channel × List Signal
unfolding set_not_ready
stream_errs now c = (set_not_ready now c, event_error ∷ [])

unfoldable pub stream_data : Channel → Channel
stream_data c = record c { retry_count = 0 }

-- What the callback of a unary call is given: an error's code, or a result.
pub data UnaryResult : Type 0 where
  failed : ℕ → UnaryResult
  succeeded : UnaryResult

-- The callback of `${methodName}Sync`: the promise rejects for an error and resolves otherwise.
-- `GrpcError.UNAVAILABLE` is 14.
unfoldable pub sync_result : ℕ → UnaryResult → Channel → Channel × List Signal × Bool
unfolding set_ready set_not_ready
sync_result now (failed code) c =
    (if code == 14 then set_not_ready now c else set_ready now c, [], false)
sync_result now succeeded c = (set_ready now c, event_ready ∷ [], true)

-- What the interceptor does with the status of a call.
pub data Intercepted : Type 0 where
  signalled : Signal → Intercepted
  suppressed passed_on : Intercepted

-- `interceptor`: `has_503` says that the details include '503'.
unfoldable pub intercept : ℕ → Bool → Channel → Intercepted
intercept code has_503 c =
    if not (code == 0) && (code == 1 && has_503)
    then signalled grpc_intercept_error
    else if not (code == 0) && (code == 1 && c.closing)
    then suppressed
    else passed_on

-- What `getConnectivityState` does: give a state, or throw an error. The flag says that the error's
-- text is the one for a closed channel.
pub data Connectivity : Type 0 where
  in_state : ℕ → Connectivity
  raises : Bool → Connectivity

-- How the promise of `close` stands after a piece of it has run.
pub data CloseAnswer : Type 0 where
  resolved pending rejected : CloseAnswer

-- `isClosed`; 4 is `GrpcState.SHUTDOWN`.
abbrev pub is_closed : ℕ → Bool
is_closed state = state == 4

-- The connectivity that was read, and whether the error says that the channel is closed.
abbrev observe : Connectivity → Channel → Channel × Bool
observe (in_state n) c = (record c { channel_state = n }, false)
observe (raises closed_text) c = (c, closed_text)

-- `close`, up to the watch on the channel's state.
unfoldable pub close_channel : Connectivity → Channel → Channel × CloseAnswer
close_channel seen c =
    let (c', closed_text) = observe seen (record c { closing = true }) in
    if is_closed c'.channel_state || closed_text
    then (record c' { channel_closed = true }, resolved)
    else (c', pending)

-- The callback of the watch, and that of the timeout.
unfoldable pub watch_fires : Connectivity → Channel → Channel × CloseAnswer
watch_fires seen c =
    let (c', closed_text) = observe seen c in
    (c', if is_closed c'.channel_state || closed_text then resolved else pending)

unfoldable pub close_times_out : Channel → CloseAnswer
close_times_out c = if is_closed c.channel_state then pending else rejected

abbrev bearer : Option String → List String
bearer none = []
bearer (some t) = String.◌++◌ "Bearer " t ∷ []

abbrev basic_header : (String → String) → Option (String × String) → List String
basic_header base64 none = []
basic_header base64 (some (user, password)) =
    String.◌++◌ "Basic " (base64 (String.◌++◌ user (String.◌++◌ ":" password))) ∷ []

-- `getAuthToken`: the values of the header 'Authorization', in the order in which they are added.
-- `base64` is `Buffer.from(…).toString('base64')`.
unfoldable pub auth_headers :
    (String → String) → Option String → Option (String × String) → List String
auth_headers base64 token basic = bearer token ++ basic_header base64 basic
