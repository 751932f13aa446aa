-- ===== src/Connection/Reconnect.antt =====
-- `waitForGrpcChannelReconnect` of src/lib/GrpcClient.ts, and the connection that the constructor
-- opens. What the channel answers is a list of rounds, one for each call of the function.
use zeebe_client_node_js.Base.{
  ℕ, suc, ◌+◌, ◌≤◌, ◌≡◌, Bool, true, false, Option, none, some, List, [], ◌∷◌, String,
  if◌then◌else◌, arith, length,
}
use zeebe_client_node_js.Config.Settings.{CustomSsl}

-- `GrpcState`
pub data GrpcState : Type 0 where
  idle connecting ready transient_failure shutdown : GrpcState

abbrev pub is_usable : GrpcState → Bool
is_usable idle = true
is_usable ready = true
is_usable _ = false

-- Seconds until the deadline of a watch.
abbrev pub delay_of : GrpcState → ℕ
delay_of transient_failure = 5
delay_of _ = 30

-- The state at the call and when the watch calls back, with `channelClosed` at both moments.
pub record Round : Type 0 where
  pub closed_before : Bool
  pub current : GrpcState
  pub closed_after : Bool
  pub next : GrpcState

-- The promise: resolved, left pending for good, or not decided by the rounds so far.
pub data Reconnect : Type 0 where
  resolved : GrpcState → Reconnect
  abandoned waiting : Reconnect

-- With `gRPCRetryCount`.
unfoldable pub wait_for_grpc_channel_reconnect : List Round → ℕ → Reconnect × ℕ
wait_for_grpc_channel_reconnect [] count = (waiting, count)
wait_for_grpc_channel_reconnect (r ∷ rounds) count =
    let again = wait_for_grpc_channel_reconnect rounds (suc count) in
    if r.closed_before
    then (abandoned, count)
    else if is_usable r.current
    then (resolved r.current, 0)
    else if r.closed_after
    then (abandoned, count)
    else if is_usable r.next
    then (resolved r.next, suc count)
    else again

-- The promise resolves only with a state in which the channel can be used, after at most one retry
-- for each round.
pub reconnect-is_usable :
    (rounds : List Round) (count n : ℕ) (s : GrpcState)
    → wait_for_grpc_channel_reconnect rounds count ≡ (resolved s, n)
    → (is_usable s ≡ true) × (n ≤ count + length rounds)
unfolding wait_for_grpc_channel_reconnect
reconnect-is_usable [] count n s h = absurd (ground arith)
reconnect-is_usable (r ∷ rounds) count n s h =
    ground (arith, reconnect-is_usable rounds (suc count) n s)

-- The constructor's credentials and channel options.
pub data Credentials : Type 0 where
  insecure : Credentials
  ssl : (root_certs private_key cert_chain : Option String) → Credentials

unfoldable pub channel_credentials : Bool → Option CustomSsl → Credentials
channel_credentials true none = ssl none none none
channel_credentials true (some c) = ssl c.root_certs c.private_key c.cert_chain
channel_credentials false custom = insecure

-- A channel option: a number, or the text of an environment variable.
pub data OptionValue : Type 0 where
  option_number : ℕ → OptionValue
  option_text : String → OptionValue

abbrev keepalive_time : Option String → OptionValue
keepalive_time none = option_number 360000
keepalive_time (some t) = option_text t

unfoldable pub channel_options : Option String → List (String × OptionValue)
channel_options grpc_keepalive_time_ms =
    ("grpc.enable_retries", option_number 1)
    ∷ ("grpc.initial_reconnect_backoff_ms", option_number 1000)
    ∷ ("grpc.max_reconnect_backoff_ms", option_number 10000)
    ∷ ("grpc.min_reconnect_backoff_ms", option_number 5000)
    ∷ ("grpc.keepalive_time_ms", keepalive_time grpc_keepalive_time_ms)
    ∷ ("grpc.keepalive_timeout_ms", option_number 120000)
    ∷ ("grpc.http2.min_time_between_pings_ms", option_number 90000)
    ∷ ("grpc.http2.min_ping_interval_without_data_ms", option_number 90000)
    ∷ ("grpc.keepalive_permit_without_calls", option_number 1)
    ∷ ("grpc.http2.max_pings_without_data", option_number 0)
    ∷ []
