-- ===== src/Client/Connections/LongPoll.antt =====
-- How long a stream of a worker is kept (src/zb/ZBClient.ts, src/lib/ZBWorkerBase.ts,
-- src/lib/GrpcClient.ts): the gateway is asked to hold it for the worker's long poll, and the worker's
-- gRPC client ends it after the client's.
use zeebe_client_node_js.Base.{
  ℕ, suc, ◌+◌, ◌<◌, ◌≡◌, refl, Bool, true, false, List, [], ◌∷◌, Option, none, some, String, pos,
  arith, sym, ◌∙◌, ap,
}
use zeebe_client_node_js.Worker.State.{Worker, Options, made, new_worker}
use zeebe_client_node_js.Worker.Polling.{request, poll, resume_poll, opened, on_end}
use zeebe_client_node_js.Worker.Capacity.{IsIdle, poll_sends}
use zeebe_client_node_js.Connection.Channel.{Channel, stream, gives_stream, call_stream}
use zeebe_client_node_js.Connection.Calls.{end_event}
use zeebe_client_node_js.Connection.Calls.Timeouts.{Move, run_stream, cut_short, cut_short_once}
use zeebe_client_node_js.Client.Lifecycle.{
  Client, WorkerConfig, created, create_worker, worker_options,
}
use zeebe_client_node_js.Client.Connections.{
  Target, ConnectionEnv, get_grpc_client, construct_grpc_client, worker_connection,
}

new_worker-IsIdle :
    (o : Options) (task_type : Option String) (fresh_id : String) (has_handler : Bool)
    (id : Option String) {w : Worker}
    → new_worker o task_type fresh_id has_handler id ≡ made w
    → IsIdle w × (w.long_poll ≡ o.long_poll)
unfolding new_worker
new_worker-IsIdle o task_type fresh_id has_handler id h = ground arith

pub create_worker_inv :
    (c c' : Client) (fresh_id : String) (config : WorkerConfig) (w : Worker)
    → create_worker c fresh_id config ≡ (c', created w)
    → new_worker (worker_options c config) config.task_type fresh_id config.has_handler config.id
      ≡ made w
unfolding create_worker
create_worker_inv c c' fresh_id config w h = ground arith

-- The worker when a stream that it opened has ended.
abbrev pub after_stream : ℕ → Worker → Worker
after_stream id w = on_end id (resume_poll (poll w).0 (opened id))

after_stream-IsIdle : (id : ℕ) (w : Worker) → IsIdle w → IsIdle (after_stream id w)
unfolding on_end resume_poll
after_stream-IsIdle id w i = ground (arith, poll_sends w i)

request-after_stream : (id : ℕ) (w : Worker) → IsIdle w → request (after_stream id w) ≡ request w
unfolding on_end resume_poll
request-after_stream id w i = ground (arith, poll_sends w i)

polls_again :
    (id : ℕ) (w : Worker)
    → IsIdle w
    → ((poll w).1 ≡ some (request w)) × ((poll (after_stream id w)).1 ≡ (poll w).1)
polls_again id w i =
    let p = poll_sends w i in
    let q = poll_sends (after_stream id w) (after_stream-IsIdle id w i) in
    (
      ap (λ r. r.1) p,
      ap (λ r. r.1) q ∙ ap some (request-after_stream id w i) ∙ sym (ap (λ r. r.1) p),
    )

-- `Duration.milliseconds.from` of a long poll that is set.
abbrev pub number : Option ℕ → ℕ
number none = 0
number (some n) = n

ended_by_timer :
    (host : String) (ch : Channel) (due : ℕ) (events : List (ℕ × Move))
    → cut_short events ≡ true
    → (run_stream host (record { channel = ch; timeout = some due }) events).1 ≡ end_event ∷ []
ended_by_timer host ch due events cut =
    (cut_short_once host (record { channel = ch; timeout = some due }) due events refl).0
    ∙ rw cut refl

module _ (parse_ms : String → ℕ) (env : ConnectionEnv) where
  -- A worker's own long poll, longer by more than a second than that of its client, is cut short. For a
  -- client with a long poll that is not zero and a gRPC client that is not closing: the worker asks the
  -- gateway to hold its stream for its own long poll, but the client-side timeout of the stream is due
  -- one second after the client's long poll, which is earlier. If the stream has neither failed nor ended
  -- when its time is up, the gRPC client makes it emit 'end', once. The worker then asks for as many jobs
  -- as before, although the gateway may still hold the first request.
  pub stream_cut_short :
      (c c' : Client) (t : Target) (fresh_id host : String) (config : WorkerConfig) (w : Worker)
      (k l now id : ℕ) (ch : Channel) (events : List (ℕ × Move))
      → create_worker c fresh_id config ≡ (c', created w)
      → t.long_poll ≡ suc k
      → config.long_poll ≡ some (suc l)
      → suc k + 1000 < suc l
      → ch.closing ≡ false
      → cut_short events ≡ true
      → let grpc = (worker_connection parse_ms env t config.task_type none).0 in
        let (ch', signals, answer) =
          call_stream now (number grpc.config.long_poll) gives_stream ch in
        let due = now + (suc k + 1000) in
        ((request w).request_timeout ≡ pos (suc l))
        × (answer ≡ stream due)
        × (due < now + suc l)
        × ((run_stream host (record { channel = ch'; timeout = some due }) events).1
            ≡ end_event ∷ [])
        × ((poll w).1 ≡ some (request w))
        × ((poll (after_stream id w)).1 ≡ (poll w).1)
  unfolding worker_connection construct_grpc_client get_grpc_client call_stream
  stream_cut_short c c' t fresh_id host config w k l now id ch events h e p lt q cut =
      let (i, a) =
        new_worker-IsIdle (worker_options c config) config.task_type fresh_id config.has_handler
          config.id (create_worker_inv c c' fresh_id config w h) in
      let (s, again) = polls_again id w i in
      (
        ground arith,
        rw (e, q) refl,
        omega arith,
        ended_by_timer host _ (now + (suc k + 1000)) events cut,
        s,
        again,
      )
