-- ===== src/Client/Status.antt =====
-- How the client and the workers pass on the state of their connections (src/zb/ZBClient.ts,
-- src/lib/ZBWorkerBase.ts). Each emission goes with a call of the user's callback.
use zeebe_client_node_js.Base.{
  Bool, true, false, Option, none, some, List, [], ◌∷◌, if◌then◌else◌, not, is_false,
}
use zeebe_client_node_js.Connection.Middleware.{StatusEvent, connection_error, ready, unknown}
use zeebe_client_node_js.Worker.State.{Worker}

-- The client's `connected`, at first `undefined`, and `readied`.
pub record Status : Type 0 where
  pub connected : Option Bool
  pub readied : Bool

abbrev pub initial : Status
initial = record { connected = none; readied = false }

-- The client's listeners on its gRPC client, for `connectionError` and `ready`.
unfoldable pub on_status : Status → StatusEvent → Status × List StatusEvent
on_status s connection_error = (
  record { connected = some false; readied = false },
  if not (is_false s.connected) then connection_error ∷ [] else [],
)
on_status s ready =
    (record { connected = some true; readied = true }, if not s.readied then ready ∷ [] else [])
on_status s unknown = (s, [])

-- A worker's `onError` and `onReady`; the latter listens for `unknown` too.
abbrev on_worker_ready : Worker → Worker × List StatusEvent
on_worker_ready w =
    if not w.readied then (record w { readied = true; connected = true }, ready ∷ []) else (w, [])

unfoldable pub on_worker_status : Worker → StatusEvent → Worker × List StatusEvent
on_worker_status w connection_error =
    if w.connected
    then (record w { connected = false; readied = false }, connection_error ∷ [])
    else (w, [])
on_worker_status w ready = on_worker_ready w
on_worker_status w unknown = on_worker_ready w

abbrev is_connected : Option Bool → Bool
is_connected none = false
is_connected (some b) = b

-- `_onConnectionError` of the client.
unfoldable pub on_connection_error : Status → Status × List StatusEvent
on_connection_error s =
    if not (is_connected s.connected)
    then (s, [])
    else (record s { connected = some false }, connection_error ∷ [])
