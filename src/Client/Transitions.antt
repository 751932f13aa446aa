-- ===== src/Client/Transitions.antt =====
-- Users of a client or a worker hear of each change of its connection once (src/zb/ZBClient.ts,
-- src/lib/ZBWorkerBase.ts).
use zeebe_client_node_js.Base.{
  ◌≡◌, refl, ap, Bool, true, false, Option, some, List, [], ◌∷◌, ◌++◌, arith, String,
}
use zeebe_client_node_js.Connection.Middleware.{StatusEvent, connection_error, ready, unknown}
use zeebe_client_node_js.Worker.State.{Worker, Options, new_worker, made}
use zeebe_client_node_js.Client.Status.{Status, initial, on_status, on_worker_status}

pub client_emits : Status → List StatusEvent → List StatusEvent
client_emits s [] = []
client_emits s (e ∷ rest) = let (s', out) = on_status s e in out ++ client_emits s' rest

pub worker_emits : Worker → List StatusEvent → List StatusEvent
worker_emits w [] = []
worker_emits w (e ∷ rest) = let (w', out) = on_worker_status w e in out ++ worker_emits w' rest

-- The latest state of a connection: none yet, down or up.
pub data Link : Type 0 where
  unset down up : Link

-- The changes in a list of events: each event that differs from the one before it. A listener that
-- takes `unknown` for `ready` sees it as such, another does not see it.
abbrev pub changes : Bool → Link → List StatusEvent → List StatusEvent
changes u l [] = []
changes u down (connection_error ∷ rest) = changes u down rest
changes u _ (connection_error ∷ rest) = connection_error ∷ changes u down rest
changes u up (ready ∷ rest) = changes u up rest
changes u _ (ready ∷ rest) = ready ∷ changes u up rest
changes false l (unknown ∷ rest) = changes false l rest
changes true up (unknown ∷ rest) = changes true up rest
changes true _ (unknown ∷ rest) = ready ∷ changes true up rest

abbrev status_of : Link → Status
status_of unset = initial
status_of down = record { connected = some false; readied = false }
status_of up = record { connected = some true; readied = true }

client_emits-changes_from :
    (l : Link) (events : List StatusEvent)
    → client_emits (status_of l) events ≡ changes false l events
unfolding client_emits on_status
client_emits-changes_from unset [] = refl
client_emits-changes_from down [] = refl
client_emits-changes_from up [] = refl
client_emits-changes_from unset (connection_error ∷ rest) =
    ap (◌∷◌ connection_error) (client_emits-changes_from down rest)
client_emits-changes_from down (connection_error ∷ rest) = client_emits-changes_from down rest
client_emits-changes_from up (connection_error ∷ rest) =
    ap (◌∷◌ connection_error) (client_emits-changes_from down rest)
client_emits-changes_from unset (ready ∷ rest) = ap (◌∷◌ ready) (client_emits-changes_from up rest)
client_emits-changes_from down (ready ∷ rest) = ap (◌∷◌ ready) (client_emits-changes_from up rest)
client_emits-changes_from up (ready ∷ rest) = client_emits-changes_from up rest
client_emits-changes_from unset (unknown ∷ rest) = client_emits-changes_from unset rest
client_emits-changes_from down (unknown ∷ rest) = client_emits-changes_from down rest
client_emits-changes_from up (unknown ∷ rest) = client_emits-changes_from up rest

client_emits-changes :
    (events : List StatusEvent) → client_emits initial events ≡ changes false unset events
client_emits-changes events = client_emits-changes_from unset events

abbrev Agrees : Worker → Link → Type 0
Agrees w unset = (w.connected ≡ true) × (w.readied ≡ false)
Agrees w down = (w.connected ≡ false) × (w.readied ≡ false)
Agrees w up = (w.connected ≡ true) × (w.readied ≡ true)

worker_emits-changes_from :
    (l : Link) (w : Worker) (events : List StatusEvent)
    → Agrees w l
    → worker_emits w events ≡ changes true l events
unfolding worker_emits on_worker_status
worker_emits-changes_from unset w [] a = refl
worker_emits-changes_from down w [] a = refl
worker_emits-changes_from up w [] a = refl
worker_emits-changes_from unset w (connection_error ∷ rest) a =
    ground
      (arith, worker_emits-changes_from down (record w { connected = false; readied = false }) rest)
worker_emits-changes_from down w (connection_error ∷ rest) a =
    ground (arith, worker_emits-changes_from down w rest)
worker_emits-changes_from up w (connection_error ∷ rest) a =
    ground
      (arith, worker_emits-changes_from down (record w { connected = false; readied = false }) rest)
worker_emits-changes_from unset w (ready ∷ rest) a =
    ground
      (arith, worker_emits-changes_from up (record w { connected = true; readied = true }) rest)
worker_emits-changes_from down w (ready ∷ rest) a =
    ground
      (arith, worker_emits-changes_from up (record w { connected = true; readied = true }) rest)
worker_emits-changes_from up w (ready ∷ rest) a =
    ground (arith, worker_emits-changes_from up w rest)
worker_emits-changes_from unset w (unknown ∷ rest) a =
    ground
      (arith, worker_emits-changes_from up (record w { connected = true; readied = true }) rest)
worker_emits-changes_from down w (unknown ∷ rest) a =
    ground
      (arith, worker_emits-changes_from up (record w { connected = true; readied = true }) rest)
worker_emits-changes_from up w (unknown ∷ rest) a =
    ground (arith, worker_emits-changes_from up w rest)

worker_emits-changes :
    (o : Options) (task_type : Option String) (fresh_id : String) (has_handler : Bool)
    (id : Option String) (events : List StatusEvent) {w : Worker}
    → new_worker o task_type fresh_id has_handler id ≡ made w
    → worker_emits w events ≡ changes true unset events
unfolding new_worker
worker_emits-changes o task_type fresh_id has_handler id events h =
    worker_emits-changes_from unset _ events (ground arith)

-- A client and a new worker emit exactly the changes of their connection: a run of equal events is
-- emitted once, the client emits nothing for `unknown`, and the worker takes `unknown` for `ready`.
pub emits-changes :
    (o : Options) (task_type : Option String) (fresh_id : String) (has_handler : Bool)
    (id : Option String) (events : List StatusEvent) {w : Worker}
    → new_worker o task_type fresh_id has_handler id ≡ made w
    → (client_emits initial events ≡ changes false unset events)
      × (worker_emits w events ≡ changes true unset events)
emits-changes o task_type fresh_id has_handler id events h =
    (client_emits-changes events, worker_emits-changes o task_type fresh_id has_handler id events h)
