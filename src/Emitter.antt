-- ===== src/Emitter.antt =====
-- src/lib/TypedEmitter.ts, from which the client and the workers inherit. The EventEmitter of Node.js
-- is a parameter.
use zeebe_client_node_js.Base.{◌≡◌, ◌≢◌, List, [], ◌∷◌, ◌++◌}

-- `ConnectionStatusEvent` of src/zb/ZBClient.ts.
pub data ConnectionStatusEvent : Type 0 where
  close connection_error ready unknown : ConnectionStatusEvent

-- The EventEmitter of Node.js, as documented, for listeners of a type `L`. `emit` calls the
-- listeners of an event synchronously, in the order in which they were registered; `called` is the
-- list of those.
pub record EventEmitter (L : Type 0) : Type 1 where
  pub State : Type 0
  pub new : State
  pub on : State → ConnectionStatusEvent → L → State
  pub off : State → ConnectionStatusEvent → L → State
  pub remove_all_listeners : State → State
  pub called : State → ConnectionStatusEvent → List L
  pub called-new : (e : ConnectionStatusEvent) → called new e ≡ []
  pub called-on_same :
      (s : State) (e : ConnectionStatusEvent) (l : L) → called (on s e l) e ≡ called s e ++ l ∷ []
  pub called-on_other :
      (s : State) (e d : ConnectionStatusEvent) (l : L) → e ≢ d → called (on s e l) d ≡ called s d
  pub called-off :
      (s : State) (e d : ConnectionStatusEvent) (l : L) → called (off (on s e l) e l) d ≡ called s d
  pub called-remove_all :
      (s : State) (e : ConnectionStatusEvent) → called (remove_all_listeners s) e ≡ []

module _ {L : Type 0} (node : EventEmitter L) where
  -- The class: its state is its private `emitter`.
  pub record TypedEmitter : Type 0 where
    pub emitter : node.State

  unfoldable pub new_emitter : TypedEmitter
  new_emitter = record { emitter = node.new }

  unfoldable pub on : ConnectionStatusEvent → L → TypedEmitter → TypedEmitter
  on event fn t = record t { emitter = node.on t.emitter event fn }

  unfoldable pub off : ConnectionStatusEvent → L → TypedEmitter → TypedEmitter
  off event fn t = record t { emitter = node.off t.emitter event fn }

  -- The listeners that are called.
  unfoldable pub emit : ConnectionStatusEvent → TypedEmitter → List L
  emit event t = node.called t.emitter event

  unfoldable pub remove_all_listeners : TypedEmitter → TypedEmitter
  remove_all_listeners t = record t { emitter = node.remove_all_listeners t.emitter }
