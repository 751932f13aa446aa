-- ===== src/Worker/Tests/Emitting.antt =====
-- An EventEmitter, and a worker with two listeners that is told to close (src/lib/TypedEmitter.ts).
use mathlib.Core.List.{append-nil}
use zeebe_client_node_js.Base.{
  ℕ, ◌≤◌, ◌≡◌, ◌≢◌, ◌⊎◌, refl, Bool, true, false, List, [], ◌∷◌, ◌++◌, arith, if◌then◌else◌, ◌==◌,
  ◌&&◌,
}
use zeebe_client_node_js.Emitter.{
  ConnectionStatusEvent, connection_error, ready, unknown, EventEmitter, TypedEmitter, new_emitter,
  on, emit,
}
use zeebe_client_node_js.Worker.Announced.{announce, close_effects, close_announced}
use zeebe_client_node_js.Worker.Tests.{worker}

-- The newest listener stands first.
abbrev Registered : Type 0
Registered = List (ConnectionStatusEvent × ℕ)

abbrev same : ConnectionStatusEvent → ConnectionStatusEvent → Bool
same ConnectionStatusEvent.close ConnectionStatusEvent.close = true
same connection_error connection_error = true
same ready ready = true
same unknown unknown = true
same _ _ = false

same_self : (e : ConnectionStatusEvent) → same e e ≡ true
same_self ConnectionStatusEvent.close = refl
same_self connection_error = refl
same_self ready = refl
same_self unknown = refl

same_other : (e d : ConnectionStatusEvent) → e ≢ d → same e d ≡ false
same_other e d h = ground arith

abbrev called_in : Registered → ConnectionStatusEvent → List ℕ
called_in [] e = []
called_in ((d, l) ∷ s) e = called_in s e ++ (if same d e then l ∷ [] else [])

abbrev remove : Registered → ConnectionStatusEvent → ℕ → Registered
remove [] e l = []
remove ((d, m) ∷ s) e l = let rest = remove s e l in if same d e && m == l then s else (d, m) ∷ rest

equal_self : (n : ℕ) → (n == n) ≡ true
equal_self n = ground arith

abbrev node : EventEmitter ℕ
node = record {
  State = Registered;
  new = [];
  on = λ s e l. (e, l) ∷ s;
  off = remove;
  remove_all_listeners = λ s. [];
  called = called_in;
  called-new = λ e. refl;
  called-on_same = λ s e l. rw (same_self e) refl;
  called-on_other = λ s e d l h. rw (same_other e d h) (append-nil (called_in s d));
  called-off = λ s e d l. rw (same_self e, equal_self l) refl;
  called-remove_all = λ s e. refl;
}

abbrev listeners : TypedEmitter node
listeners =
    on node ConnectionStatusEvent.close 2
      (on node ready 7 (on node ConnectionStatusEvent.close 1 (new_emitter node)))

close_announced_example :
    let (t', called) = announce node listeners (close_effects 2 (worker 2)) in
    ((◌≡◌ {A = ℕ} 2 0) × (t' ≡ listeners) × (called ≡ []))
    ⊎ ((1 ≤ 2)
        × (called ≡ emit node ConnectionStatusEvent.close listeners)
        × (emit node ready t' ≡ []))
close_announced_example = close_announced node 2 (worker 2) listeners ready refl refl

both_called : emit node ConnectionStatusEvent.close listeners ≡ 1 ∷ 2 ∷ []
unfolding emit on new_emitter
both_called = refl
