-- ===== src/Worker/Announced.antt =====
-- The event 'close' of a worker (src/lib/ZBWorkerBase.ts, src/lib/TypedEmitter.ts).
use mathlib.Core.List.{append-nil}
use zeebe_client_node_js.Base.{
  ℕ, zero, suc, ◌+◌, ◌≤◌, ◌≡◌, ◌⊎◌, inl, inr, refl, sym, ap, ◌∙◌, subst, Bool, true, false, All,
  List, [], ◌∷◌, ◌++◌, pos, arith,
}
use zeebe_client_node_js.Emitter.{
  ConnectionStatusEvent, EventEmitter, TypedEmitter, emit, remove_all_listeners,
}
use zeebe_client_node_js.Worker.State.{Worker, not_closing, closing_idle, closing_drained}
use zeebe_client_node_js.Worker.Closing.{
  Effect, capacity_available, capacity_empty, close_channel, remove_grpc_listeners, cancel_stream,
  emit_close, remove_listeners, drain_one, close, resume_close,
}
use zeebe_client_node_js.Worker.Draining.{
  drains, IsWaiting, drains-IsWaiting, drains-suc, drain_one_last, close-IsWaiting, close_idle,
}

-- The effects of `n` jobs that end, one after another.
pub drain_effects : ℕ → Worker → List Effect
drain_effects zero w = []
drain_effects (suc n) w = (drain_one w).1 ++ drain_effects n (drain_one w).0

-- A worker with `n` active jobs that is told to close, until its promise resolves.
abbrev pub close_effects : ℕ → Worker → List Effect
close_effects n w =
    (close w).1 ++ (drain_effects n (close w).0 ++ (resume_close (drains n (close w).0)).1)

module _ {L : Type 0} (node : EventEmitter L) where
  -- The worker's own emitter under the effects of the worker: the listeners that were called.
  abbrev pub announce : TypedEmitter node → List Effect → TypedEmitter node × List L
  announce t [] = (t, [])
  announce t (emit_close ∷ effects) =
      let (t', later) = announce t effects in (t', emit node ConnectionStatusEvent.close t ++ later)
  announce t (remove_listeners ∷ effects) = announce (remove_all_listeners node t) effects
  announce t (_ ∷ effects) = announce t effects

-- The effects that concern the worker's own emitter.
abbrev is_loud : Effect → Bool
is_loud emit_close = true
is_loud remove_listeners = true
is_loud _ = false

abbrev IsQuiet : Effect → Type 0
IsQuiet e = is_loud e ≡ false

drain_one-IsQuiet : (w : Worker) → All IsQuiet (drain_one w).1
unfolding drain_one
drain_one-IsQuiet w = ground arith

close-IsQuiet : (w : Worker) → All IsQuiet (close w).1
unfolding close
close-IsQuiet w = ground arith

All-append : (xs ys : List Effect) → All IsQuiet xs → All IsQuiet ys → All IsQuiet (xs ++ ys)
All-append [] ys h i = i
All-append (x ∷ xs) ys h i = (h.0, All-append xs ys h.1 i)

drain_effects-IsQuiet : (n : ℕ) (w : Worker) → All IsQuiet (drain_effects n w)
unfolding drain_effects
drain_effects-IsQuiet zero w = tt
drain_effects-IsQuiet (suc n) w =
    All-append (drain_one w).1 (drain_effects n (drain_one w).0) (drain_one-IsQuiet w)
      (drain_effects-IsQuiet n (drain_one w).0)

resume_idle-IsQuiet : (w : Worker) → w.close_state ≡ closing_idle → All IsQuiet (resume_close w).1
unfolding resume_close
resume_idle-IsQuiet w h = ground arith

resume_drained_effects :
    (w : Worker)
    → w.close_state ≡ closing_drained
    → (resume_close w).1 ≡ remove_grpc_listeners ∷ emit_close ∷ remove_listeners ∷ []
unfolding resume_close
resume_drained_effects w h = ground arith

drains-closing_drained :
    (n : ℕ) (w : Worker)
    → w.close_state ≡ not_closing
    → w.active_jobs ≡ pos (suc n)
    → (drains (suc n) (close w).0).close_state ≡ closing_drained
drains-closing_drained n w s a =
    let waits : IsWaiting (suc (n + 0)) (close w).0 =
      subst (λ m. IsWaiting (suc m) (close w).0) (omega arith) (close-IsWaiting n w s a) in
    rw (drains-suc n (close w).0) (drain_one_last _ (drains-IsWaiting n 0 (close w).0 waits))

module _ {L : Type 0} (node : EventEmitter L) where
  announce-IsQuiet :
      (t : TypedEmitter node) (es rest : List Effect)
      → All IsQuiet es
      → announce node t (es ++ rest) ≡ announce node t rest
  announce-IsQuiet t [] rest h = refl
  announce-IsQuiet t (capacity_available ∷ es) rest h = announce-IsQuiet t es rest h.1
  announce-IsQuiet t (capacity_empty ∷ es) rest h = announce-IsQuiet t es rest h.1
  announce-IsQuiet t (close_channel ∷ es) rest h = announce-IsQuiet t es rest h.1
  announce-IsQuiet t (remove_grpc_listeners ∷ es) rest h = announce-IsQuiet t es rest h.1
  announce-IsQuiet t (cancel_stream id ∷ es) rest h = announce-IsQuiet t es rest h.1
  announce-IsQuiet t (emit_close ∷ es) rest h = absurd (ground arith)
  announce-IsQuiet t (remove_listeners ∷ es) rest h = absurd (ground arith)

  silent :
      (t : TypedEmitter node) (n : ℕ) (w : Worker)
      → announce node t (close_effects n w)
        ≡ announce node t (resume_close (drains n (close w).0)).1
  silent t n w =
      let end = (resume_close (drains n (close w).0)).1 in
      announce-IsQuiet t (close w).1 (drain_effects n (close w).0 ++ end) (close-IsQuiet w)
      ∙ announce-IsQuiet t (drain_effects n (close w).0) end (drain_effects-IsQuiet n (close w).0)

  announce_last :
      (t : TypedEmitter node) (es : List Effect) → All IsQuiet es → announce node t es ≡ (t, [])
  announce_last t es h = ap (announce node t) (sym (append-nil es)) ∙ announce-IsQuiet t es [] h

  emit-removed :
      (t : TypedEmitter node) (e : ConnectionStatusEvent)
      → emit node e (remove_all_listeners node t) ≡ []
  unfolding emit remove_all_listeners
  emit-removed t e = node.called-remove_all t.emitter e

  -- A worker that is told to close for the first time while it has active jobs calls each
  -- listener that is registered for its event close once, in the order of registration, when its
  -- jobs have ended and its channel has closed, and afterwards has no listener for any event. A
  -- worker without active jobs calls none of them: its listeners stay, and they never hear that
  -- it has closed.
  pub close_announced :
      (n : ℕ) (w : Worker) (t : TypedEmitter node) (e : ConnectionStatusEvent)
      → w.close_state ≡ not_closing
      → w.active_jobs ≡ pos n
      → let (t', called) = announce node t (close_effects n w) in
        ((n ≡ 0) × (t' ≡ t) × (called ≡ []))
        ⊎ ((1 ≤ n) × (called ≡ emit node ConnectionStatusEvent.close t) × (emit node e t' ≡ []))
  unfolding drains
  close_announced zero w t e s a =
      let p =
        silent t zero w ∙ announce_last t _ (resume_idle-IsQuiet (close w).0 (close_idle w s a)) in
      inl (refl, ap (λ r. r.0) p, ap (λ r. r.1) p)
  close_announced (suc n) w t e s a =
      let p =
        silent t (suc n) w
        ∙ ap (announce node t) (resume_drained_effects _ (drains-closing_drained n w s a)) in
      inr (
        omega arith,
        ap (λ r. r.1) p ∙ append-nil (emit node ConnectionStatusEvent.close t),
        ap (λ r. emit node e r.0) p ∙ emit-removed t e,
      )
