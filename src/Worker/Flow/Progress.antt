-- ===== src/Worker/Flow/Progress.antt =====
-- A worker that is not told to close is never stuck (src/lib/ZBWorkerBase.ts).
use zeebe_client_node_js.Base.{
  ℕ, zero, suc, ◌≡◌, ◌≢◌, refl, ap, ◌∙◌, Bool, false, Option, some, String, ℤ, pos, ◌-ℤ◌, arith,
  pos_part, neg_part,
}
use zeebe_client_node_js.Worker.State.{Worker, Options, made, new_worker, not_closing}
use zeebe_client_node_js.Worker.Polling.{
  poll, request, resume_poll, rejected, on_end, handle_stream_end,
}
use zeebe_client_node_js.Worker.Closing.{drain_one}
use zeebe_client_node_js.Worker.Capacity.{IsIdle, poll_sends}
use zeebe_client_node_js.Worker.Flow.{
  Phase, quiet, asked, streaming, backing_off, abandoned, Flow, Inv, Step, Reach, here, next,
  is_refused, ends, timer_fires, finishes_job,
}
use zeebe_client_node_js.Worker.Flow.Invariant.{Reach-Inv, new_worker-Inv}

-- A worker for which `close` has not been called.
abbrev pub IsOpen : Worker → Type 0
IsOpen w = (w.closing ≡ false) × (w.close_state ≡ not_closing)

drain_one-IsOpen :
    (w : Worker) (n : ℕ)
    → IsOpen w
    → w.active_jobs ≡ pos (suc n)
    → IsOpen (drain_one w).0 × ((drain_one w).0.active_jobs ≡ pos n)
unfolding drain_one ◌-ℤ◌
drain_one-IsOpen w n o a = ground arith

nonneg : (a : ℤ) → neg_part a ≡ 0 → a ≡ pos (pos_part a)
nonneg a h = ground arith

whole_capacity :
    (w : Worker)
    → w.active_jobs ≡ pos 0
    → (request w).max_jobs_to_activate ≡ pos w.max_jobs_to_activate
unfolding ◌-ℤ◌
whole_capacity w h = ground arith

module _ {J : Type 0} (parse : String → Option J) where
  Reach-append : {f g h : Flow} → Reach parse f g → Reach parse g h → Reach parse f h
  Reach-append p here = p
  Reach-append p (next q s) = next (Reach-append p q) s

  -- A refused request, an end of the stream, a back-off timer that fires, or a job that finishes.
  abbrev pub IsEnding : {f g : Flow} → Step parse f g → Type 0
  IsEnding (is_refused n p e) = Unit
  IsEnding (ends n id p e) = Unit
  IsEnding (timer_fires id p e) = Unit
  IsEnding (finishes_job h e) = Unit
  IsEnding _ = ⊥

  -- A run of such steps alone.
  abbrev pub AllEnding : {f g : Flow} → Reach parse f g → Type 0
  AllEnding here = Unit
  AllEnding (next r s) = AllEnding r × IsEnding s

  AllEnding-append :
      {f g h : Flow} (p : Reach parse f g) (q : Reach parse g h)
      → AllEnding p
      → AllEnding q
      → AllEnding (Reach-append p q)
  unfolding Reach-append
  AllEnding-append p here a b = a
  AllEnding-append p (next q s) a (b, c) = (AllEnding-append p q a b, c)

  -- The request is answered, the stream ends or the timer fires.
  calmed :
      (w : Worker) (p : Phase)
      → IsOpen w
      → p ≢ abandoned
      → (v : Worker) × (r : Reach parse
          (record { worker = w; phase = p })
          (record { worker = v; phase = quiet }))
        × AllEnding r
        × IsOpen v
        × (v.active_jobs ≡ w.active_jobs)
  unfolding resume_poll on_end handle_stream_end
  calmed w quiet o k = (w, here, tt, o, refl)
  calmed w (asked n) o k =
      (resume_poll w rejected, next here (is_refused n refl refl), (tt, tt), o, refl)
  calmed w (streaming id n) o k = (on_end id w, next here (ends n id refl refl), (tt, tt), o, refl)
  calmed w (backing_off id) o k =
      (handle_stream_end id w, next here (timer_fires id refl refl), (tt, tt), o, refl)
  calmed w abandoned o k = absurd (k refl)

  -- All active jobs finish.
  emptied :
      (n : ℕ) (w : Worker)
      → IsOpen w
      → w.active_jobs ≡ pos n
      → (v : Worker) × (r : Reach parse
          (record { worker = w; phase = quiet })
          (record { worker = v; phase = quiet }))
        × AllEnding r
        × IsOpen v
        × (v.active_jobs ≡ pos 0)
  emptied zero w o a = (w, here, tt, o, a)
  emptied (suc n) w o a =
      let (o', a') = drain_one-IsOpen w n o a in
      let (v, r, b, p, e) = emptied n (drain_one w).0 o' a' in
      (
        v,
        Reach-append (next here (finishes_job (ground arith) refl)) r,
        AllEnding-append (next here (finishes_job (ground arith) refl)) r (tt, tt) b,
        p,
        e,
      )

  quiet-IsIdle :
      (v : Worker)
      → Inv (record { worker = v; phase = quiet })
      → IsOpen v
      → v.active_jobs ≡ pos 0
      → IsIdle v
  quiet-IsIdle v i o a = ground arith

  -- A worker that has not been told to close, and whose requests were never answered by `undefined`, is
  -- never stuck: from every state that it reaches there is a continuation, in which only its request
  -- is refused, its stream ends, its back-off timer fires and its jobs finish, after which a poll
  -- sends a request for its whole capacity.
  pub never_stuck :
      (o : Options) (task_type : Option String) (fresh_id : String) (has_handler : Bool)
      (id : Option String) {w : Worker} {g : Flow}
      → new_worker o task_type fresh_id has_handler id ≡ made w
      → Reach parse (record { worker = w; phase = quiet }) g
      → IsOpen g.worker
      → g.phase ≢ abandoned
      → (h : Flow) × (run : Reach parse g h) × AllEnding run
        × ((poll h.worker).1 ≡ some (request h.worker))
        × ((request h.worker).max_jobs_to_activate ≡ pos h.worker.max_jobs_to_activate)
  never_stuck o task_type fresh_id has_handler id {w} {g} h r open_worker k =
      let i = Reach-Inv parse (new_worker-Inv parse o task_type fresh_id has_handler id h) r in
      let (v, p, m, q, a) = calmed g.worker g.phase open_worker k in
      let (u, s, l, t, e) =
        emptied (pos_part g.worker.active_jobs) v q (a ∙ nonneg g.worker.active_jobs i.nonneg) in
      let all = Reach-append p s in
      let idle = quiet-IsIdle u (Reach-Inv parse i all) t e in
      (
        record { worker = u; phase = quiet },
        all,
        AllEnding-append p s m l,
        ap (λ x. x.1) (poll_sends u idle),
        whole_capacity u e,
      )
