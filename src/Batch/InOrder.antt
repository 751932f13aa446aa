-- ===== src/Batch/InOrder.antt =====
-- Every job of a response reaches the handler of a batch worker once, in order
-- (src/zb/ZBBatchWorker.ts, src/lib/ZBWorkerBase.ts, src/lib/JobBatcher.ts).
use zeebe_client_node_js.Base.{
  ℕ, ◌≡◌, refl, ap, ap₂, ◌∙◌, sym, subst, Bool, true, false, Option, none, some, List, [], ◌∷◌,
  ◌++◌, String, map, arith, pos, ◌+ℤ◌, length, Option-cases, inl, inr,
}
use zeebe_client_node_js.Variables.{ActivatedJob}
use zeebe_client_node_js.Worker.State.{Worker, Options, made, not_closing, new_worker}
use zeebe_client_node_js.Worker.Closing.{close}
use zeebe_client_node_js.Worker.Jobs.{parse_jobs, handle_job_response}
use zeebe_client_node_js.Batch.Batcher.{Batcher}
use zeebe_client_node_js.Batch.Delivery
use zeebe_client_node_js.Batch.Delivery.{IsSound, handed, step, steps, arrived, batched_in_order}
use zeebe_client_node_js.Batch.Responses.{
  BatchedJob, BatchWorker, new_batch_worker, batched, handle_jobs, respond, Event, responds,
  timer_fires, closes, react, run, accepted,
}

module _ {J : Type 0} (parse : String → Option J) where
  abbrev arriving :
      Option (List (ActivatedJob J))
      → List (Delivery.Event (BatchedJob J))
      → List (Delivery.Event (BatchedJob J))
  arriving none events = events
  arriving (some seen) events = Delivery.arrives (map batched seen) ∷ events

  -- The same events at the batcher.
  translated : Bool → List Event → List (Delivery.Event (BatchedJob J))
  translated b [] = []
  translated true (responds jobs ∷ rest) = translated true rest
  translated false (responds jobs ∷ rest) = arriving (parse_jobs parse jobs) (translated false rest)
  translated b (timer_fires ∷ rest) = Delivery.timer_fires ∷ translated b rest
  translated b (closes ∷ rest) = translated true rest

  arrived-translated :
      (b : Bool) (events : List Event) → arrived (translated b events) ≡ accepted parse b events
  unfolding translated
  arrived-translated true [] = refl
  arrived-translated false [] = refl
  arrived-translated true (responds jobs ∷ rest) = arrived-translated true rest
  arrived-translated false (responds jobs ∷ rest) = elim (Option-cases (parse_jobs parse jobs)) [
    | inl e ↦ rw e (arrived-translated false rest)
    | inr (seen, e) ↦ rw e (ap (λ l. map batched seen ++ l) (arrived-translated false rest))
  ]
  arrived-translated true (timer_fires ∷ rest) = arrived-translated true rest
  arrived-translated false (timer_fires ∷ rest) = arrived-translated false rest
  arrived-translated true (closes ∷ rest) = arrived-translated true rest
  arrived-translated false (closes ∷ rest) = arrived-translated true rest

  -- Whether a worker is closed.
  abbrev Matches : Bool → Worker → Type 0
  Matches true w = w.closing ≡ true
  Matches false w = (w.closing ≡ false) × (w.close_state ≡ not_closing)

  close-Matches : (b : Bool) (w : Worker) → Matches b w → Matches true (close w).0
  unfolding close
  close-Matches true w m = ground arith
  close-Matches false w m = ground arith

  -- The worker has counted the jobs of a response.
  abbrev counted : BatchWorker J → List (ActivatedJob String) → BatchWorker J
  counted f jobs = record f {
    worker = record f.worker { active_jobs = f.worker.active_jobs +ℤ pos (length jobs) };
  }

  respond_closed :
      (f : BatchWorker J) (jobs : List (ActivatedJob String))
      → f.worker.closing ≡ true
      → respond parse f jobs ≡ (f, [])
  unfolding respond handle_job_response
  respond_closed f jobs h = rw h refl

  respond_malformed :
      (f : BatchWorker J) (jobs : List (ActivatedJob String))
      → f.worker.closing ≡ false
      → parse_jobs parse jobs ≡ none
      → respond parse f jobs ≡ (counted f jobs, [])
  unfolding respond handle_job_response
  respond_malformed f jobs h e = rw (h, e) refl

  respond_parsed :
      (f : BatchWorker J) (jobs : List (ActivatedJob String)) (seen : List (ActivatedJob J))
      → f.worker.closing ≡ false
      → parse_jobs parse jobs ≡ some seen
      → respond parse f jobs ≡ (
        record (counted f jobs) {
          batcher = (step f.batcher (Delivery.arrives (map batched seen))).0;
        },
        (step f.batcher (Delivery.arrives (map batched seen))).1,
      )
  unfolding respond handle_job_response handle_jobs step
  respond_parsed f jobs seen h e = rw (h, e) refl

  -- A run of the batch worker is a run of its batcher.
  abbrev SameRun : BatchWorker J → List Event → List (Delivery.Event (BatchedJob J)) → Type 0
  SameRun f events es =
      ((run parse f events).1 ≡ (steps f.batcher es).1)
      × ((run parse f events).0.batcher ≡ (steps f.batcher es).0)

  after :
      {A B : Type 0} (first : List A) {later later' : List A} {b b' : B}
      → (later ≡ later') × (b ≡ b')
      → (first ++ later ≡ first ++ later') × (b ≡ b')
  after first h = (ap (λ l. first ++ l) h.0, h.1)

  run-steps :
      (b : Bool) (f : BatchWorker J) (events : List Event)
      → Matches b f.worker
      → SameRun f events (translated b events)
  unfolding run react translated steps
  run-steps b f [] m = (refl, refl)
  run-steps true f (responds jobs ∷ rest) m = rw (respond_closed f jobs m) (run-steps true f rest m)
  run-steps false f (responds jobs ∷ rest) m = elim (Option-cases (parse_jobs parse jobs)) [
    | inl e ↦ rw (respond_malformed f jobs m.0 e, e) (run-steps false (counted f jobs) rest m)
    | inr (seen, e) ↦
        rw (respond_parsed f jobs seen m.0 e, e)
          (after (step f.batcher (Delivery.arrives (map batched seen))).1 (
            run-steps false
              (record (counted f jobs) {
                batcher = (step f.batcher (Delivery.arrives (map batched seen))).0;
              })
              rest m))
  ]
  run-steps b f (timer_fires ∷ rest) m =
      after (step f.batcher Delivery.timer_fires).1
        (run-steps b (record f { batcher = (step f.batcher Delivery.timer_fires).0 }) rest m)
  run-steps b f (closes ∷ rest) m =
      run-steps true (record f { worker = (close f.worker).0 }) rest (close-Matches b f.worker m)

  new_worker-Matches :
      (o : Options) (task_type : Option String) (fresh_id : String) (has_handler : Bool)
      (id : Option String) {w : Worker}
      → new_worker o task_type fresh_id has_handler id ≡ made w
      → Matches false w
  unfolding new_worker
  new_worker-Matches o task_type fresh_id has_handler id h = ground arith

  -- Over any sequence of responses, timers of the batcher and calls of `close`, the jobs that the handler
  -- of a new batch worker was called with, followed by those that still wait, are the jobs of the
  -- responses that came before the first `close` and could be parsed, each once, in order and with
  -- its documents parsed; jobs that wait are fewer than a batch, and a timer is set for them.
  pub responses_in_order :
      (o : Options) (task_type : Option String) (fresh_id : String) (has_handler : Bool)
      (id : Option String) (timeout : ℕ) (events : List Event) {w : Worker}
      → new_worker o task_type fresh_id has_handler id ≡ made w
      → let f : BatchWorker J = new_batch_worker timeout w in
        ((run parse f events).1 ++ (run parse f events).0.batcher.batched_jobs
          ≡ accepted parse false events)
        × IsSound (run parse f events).0.batcher
  unfolding new_batch_worker
  responses_in_order o task_type fresh_id has_handler id timeout events {w} h =
      let f : BatchWorker J = new_batch_worker timeout w in
      let (p, q) =
        run-steps false f events (new_worker-Matches o task_type fresh_id has_handler id h) in
      let (all, sound) = batched_in_order timeout w.job_batch_min_size (translated false events) in
      (
        ap₂ (λ (l : List (BatchedJob J)) (b : Batcher (BatchedJob J)). l ++ b.batched_jobs) p q
            ∙ all
            ∙ arrived-translated false events,
        subst IsSound (sym q) sound,
      )
