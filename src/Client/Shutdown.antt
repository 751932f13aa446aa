-- ===== src/Client/Shutdown.antt =====
-- What a client that is closing still does (src/zb/ZBClient.ts).
use zeebe_client_node_js.Base.{
  ◌≡◌, refl, true, false, Option, none, List, [], ◌∷◌, String, All, arith, ℕ,
}
use zeebe_client_node_js.Variables.{ActivatedJob}
use zeebe_client_node_js.Worker.State.{Worker}
use zeebe_client_node_js.Worker.Polling.{poll, close_called}
use zeebe_client_node_js.Worker.Closing
use zeebe_client_node_js.Worker.Jobs.{handle_job_response, ignored}
use zeebe_client_node_js.Client.Lifecycle.{
  Client, WorkerConfig, client_is_closing, create_worker, create_batch_worker, close, close_workers,
}

-- The workers of a client are closed by it alone: one whose `close` was called is closing.
abbrev pub IsClosable : Worker → Type 0
IsClosable w = close_called w.close_state ≡ true → w.closing ≡ true

module _ {J : Type 0} (parse : String → Option J) where
  -- A worker that sends no request and takes no job.
  abbrev pub IsSilent : Worker → Type 0
  IsSilent w =
      ((poll w).1 ≡ none)
      × ((jobs : List (ActivatedJob String)) → handle_job_response parse w jobs ≡ (w, ignored))

  IsSilent-closing : (w : Worker) → w.closing ≡ true → IsSilent w
  unfolding poll handle_job_response
  IsSilent-closing w h = (ground arith, λ jobs. ground arith)

  closing-close : (w : Worker) → IsClosable w → (Closing.close w).0.closing ≡ true
  unfolding Closing.close
  closing-close w h = ground arith

  IsSilent-close_workers :
      (ws : List Worker) → All IsClosable ws → All IsSilent (close_workers ws).0
  IsSilent-close_workers [] h = tt
  IsSilent-close_workers (w ∷ ws) (p, h) =
      (IsSilent-closing (Closing.close w).0 (closing-close w p), IsSilent-close_workers ws h)

  IsSilent-close :
      (c : Client)
      → All IsClosable c.workers
      → c.close_called ≡ false
      → All IsSilent (close c).0.workers
  unfolding close
  IsSilent-close c h o = rw o (IsSilent-close_workers c.workers h)

  create_worker-close :
      (c : Client) (id : String) (config : WorkerConfig)
      → c.close_called ≡ false
      → create_worker (close c).0 id config ≡ ((close c).0, client_is_closing)
  unfolding close create_worker
  create_worker-close c id config o = rw o refl

  create_batch_worker-close :
      {T : Type 0} (c : Client) (id : String) (config : WorkerConfig) (max_time : ℕ)
      → c.close_called ≡ false
      → create_batch_worker {T = T} (close c).0 id config max_time
        ≡ ((close c).0, client_is_closing)
  unfolding create_batch_worker
  create_batch_worker-close c id config max_time o = rw (create_worker-close c id config o) refl

  close-close : (c : Client) → close (close c).0 ≡ ((close c).0, [])
  unfolding close
  close-close c = ground arith

  -- The first call of `close` on a client whose workers are closed by nobody else leaves only workers
  -- that poll no more and drop the jobs that still arrive; from then on neither kind of worker can be
  -- created, the client being left as it was, and a further call of `close` has no effect.
  pub shutdown :
      (c : Client)
      → All IsClosable c.workers
      → c.close_called ≡ false
      → All IsSilent (close c).0.workers
        × ((id : String) (config : WorkerConfig)
            → create_worker (close c).0 id config ≡ ((close c).0, client_is_closing))
        × ((T : Type 0) (id : String) (config : WorkerConfig) (max_time : ℕ)
            → create_batch_worker {T = T} (close c).0 id config max_time
              ≡ ((close c).0, client_is_closing))
        × (close (close c).0 ≡ ((close c).0, []))
  shutdown c h o = (
    IsSilent-close c h o,
    (λ id config. create_worker-close c id config o),
    (λ T id config max_time. create_batch_worker-close c id config max_time o),
    close-close c,
  )
