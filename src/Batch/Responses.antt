-- ===== src/Batch/Responses.antt =====
-- A batch worker from the responses of the gateway to its handler (src/zb/ZBBatchWorker.ts,
-- src/lib/ZBWorkerBase.ts, src/lib/JobBatcher.ts).
use zeebe_client_node_js.Base.{
  ℕ, Bool, true, false, Option, none, some, List, [], ◌∷◌, ◌++◌, String, map,
}
use zeebe_client_node_js.Variables.{ActivatedJob}
use zeebe_client_node_js.Worker.State.{Worker}
use zeebe_client_node_js.Worker.Closing.{close}
use zeebe_client_node_js.Worker.Jobs.{
  Delivery, ignored, malformed, handed_over, parse_jobs, handle_job_response,
}
use zeebe_client_node_js.Batch.Batcher.{Batcher, new_batcher, batch}
use zeebe_client_node_js.Batch.Delivery
use zeebe_client_node_js.Batch.Delivery.{IsSound, handed, step, steps, arrived, batched_in_order}

-- `BatchedJob`: a job with the functions of `makeCompleteHandlers`, whose `methodCalled` is `called`.
pub record BatchedJob (J : Type 0) : Type 0 where
  pub job : ActivatedJob J
  pub called : Option String

pub record BatchWorker (J : Type 0) : Type 0 where
  pub worker : Worker
  pub batcher : Batcher (BatchedJob J)

module _ {J : Type 0} where
  -- The constructor, for a worker that the base class has made and `jobBatchMaxTime`.
  unfoldable pub new_batch_worker : ℕ → Worker → BatchWorker J
  unfolding new_batcher
  new_batch_worker job_batch_max_time w = record {
    worker = w;
    batcher = new_batcher job_batch_max_time w.job_batch_min_size;
  }

  abbrev pub batched : ActivatedJob J → BatchedJob J
  batched job = record { job = job; called = none }

  -- `handleJobs`: the new state of the batcher, and the jobs that the handler is called with.
  unfoldable pub handle_jobs :
      List (ActivatedJob J) → Batcher (BatchedJob J) → Batcher (BatchedJob J) × List (BatchedJob J)
  unfolding batch
  handle_jobs jobs b = let (b', _, executed) = batch (map batched jobs) b in (b', handed executed)

  abbrev deliver :
      Worker → Batcher (BatchedJob J) → Delivery J → BatchWorker J × List (BatchedJob J)
  deliver w b (handed_over jobs) =
      let (b', called) = handle_jobs jobs b in (record { worker = w; batcher = b' }, called)
  deliver w b ignored = (record { worker = w; batcher = b }, [])
  deliver w b malformed = (record { worker = w; batcher = b }, [])

  -- A response of the gateway.
  unfoldable pub respond :
      (String → Option J)
      → BatchWorker J
      → List (ActivatedJob String)
      → BatchWorker J × List (BatchedJob J)
  unfolding handle_job_response handle_jobs
  respond parse f jobs =
      let (w, delivery) = handle_job_response parse f.worker jobs in deliver w f.batcher delivery

-- A response, the timer of the batcher, or a call of `close`.
pub data Event : Type 0 where
  responds : List (ActivatedJob String) → Event
  timer_fires closes : Event

module _ {J : Type 0} (parse : String → Option J) where
  abbrev timer : Batcher (BatchedJob J) → Batcher (BatchedJob J) × List (BatchedJob J)
  timer b = step b Delivery.timer_fires

  unfoldable pub react : BatchWorker J → Event → BatchWorker J × List (BatchedJob J)
  react f (responds jobs) = respond parse f jobs
  react f timer_fires = let (b, called) = timer f.batcher in (record f { batcher = b }, called)
  react f closes = (record f { worker = (close f.worker).0 }, [])

  unfoldable pub run : BatchWorker J → List Event → BatchWorker J × List (BatchedJob J)
  run f [] = (f, [])
  run f (e ∷ rest) =
      let (g, first) = react f e in let (h, later) = run g rest in (h, first ++ later)

  abbrev parsed : Option (List (ActivatedJob J)) → List (BatchedJob J)
  parsed none = []
  parsed (some jobs) = map batched jobs

  -- The jobs of the responses that come before the worker is closed and that can be parsed; the flag
  -- says that it is closed.
  abbrev pub accepted : Bool → List Event → List (BatchedJob J)
  accepted true events = []
  accepted false [] = []
  accepted false (responds jobs ∷ rest) = parsed (parse_jobs parse jobs) ++ accepted false rest
  accepted false (timer_fires ∷ rest) = accepted false rest
  accepted false (closes ∷ rest) = accepted true rest
