-- ===== src/Batch/Tests.antt =====
-- The batch worker at concrete inputs (src/zb/ZBBatchWorker.ts, src/lib/JobBatcher.ts).
use zeebe_client_node_js.Base.{◌≡◌, refl, true, false, none, some, List, [], ◌∷◌, ◌++◌, String}
use zeebe_client_node_js.Worker.State.{Worker, Options, new_worker, made}
use zeebe_client_node_js.Worker.Tests.{options, worker, job, parse}
use zeebe_client_node_js.Batch.Delivery.{IsSound}
use zeebe_client_node_js.Batch.Responses.{
  BatchWorker, new_batch_worker, Event, responds, timer_fires, closes, accepted, run,
}
use zeebe_client_node_js.Batch.InOrder.{responses_in_order}

-- Two jobs, the timer, another job, and a response that comes after `close`.
abbrev events : List Event
events =
    responds (job ∷ job ∷ [])
    ∷ timer_fires
    ∷ responds (job ∷ [])
    ∷ closes
    ∷ responds (job ∷ [])
    ∷ []

abbrev three_at_least : Options
three_at_least = record options { job_batch_min_size = some 3 }

abbrev idle_worker : Worker
idle_worker = record (worker 0) { job_batch_min_size = 3 }

idle_worker_is_made : new_worker three_at_least (some "payment") "w" true none ≡ made idle_worker
unfolding new_worker
idle_worker_is_made = refl

abbrev batch_worker : BatchWorker String
batch_worker = new_batch_worker 60 idle_worker

responses_in_order_example :
    ((run parse batch_worker events).1 ++ (run parse batch_worker events).0.batcher.batched_jobs
      ≡ accepted parse false events)
    × IsSound (run parse batch_worker events).0.batcher
responses_in_order_example =
    responses_in_order parse three_at_least (some "payment") "w" true none 60 events
      idle_worker_is_made
