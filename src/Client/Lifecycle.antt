-- ===== src/Client/Lifecycle.antt =====
-- A client, the workers that it creates, and its `close` (src/zb/ZBClient.ts).
use mathlib.Core.Option
use zeebe_client_node_js.Base.{
  ℕ, zero, suc, ◌+◌, Bool, true, false, Option, none, some, List, [], ◌∷◌, ◌++◌, String, ℤ, pos,
  negsuc, if◌then◌else◌, nullish, nullish_option, or_number,
}
use zeebe_client_node_js.Batch.Batcher.{Batcher, new_batcher}
use zeebe_client_node_js.OAuth.Provider.{Provider, stop_expiry_timer}
use zeebe_client_node_js.Worker.State.{
  Worker, Options, Constructed, ConstructorError, made, threw, new_worker,
}
use zeebe_client_node_js.Worker.Closing
use zeebe_client_node_js.Worker.Closing.{Effect}

-- `workers` are in the order of creation. `long_poll` and `poll_interval` are the client's options.
pub record Client : Type 0 where
  pub closing : Bool
  pub close_called : Bool
  pub worker_count : ℕ
  pub workers : List Worker
  pub retry : Bool
  pub max_retries : ℤ
  pub max_retry_timeout : ℕ
  pub tenant_id : Option String
  pub long_poll : ℕ
  pub poll_interval : ℕ
  pub o_auth : Option Provider

abbrev pub default_max_retries : ℤ
default_max_retries = negsuc 0

-- `this.options.maxRetries || ZBClient.DEFAULT_MAX_RETRIES`
unfoldable pub client_max_retries : Option ℤ → ℤ
client_max_retries none = default_max_retries
client_max_retries (some (pos zero)) = default_max_retries
client_max_retries (some (pos (suc n))) = pos (suc n)
client_max_retries (some (negsuc n)) = negsuc n

-- The options that the constructor reads for these fields, after hydration.
pub record ClientOptions : Type 0 where
  pub retry : Bool
  pub max_retries : Option ℤ
  pub max_retry_timeout : Option ℕ
  pub tenant_id : Option String
  pub long_poll : Option ℕ
  pub poll_interval : Option ℕ

-- The constructor, up to its listeners (`Status`) and its eager call of `topology`.
unfoldable pub new_client : ClientOptions → Option Provider → Client
unfolding client_max_retries
new_client o provider = record {
  closing = false;
  close_called = false;
  worker_count = 0;
  workers = [];
  retry = o.retry;
  max_retries = client_max_retries o.max_retries;
  max_retry_timeout = or_number o.max_retry_timeout 5000;
  tenant_id = o.tenant_id;
  long_poll = nullish o.long_poll 30000;
  poll_interval = nullish o.poll_interval 300;
  o_auth = provider;
}

-- What a worker's configuration may override, and what it sets for itself.
pub record WorkerConfig : Type 0 where
  pub id : Option String
  pub task_type : Option String
  pub has_handler : Bool
  pub tenant_id : Option String
  pub long_poll : Option ℕ
  pub poll_interval : Option ℕ
  pub max_jobs_to_activate : Option ℕ
  pub job_batch_min_size : Option ℕ
  pub timeout : Option ℕ
  pub debug : Option Bool
  pub fail_process_on_exception : Option Bool
  pub fetch_variable : Option (List String)

-- `{ ...this.options, …, ...config }`, for options that are set or absent.
abbrev pub worker_options : Client → WorkerConfig → Options
worker_options c config = record {
  tenant_id = nullish_option config.tenant_id c.tenant_id;
  max_jobs_to_activate = config.max_jobs_to_activate;
  job_batch_min_size = config.job_batch_min_size;
  timeout = config.timeout;
  poll_interval = nullish config.poll_interval c.poll_interval;
  long_poll = nullish_option config.long_poll (some c.long_poll);
  debug = config.debug;
  fail_process_on_exception = config.fail_process_on_exception;
  fetch_variable = config.fetch_variable;
}

-- The result of creating a worker: the client refuses because it is closing, the worker's
-- constructor throws, or there is a worker.
pub data Creation (W : Type 0) : Type 0 where
  client_is_closing : Creation W
  invalid : ConstructorError → Creation W
  created : W → Creation W

abbrev add_worker : Client → Constructed → Client × Creation Worker
add_worker c (threw e) = (c, invalid e)
add_worker c (made w) = (record c { workers = c.workers ++ w ∷ [] }, created w)

-- `createWorker`
unfoldable pub create_worker : Client → String → WorkerConfig → Client × Creation Worker
create_worker c fresh_id config =
    if c.closing
    then (c, client_is_closing)
    else add_worker (record c { worker_count = c.worker_count + 1 })
        (new_worker (worker_options c config) config.task_type fresh_id config.has_handler
          config.id)

-- `createBatchWorker`, for jobs of a type `T`; `max_time` is `jobBatchMaxTime`.
abbrev with_batcher :
    {T : Type 0} → ℕ → Client × Creation Worker → Client × Creation (Worker × Batcher T)
with_batcher max_time (c, client_is_closing) = (c, client_is_closing)
with_batcher max_time (c, invalid e) = (c, invalid e)
with_batcher max_time (c, created w) = (c, created (w, new_batcher max_time w.job_batch_min_size))

unfoldable pub create_batch_worker :
    {T : Type 0} → Client → String → WorkerConfig → ℕ → Client × Creation (Worker × Batcher T)
unfolding create_worker
create_batch_worker c fresh_id config max_time =
    with_batcher max_time (create_worker c fresh_id config)

abbrev pub close_workers : List Worker → List Worker × List Effect
close_workers [] = ([], [])
close_workers (w ∷ rest) =
    let (w', first) = Closing.close w in
    let (rest', later) = close_workers rest in (w' ∷ rest', first ++ later)

-- `close`, up to its first `await`. A second call gives the first promise.
unfoldable pub close : Client → Client × List Effect
close c =
    if c.close_called
    then (c, [])
    else let (workers', effects) = close_workers c.workers in
      (record c { closing = true; close_called = true; workers = workers' }, effects)

-- The rest of `close` up to its second `await`, when all workers have closed.
unfoldable pub workers_closed : Client → Client
workers_closed c = record c { o_auth = Option.map stop_expiry_timer c.o_auth }
