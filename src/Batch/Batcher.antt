-- ===== src/Batch/Batcher.antt =====
-- The batcher of src/lib/JobBatcher.ts, and the part of src/zb/ZBBatchWorker.ts that feeds it. The
-- handler is called with the jobs of a batch; what it throws is caught and logged.
use zeebe_client_node_js.Base.{
  ℕ, ◌*◌, Bool, true, false, Option, none, some, List, [], ◌∷◌, if◌then◌else◌, leb, ltb,
}
use zeebe_client_node_js.Batch.Queue.{Queue, push, drain, length}

-- `timer` says that `batchExecutionTimerHandle` is set.
pub record Batcher (T : Type 0) : Type 0 where
  pub batched_jobs : Queue T
  pub timer : Bool
  pub timeout : ℕ
  pub batch_size : ℕ

module _ {T : Type 0} where
  -- The constructor.
  unfoldable pub new_batcher : ℕ → ℕ → Batcher T
  new_batcher timeout batch_size = record {
    batched_jobs = [];
    timer = false;
    timeout = timeout;
    batch_size = batch_size;
  }

  -- `execute`: the new state, and the jobs with which the handler is called.
  unfoldable pub execute : Batcher T → Batcher T × List T
  unfolding drain
  execute b =
      let (rest, jobs) = drain b.batched_jobs in
      (record b { timer = false; batched_jobs = rest }, jobs)

  -- `batch.forEach(this.batchedJobs.push)`
  abbrev pub push_all : List T → Queue T → Queue T
  push_all [] q = q
  push_all (job ∷ jobs) q = push_all jobs (push job q)

  -- `batch`: the new state, the delay in milliseconds of a timer that it starts, and the jobs of the
  -- batch that it executes at once, if it does.
  unfoldable pub batch : List T → Batcher T → Batcher T × Option ℕ × Option (List T)
  unfolding execute push length
  batch jobs b =
      let started = if b.timer then none else some (b.timeout * 1000) in
      let b' = record b { timer = true; batched_jobs = push_all jobs b.batched_jobs } in
      if leb b'.batch_size (length b'.batched_jobs)
      then (let (b'', executed) = execute b' in (b'', started, some executed))
      else (b', started, none)

-- The test of the batch worker's constructor for a time-out that is too short, as written. The job
-- time-out is in milliseconds here, and `jobBatchMaxTime` is in seconds.
unfoldable pub warns_misconfigured : ℕ → ℕ → Bool
warns_misconfigured timeout job_batch_max_time = ltb timeout job_batch_max_time
