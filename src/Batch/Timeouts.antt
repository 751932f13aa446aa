-- ===== src/Batch/Timeouts.antt =====
-- The warning about a job time-out that is shorter than a batch may wait (src/zb/ZBBatchWorker.ts).
use zeebe_client_node_js.Base.{ℕ, ◌*◌, ◌≤◌, ◌<◌, ◌≡◌, false, some, List, arith}
use zeebe_client_node_js.Batch.Batcher.{Batcher, batch, warns_misconfigured}

-- Where the job time-out, as a number, is at least the batch time's number of seconds, no warning is
-- given, although the first job of a batch may wait longer than its time-out.
pub warning_missed :
    {T : Type 0} (b : Batcher T) (jobs : List T) (timeout : ℕ)
    → b.timer ≡ false
    → b.timeout ≤ timeout
    → timeout < b.timeout * 1000
    → (wait : ℕ) × ((batch jobs b).1 ≡ some wait)
      × (timeout < wait)
      × (warns_misconfigured timeout b.timeout ≡ false)
unfolding batch warns_misconfigured
warning_missed b jobs timeout idle l h = (b.timeout * 1000, ground arith, h, ground arith)
