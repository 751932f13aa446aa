-- ===== src/Worker/Tasks/Slots.antt =====
-- The slots of a worker, over everything that its handlers, its gateway and its poll loop do
-- (src/zb/ZBWorker.ts, src/lib/ZBWorkerBase.ts).
use zeebe_client_node_js.Base.{
  ℕ, ◌+◌, ◌≡◌, refl, ap, subst, ◌∙◌, Bool, true, false, Option, some, List, [], ◌∷◌, ◌++◌, String,
  ℤ, pos, pos_part, neg_part, ◌+ℤ◌, arith, int_laws, length, +ℤ_chain, sub-add_cancel, Bool-cases,
  inl, inr, Option-cases,
}
use zeebe_client_node_js.Variables.{ActivatedJob}
use zeebe_client_node_js.Worker.State.{Worker}
use zeebe_client_node_js.Worker.Polling.{poll, resume_poll, on_end, on_error, handle_stream_end}
use zeebe_client_node_js.Worker.Closing.{drain_one, close, resume_close}
use zeebe_client_node_js.Worker.Actions.{Action, complete, fail, error, forward, cancel_workflow}
use zeebe_client_node_js.Worker.Jobs.{parse_jobs, handle_job_response, handle_exception}
use zeebe_client_node_js.Worker.Accounting.{active-drain_one, active-settle}
use zeebe_client_node_js.Worker.Tasks.{
  Task, Board, handle_jobs, call, throw_in, respond, Move, polled, resumed, stream_ended,
  stream_failed, timer_fired, closed, channel_closed,
}

pub active-Move : {w v : Worker} → Move w v → v.active_jobs ≡ w.active_jobs
unfolding poll resume_poll on_end on_error handle_stream_end close resume_close
active-Move polled = ground arith
active-Move (resumed r) = ground arith
active-Move (stream_ended id) = ground arith
active-Move (stream_failed id code) = ground arith
active-Move (timer_fired id) = ground arith
active-Move closed = ground arith
active-Move channel_closed = ground arith

pub drained-slots : (w : Worker) → (drain_one w).0.active_jobs +ℤ pos 1 ≡ w.active_jobs
drained-slots w = rw (active-drain_one w) (sub-add_cancel w.active_jobs)

more : (a : ℤ) (r n k : ℕ) → a +ℤ pos r ≡ pos n → (a +ℤ pos k) +ℤ pos r ≡ pos (n + k)
more a r n k h = let p = ap pos_part h in let q = ap neg_part h in omega int_laws

-- What `throw_in` gives back, by the worker's configuration.
abbrev pub thrown : Bool → ℕ
thrown true = 0
thrown false = 1

module _ {J : Type 0} where
  -- The slots that the tasks have given back.
  abbrev pub released_by : List (Task J) → ℕ
  released_by [] = 0
  released_by (t ∷ rest) = t.released + released_by rest

  released_by-append :
      (xs ys : List (Task J)) → released_by (xs ++ ys) ≡ released_by xs + released_by ys
  released_by-append [] ys = omega arith
  released_by-append (t ∷ xs) ys = omega (arith, released_by-append xs ys)

  length-append : (xs ys : List (Task J)) → length (xs ++ ys) ≡ length xs + length ys
  length-append [] ys = omega arith
  length-append (t ∷ xs) ys = omega (arith, length-append xs ys)

  handle_jobs_lem :
      (jobs : List (ActivatedJob J))
      → (released_by (handle_jobs jobs) ≡ 0) × (length (handle_jobs jobs) ≡ length jobs)
  unfolding handle_jobs
  handle_jobs_lem [] = (refl, refl)
  handle_jobs_lem (job ∷ jobs) =
      (omega (arith, (handle_jobs_lem jobs).0), omega (arith, (handle_jobs_lem jobs).1))

  -- Slots that are taken, with those that were given back: one for each job that came.
  abbrev pub Balanced : Board J → Type 0
  Balanced f = f.worker.active_jobs +ℤ pos (released_by f.tasks) ≡ pos (length f.tasks + f.lost)

  -- One task of a board has given back `k` slots more.
  pub replace-Balanced :
      (f : Board J) (before after : List (Task J)) (t u : Task J) (w : Worker) (k : ℕ)
      → f.tasks ≡ before ++ t ∷ after
      → w.active_jobs +ℤ pos k ≡ f.worker.active_jobs
      → u.released ≡ t.released + k
      → Balanced f
      → Balanced (record f { worker = w; tasks = before ++ u ∷ after })
  replace-Balanced f before after t u w k p q r b =
      let old = released_by-append before (t ∷ after) in
      let new = released_by-append before (u ∷ after) in
      let l = length-append before (t ∷ after) in
      let m = length-append before (u ∷ after) in
      let tasks = ap released_by p in
      let count = ap length p in
      let all =
        +ℤ_chain (pos (length f.tasks + f.lost)) f.worker.active_jobs w.active_jobs
          (released_by f.tasks) k q b in
      subst (λ n. w.active_jobs +ℤ pos n ≡ pos (length (before ++ u ∷ after) + f.lost))
        (omega arith) (all ∙ ap pos (omega arith))

  pub call-slots :
      (empty : J) (w : Worker) (t : Task J) (a : Action J)
      → (k : ℕ) × ((call empty w t a).0.active_jobs +ℤ pos k ≡ w.active_jobs)
        × ((call empty w t a).1.released ≡ t.released + k)
  unfolding call
  call-slots empty w t forward = (1, active-settle {J = J} w forward true, refl)
  call-slots empty w t (complete v) = (0, omega int_laws, omega arith)
  call-slots empty w t (fail c n) = (0, omega int_laws, omega arith)
  call-slots empty w t (error c m) = (0, omega int_laws, omega arith)
  call-slots empty w t cancel_workflow = (0, omega int_laws, omega arith)

  pub throw_in-slots :
      (w : Worker) (t : Task J) (e : String)
      → ((throw_in w t e).0.active_jobs +ℤ pos (thrown w.cancel_workflow_on_exception)
          ≡ w.active_jobs)
        × ((throw_in w t e).1.released ≡ t.released + thrown w.cancel_workflow_on_exception)
  unfolding throw_in handle_exception ◌+ℤ◌
  throw_in-slots w t e = ground (arith, drained-slots w)

  length-parse_jobs :
      (parse : String → Option J) (jobs : List (ActivatedJob String)) {seen : List (ActivatedJob J)}
      → parse_jobs parse jobs ≡ some seen
      → length seen ≡ length jobs
  unfolding parse_jobs
  length-parse_jobs parse [] h = ground arith
  length-parse_jobs parse (job ∷ jobs) {seen} h = elim (Option-cases (parse_jobs parse jobs)) [
    | inl e ↦ absurd (ground arith)
    | inr (ys, e) ↦ ground (arith, length-parse_jobs parse jobs e)
  ]

  pub respond-Balanced :
      (parse : String → Option J) (f : Board J) (jobs : List (ActivatedJob String))
      → Balanced f
      → Balanced (respond parse f jobs)
  unfolding respond handle_job_response
  respond-Balanced parse f jobs b =
      let grown =
        more f.worker.active_jobs (released_by f.tasks) (length f.tasks + f.lost) (length jobs) b in
      elim (Bool-cases f.worker.closing) [
        | inl c ↦ rw c b
        | inr c ↦ elim (Option-cases (parse_jobs parse jobs)) [
          | inl e ↦ rw (c, e) (grown ∙ ap pos (omega arith))
          | inr (seen, e) ↦
              rw (c, e)
                (subst
                  (λ n.
                    (f.worker.active_jobs +ℤ pos (length jobs)) +ℤ pos n
                    ≡ pos (length (f.tasks ++ handle_jobs seen) + f.lost))
                  (omega (
                    arith,
                    released_by-append f.tasks (handle_jobs seen),
                    (handle_jobs_lem seen).0,
                  ))
                  (grown
                    ∙ ap pos (
                        omega (
                          arith,
                          length-append f.tasks (handle_jobs seen),
                          (handle_jobs_lem seen).1,
                          length-parse_jobs parse jobs e,
                        ))))
        ]
      ]
