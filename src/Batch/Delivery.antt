-- ===== src/Batch/Delivery.antt =====
-- Every job that is batched reaches the handler once, in order (src/lib/JobBatcher.ts).
use mathlib.Core.List.{append_assoc, append-nil}
use zeebe_client_node_js.Base.{
  ℕ, ◌<◌, ◌≡◌, ◌≢◌, ◌⊎◌, ◌↔◌, ap, sym, ◌∙◌, refl, true, false, Option, none, some, List, [], ◌∷◌,
  ◌++◌, arith, length,
}
use zeebe_client_node_js.Batch.Queue.{push, is_empty, pop}
use zeebe_client_node_js.Batch.Batcher.{Batcher, new_batcher, execute, push_all, batch}

-- A call of `batch`, or the timer.
pub data Event (T : Type 0) : Type 0 where
  arrives : List T → Event T
  timer_fires : Event T

module _ {T : Type 0} where
  abbrev pub handed : Option (List T) → List T
  handed none = []
  handed (some jobs) = jobs

  -- The new state, and the jobs with which the handler was called. A timer that is not set does not
  -- fire.
  unfoldable pub step : Batcher T → Event T → Batcher T × List T
  step b (arrives jobs) = let (b', _, executed) = batch jobs b in (b', handed executed)
  step b timer_fires = elim b.timer [ true ↦ execute b | false ↦ (b, []) ]

  unfoldable pub steps : Batcher T → List (Event T) → Batcher T × List T
  steps b [] = (b, [])
  steps b (e ∷ rest) =
      let (b₁, first) = step b e in let (b₂, later) = steps b₁ rest in (b₂, first ++ later)

  abbrev pub arrived : List (Event T) → List T
  arrived [] = []
  arrived (arrives jobs ∷ rest) = jobs ++ arrived rest
  arrived (timer_fires ∷ rest) = arrived rest

  pub push_all_lem : (jobs q : List T) → push_all jobs q ≡ q ++ jobs
  unfolding push
  push_all_lem [] q = rw append-nil
  push_all_lem (job ∷ jobs) q = rw (push_all_lem jobs (q ++ job ∷ []), append_assoc)

  step-keeps :
      (b : Batcher T) (jobs : List T)
      → (step b (arrives jobs)).1 ++ (step b (arrives jobs)).0.batched_jobs ≡ b.batched_jobs ++ jobs
  unfolding step batch
  step-keeps b jobs =
      ground (arith, push_all_lem jobs b.batched_jobs, append-nil (b.batched_jobs ++ jobs))

  step_timer-keeps :
      (b : Batcher T)
      → (step b timer_fires).1 ++ (step b timer_fires).0.batched_jobs ≡ b.batched_jobs
  unfolding step execute
  step_timer-keeps b = ground (arith, append-nil b.batched_jobs)

  -- What holds of a batcher between two events.
  pub record IsSound (b : Batcher T) : Type 0 where
    pub armed : b.batched_jobs ≢ [] → b.timer ≡ true
    pub short : (b.batched_jobs ≡ []) ⊎ (length b.batched_jobs < b.batch_size)

  step-IsSound : (b : Batcher T) (e : Event T) → IsSound b → IsSound (step b e).0
  unfolding step batch execute
  step-IsSound b (arrives jobs) i = ground arith
  step-IsSound b timer_fires i = ground arith

  steps-keeps :
      (b : Batcher T) (events : List (Event T))
      → (steps b events).1 ++ (steps b events).0.batched_jobs ≡ b.batched_jobs ++ arrived events
  unfolding steps
  steps-keeps b [] = sym (append-nil b.batched_jobs)
  steps-keeps b (arrives jobs ∷ rest) =
      append_assoc (step b (arrives jobs)).1 _ _
      ∙ ap (λ l. (step b (arrives jobs)).1 ++ l) (steps-keeps (step b (arrives jobs)).0 rest)
      ∙ sym (append_assoc (step b (arrives jobs)).1 _ _)
      ∙ ap (λ l. l ++ arrived rest) (step-keeps b jobs)
      ∙ append_assoc b.batched_jobs jobs (arrived rest)
  steps-keeps b (timer_fires ∷ rest) =
      append_assoc (step b timer_fires).1 _ _
      ∙ ap (λ l. (step b timer_fires).1 ++ l) (steps-keeps (step b timer_fires).0 rest)
      ∙ sym (append_assoc (step b timer_fires).1 _ _)
      ∙ ap (λ l. l ++ arrived rest) (step_timer-keeps b)

  steps-IsSound : (b : Batcher T) (events : List (Event T)) → IsSound b → IsSound (steps b events).0
  unfolding steps
  steps-IsSound b [] i = i
  steps-IsSound b (e ∷ rest) i = steps-IsSound (step b e).0 rest (step-IsSound b e i)

  new_batcher-IsSound : (timeout size : ℕ) → IsSound (new_batcher timeout size)
  unfolding new_batcher
  new_batcher-IsSound timeout size = ground arith

  -- Over any sequence of arrivals and timers, the jobs that the handler was called with, followed by
  -- those that still wait, are the jobs that arrived, each once and in order; jobs that wait are
  -- fewer than a batch, and a timer is set for them.
  pub batched_in_order :
      (timeout size : ℕ) (events : List (Event T))
      → ((steps (new_batcher timeout size) events).1
            ++ (steps (new_batcher timeout size) events).0.batched_jobs
          ≡ arrived events)
        × IsSound (steps (new_batcher timeout size) events).0
  unfolding new_batcher
  batched_in_order timeout size events = (
    steps-keeps (new_batcher timeout size) events,
    steps-IsSound (new_batcher timeout size) events (new_batcher-IsSound timeout size),
  )

  -- `isEmpty` says the opposite of its name: it is true exactly when `pop` gives an element.
  pub is_empty_inverted : (q : List T) → (is_empty q ≡ true) ↔ ((pop q).1 ≢ none)
  unfolding is_empty pop
  is_empty_inverted [] = (λ h. cc, λ h. absurd (h refl))
  is_empty_inverted (x ∷ q) = (λ h. cc, λ h. ground arith)
